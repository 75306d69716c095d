-- ===== src/Object/Log2.antt =====
-- gafqO_log2 and ceillog2: the number of binary digits.
use native.Mathlib.Nat.{pow-suc}
use native.Mathlib.Numerals.{towards_suc, add-one}
use gafq.Prelude.{
  ℕ, zero, suc, ◌+◌, ◌-◌, ◌*◌, ◌/◌, ◌%◌, ◌^◌, ◌≤◌, ◌<◌, ◌≡◌, refl, ap, arith, Bool, true, ◌&&◌, ltb,
  leb, leb→le, Bool-cases, inl, inr, ◌⊎◌, ◌==◌, get_or, if◌then◌else◌,
}
use gafq.Prelude.Int.{pos, negsuc}
use gafq.Prelude.Bits.{every, every_holds}
use gafq.Object.Numbers.{log_2, log2_loop, log2, ceillog2}

-- `w` binary digits are needed for `x`, and suffice.
record Digits (w x : ℕ) : Type 0 where
  fit : x < 2 ^ w
  needed : 0 < x → 2 ^ w ≤ 2 * x
  empty : x ≡ 0 → w ≡ 0

digits_test : ℕ → Bool
digits_test x =
    let w = get_or log_2 x 0 in ltb x (2 ^ w) && (if x == 0 then w == 0 else leb (2 ^ w) (2 * x))

digits_table : every 256 digits_test ≡ true
unfolding every digits_test log_2
digits_table = refl

log_2-Digits : (x : ℕ) → x < 256 → Digits (get_or log_2 x 0) x
unfolding digits_test
log_2-Digits x h = ground (arith, every_holds 256 digits_test digits_table x h)

pow_add_eight : (w : ℕ) → 2 ^ (w + 8) ≡ 256 * 2 ^ w
pow_add_eight w = simp towards_suc (omega arith)

Digits-shift : (w x : ℕ) → 256 ≤ x → Digits w (x / 2 ^ 8) → Digits (w + 8) x
Digits-shift w x h d = record {
  fit = omega (arith, pow_add_eight w, d.fit);
  needed = λ _. omega (arith, pow_add_eight w, d.needed (omega arith));
  empty = λ z. absurd (omega arith);
}

log2_loop-Digits :
    (fuel l x : ℕ)
    → x < 256 * 256 ^ fuel
    → (w : ℕ) × ((log2_loop fuel l x).0 + get_or log_2 (log2_loop fuel l x).1 0 ≡ l + w)
      × Digits w x
unfolding log2_loop
log2_loop-Digits zero l x h = (get_or log_2 x 0, refl, log_2-Digits x (omega arith))
log2_loop-Digits (suc fuel) l x h = elim (Bool-cases (leb 256 x)) [
  | inl big ↦
      let (w, e, d) = log2_loop-Digits fuel (l + 8) (x / 2 ^ 8) (omega (arith, pow-suc 256 fuel)) in
      rw big (w + 8, omega (arith, e), Digits-shift w x (leb→le 256 x big) d)
  | inr low ↦ rw low (get_or log_2 x 0, refl, log_2-Digits x (ground arith))
]

positive : (w x : ℕ) → 0 < x → Digits w x → 0 < w
positive zero x p d = absurd (omega (arith, d.fit))
positive (suc w) x p d = omega arith

pow_pred : (w : ℕ) → 0 < w → 2 ^ w ≡ 2 * 2 ^ (w - 1)
pow_pred zero p = absurd (omega arith)
pow_pred (suc w) p = omega (arith, pow-suc 2 w, ap (λ (t : ℕ). 2 ^ t) (pred_suc w))
  where
    pred_suc : (k : ℕ) → suc k - 1 ≡ k
    pred_suc k = omega arith

log2_zero : log2 0 ≡ negsuc 0
unfolding log2 log2_loop log_2
log2_zero = refl

-- The position of the highest binary digit.
log2_floor :
    (x : ℕ) → 0 < x → x < 2 ^ 32 → (n : ℕ) × (log2 x ≡ pos n) × (2 ^ n ≤ x) × (x < 2 ^ (n + 1))
unfolding log2
log2_floor x p h =
    let (w, e, d) = log2_loop-Digits 4 0 x (omega arith) in
    let half : 2 ^ w ≡ 2 * 2 ^ (w - 1) = pow_pred w (positive w x p d) in
    (
      w - 1,
      ground (arith, e, positive w x p d),
      omega (arith, half, d.needed p),
      omega (arith, half, pow-suc 2 (w - 1), d.fit, ap (λ (t : ℕ). 2 ^ t) (add-one (w - 1))),
    )

-- The least exponent whose power of two is no less than `x`.
pub ceillog2_least :
    (x : ℕ)
    → 0 < x
    → x ≤ 2 ^ 32
    → (x ≤ 2 ^ ceillog2 x) × ((ceillog2 x ≡ 0) ⊎ (2 ^ (ceillog2 x - 1) < x))
unfolding ceillog2
ceillog2_least x p h =
    let y : (x + 2 ^ 32 - 1) % 2 ^ 32 ≡ x - 1 = omega arith in
    let (w, e, d) = log2_loop-Digits 4 0 (x - 1) (omega arith) in
    let w' : w ≡ (log2_loop 4 0 (x - 1)).0 + get_or log_2 (log2_loop 4 0 (x - 1)).1 0 =
      omega (arith, e) in
    rw (y, ← w') (omega (arith, d.fit), above_half w d)
  where
    above_half : (w : ℕ) → Digits w (x - 1) → (w ≡ 0) ⊎ (2 ^ (w - 1) < x)
    above_half w d = elim (Bool-cases (x == 1)) [
      | inl one ↦ inl (d.empty (ground arith))
      | inr more ↦
          let q : 0 < x - 1 = ground arith in
          inr (omega (arith, pow_pred w (positive w (x - 1) q d), d.needed q))
    ]

-- The logarithm of a positive 32-bit number is the position of its highest binary digit; that of 0
-- is -1; and for 1 ≤ y ≤ 2 ^ 32, `ceillog2` gives the least exponent whose power of two is no less
-- than y.
pub log2-ceillog2 :
    (x y : ℕ)
    → 0 < x
    → x < 2 ^ 32
    → 0 < y
    → y ≤ 2 ^ 32
    → ((n : ℕ) × (log2 x ≡ pos n) × (2 ^ n ≤ x) × (x < 2 ^ (n + 1)))
      × (log2 0 ≡ negsuc 0)
      × (y ≤ 2 ^ ceillog2 y)
      × ((ceillog2 y ≡ 0) ⊎ (2 ^ (ceillog2 y - 1) < y))
log2-ceillog2 x y x_pos x_word y_pos y_word =
    let least = ceillog2_least y y_pos y_word in
    (log2_floor x x_pos x_word, log2_zero, least.0, least.1)
