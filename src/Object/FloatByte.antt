-- ===== src/Object/FloatByte.antt =====
-- gafqO_int2fb and gafqO_fb2int: rounding up, and by how much.
use mathlib.Core.Path.{subst}
use native.Mathlib.Nat.{pow-suc, pow-le-pow_right}
use gafq.Prelude.{
  ℕ, zero, suc, ◌+◌, ◌-◌, ◌*◌, ◌/◌, ◌%◌, ◌^◌, ◌≤◌, ◌<◌, ◌≡◌, refl, sym, ap, arith, bit_and, bit_or,
  Bool-cases, inl, inr, ◌⊎◌, ◌==◌, ==_iff, true, false, ltb, leb, leb→le,
}
use gafq.Prelude.Bits.{bit_and_mask, high_or, every, every_holds}
use gafq.Object.Numbers.{shrink, float_byte, int2fb, fb2int}

-- What the loop has found after `k` rounds: the number divided by 2 ^ k, rounded up.
record Shrunk (n x e : ℕ) (r : ℕ × ℕ) : Type 0 where
  rounds : ℕ
  counted : r.1 ≡ e + rounds
  few : rounds ≤ n
  small : r.0 < 16
  large : 16 ≤ x → 8 ≤ r.0
  still : x < 16 → (r.0 ≡ x) × (rounds ≡ 0)
  above : x ≤ r.0 * 2 ^ rounds
  below : r.0 * 2 ^ rounds < x + 2 ^ rounds

-- One round more in front.
Shrunk-suc :
    (n x e : ℕ) (r : ℕ × ℕ)
    → 16 ≤ x
    → x < 2 ^ 32 - 1
    → Shrunk n ((x + 1) % 2 ^ 32 / 2) (e + 1) r
    → Shrunk (suc n) x e r
Shrunk-suc n x e r l w s = record {
  rounds = suc s.rounds;
  counted = omega (arith, s.counted);
  few = omega (arith, s.few);
  small = s.small;
  large = λ _. big;
  still = λ lt. absurd (omega arith);
  above = omega (arith, double, s.above);
  below = omega (arith, double, pow-suc 2 s.rounds, s.below);
}
  where
    double : r.0 * 2 ^ suc s.rounds ≡ 2 * (r.0 * 2 ^ s.rounds)
    double = omega (arith, ap (λ (t : ℕ). r.0 * t) (pow-suc 2 s.rounds))

    big : 8 ≤ r.0
    big = elim (Bool-cases (leb 16 ((x + 1) % 2 ^ 32 / 2))) [
      | inl h ↦ s.large (leb→le 16 ((x + 1) % 2 ^ 32 / 2) h)
      | inr h ↦ omega (arith, (s.still (ground arith)).0)
    ]

Shrunk-stop : (n x e : ℕ) → x < 16 → Shrunk n x e (x, e)
Shrunk-stop n x e h = record {
  rounds = 0;
  counted = omega arith;
  few = omega arith;
  small = h;
  large = λ l. omega arith;
  still = λ l. (refl, refl);
  above = omega arith;
  below = omega arith;
}

shrink-Shrunk :
    (fuel n x e : ℕ) → n < fuel → x ≤ 15 * 2 ^ n → x < 2 ^ 32 - 1 → Shrunk n x e (shrink fuel x e)
unfolding shrink
shrink-Shrunk zero n x e h b w = absurd (omega arith)
shrink-Shrunk (suc fuel) zero x e h b w = elim (Bool-cases (leb 16 x)) [
  | inl big ↦ absurd (omega (arith, leb→le 16 x big))
  | inr stop ↦ rw stop (Shrunk-stop zero x e (ground arith))
]
shrink-Shrunk (suc fuel) (suc n) x e h b w = elim (Bool-cases (leb 16 x)) [
  | inl big ↦ rw big (
      Shrunk-suc n x e _ (leb→le 16 x big) w (
        shrink-Shrunk fuel n ((x + 1) % 2 ^ 32 / 2) (e + 1) (omega arith)
          (omega (arith, pow-suc 2 n)) (omega arith)))
  | inr stop ↦ rw stop (Shrunk-stop (suc n) x e (ground arith))
]

small_table : every 16 (λ m. fb2int (float_byte m 0) == m) ≡ true
unfolding fb2int float_byte every
small_table = refl

small_exact : (m : ℕ) → m < 16 → fb2int (float_byte m 0) ≡ m
small_exact m h =
    (==_iff _ m).0 (every_holds 16 (λ m. fb2int (float_byte m 0) == m) small_table m h)

-- The byte written from a mantissa and an exponent within their ranges is read back as their product.
fb2int-float_byte :
    (m e : ℕ) → m < 16 → e < 31 → (8 ≤ m) ⊎ (e ≡ 0) → fb2int (float_byte m e) ≡ m * 2 ^ e % 2 ^ 32
unfolding fb2int float_byte
fb2int-float_byte m e hm he (inr z) =
    subst (λ k. fb2int (float_byte m k) ≡ m * 2 ^ k % 2 ^ 32) (sym z)
      (omega (arith, small_exact m hm))
fb2int-float_byte m e hm he (inl big) =
    let lt : ltb m 8 ≡ false = ground arith in
    let w : bit_or ((e + 1) * 2 ^ 3) (m - 8) ≡ (e + 1) * 2 ^ 3 + (m - 8) =
      high_or 3 (e + 1) (m - 8) (omega arith) in
    let ex : bit_and (((e + 1) * 2 ^ 3 + (m - 8)) / 2 ^ 3) 31 ≡ suc e =
      omega (arith, bit_and_mask 5 (((e + 1) * 2 ^ 3 + (m - 8)) / 2 ^ 3)) in
    let mant : bit_and ((e + 1) * 2 ^ 3 + (m - 8)) 7 + 8 ≡ m =
      omega (arith, bit_and_mask 3 ((e + 1) * 2 ^ 3 + (m - 8))) in
    let pred : suc e - 1 ≡ e = omega arith in rw (lt, w, ex, mant, pred) (ground arith)

module _ (x : ℕ) (h : x ≤ 15 * 2 ^ 27) (r : ℕ × ℕ) (s : Shrunk 27 x 0 r) where
  exponent : r.1 ≡ s.rounds
  exponent = omega (arith, s.counted)

  mantissa : (8 ≤ r.0) ⊎ (s.rounds ≡ 0)
  mantissa = elim (Bool-cases (leb 16 x)) [
    | inl b ↦ inl (s.large (leb→le 16 x b))
    | inr b ↦ inr (s.still (ground arith)).1
  ]

  scale : 2 ^ s.rounds ≤ 2 ^ 27
  scale = pow-le-pow_right {n = 2} (omega arith) s.few

  fits : r.0 * 2 ^ s.rounds ≤ 15 * 2 ^ 27
  fits = grind (arith, s.small, scale)

  value : fb2int (float_byte r.0 r.1) ≡ r.0 * 2 ^ s.rounds
  value =
      rw (exponent, fb2int-float_byte r.0 s.rounds s.small (omega (arith, s.few)) mantissa)
        (omega (arith, fits))

  overshoot : 8 * (r.0 * 2 ^ s.rounds - x) ≤ r.0 * 2 ^ s.rounds
  overshoot = elim mantissa [
    | inl b ↦ grind (arith, s.below)
    | inr z ↦ omega (arith, s.below, s.above, ap (λ (t : ℕ). 2 ^ t) z)
  ]

  exact_below : (16 ≤ x) ⊎ (r.0 * 2 ^ s.rounds ≡ x)
  exact_below = elim (Bool-cases (leb 16 x)) [
    | inl b ↦ inl (leb→le 16 x b)
    | inr b ↦ let (e, z) = s.still (ground arith) in rw (e, z) (inr (omega arith))
  ]

-- For numbers up to 15 * 2 ^ 27, the conversion to a floating point byte and back rounds up, by at
-- most an eighth of the result, is exact below 16, and gives a positive `int` or 0.
pub fb2int-int2fb :
    (x : ℕ)
    → x ≤ 15 * 2 ^ 27
    → (x ≤ fb2int (int2fb x))
      × (8 * (fb2int (int2fb x) - x) ≤ fb2int (int2fb x))
      × ((16 ≤ x) ⊎ (fb2int (int2fb x) ≡ x))
      × (fb2int (int2fb x) < 2 ^ 31)
unfolding int2fb
fb2int-int2fb x h =
    let s = shrink-Shrunk 32 27 x 0 (omega arith) h (omega arith) in
    rw (value x h _ s)
      (s.above, overshoot x h _ s, exact_below x h _ s, omega (arith, fits x h _ s))
