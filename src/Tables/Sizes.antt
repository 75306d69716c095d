-- ===== src/Tables/Sizes.antt =====
-- The array size of a rehash is in good use, and no other such size would hold more (gtable.c).
use native.Mathlib.Nat.{pow-suc, pow-le-pow_right}
use mathlib.Core.Path.{subst}
use gafq.Prelude.{
  ℕ, zero, suc, ◌+◌, ◌/◌, ◌^◌, ◌≤◌, ◌<◌, ◌≡◌, ◌∙◌, refl, sym, ap, arith, Bool-cases, ◌⊎◌, inl, inr,
  ltb, ◌==◌,
}
use gafq.Tables.{SizeCount, count_slice, maxbits, computesizes_loop, computesizes}

-- The keys in the slices below the `i`-th: those up to 2 ^ (i - 1).
abbrev pub keys_below : (ℕ → ℕ) → ℕ → ℕ
keys_below nums zero = 0
keys_below nums (suc i) = keys_below nums i + nums i

-- The size is 0, or a power of 2 of which the `na` keys up to it take more than half.
abbrev pub InUse : (ℕ → ℕ) → ℕ → ℕ → Type 0
InUse nums na n =
    ((n ≡ 0) × (na ≡ 0)) ⊎ ((k : ℕ) × (n ≡ 2 ^ k) × (na ≡ keys_below nums (suc k)) × (n / 2 < na))

-- The size 2 ^ j would hold no more elements, or they would take no more than half of it.
abbrev pub NoBetter : (ℕ → ℕ) → ℕ → ℕ → Type 0
NoBetter nums na j = (keys_below nums (suc j) ≤ na) ⊎ (keys_below nums (suc j) ≤ 2 ^ j / 2)

-- The loop has counted the slices below the `i`-th.
record Counted (nums : ℕ → ℕ) (i : ℕ) (s : SizeCount) : Type 0 where
  counted : s.a ≡ keys_below nums i
  in_use : InUse nums s.na s.n
  best : (j : ℕ) → j < i → NoBetter nums s.na j

keys_below-le : (nums : ℕ → ℕ) (i j : ℕ) → i ≤ j → keys_below nums i ≤ keys_below nums j
keys_below-le nums zero j h = omega arith
keys_below-le nums (suc i) zero h = absurd (omega arith)
keys_below-le nums (suc i) (suc j) h = elim (Bool-cases (i == j)) [
  | inl e ↦ (let same : i ≡ j = ground arith in rw same (omega arith))
  | inr e ↦ (let ih = keys_below-le nums (suc i) j (ground arith) in omega arith)
]

-- A slice without keys makes no size better than those before.
empty_slice :
    (nums : ℕ → ℕ) (i na : ℕ)
    → nums i ≡ 0
    → ((j : ℕ) → j < i → NoBetter nums na j)
    → NoBetter nums na i
empty_slice nums zero na e best = inl (omega (arith, e))
empty_slice nums (suc i) na e best = elim (best i (omega arith)) [
  | inl h ↦ inl (omega (arith, e, h))
  | inr h ↦ inr (omega (arith, e, h, pow-suc 2 i))
]

extend : (P : ℕ → Type 0) (i : ℕ) → ((j : ℕ) → j < i → P j) → P i → (j : ℕ) → j < suc i → P j
extend P i below at j h = elim (Bool-cases (j == i)) [
  | inl e ↦ (let same : j ≡ i = ground arith in rw same at)
  | inr e ↦ below j (ground arith)
]

count_slice-Counted :
    (nums : ℕ → ℕ) (i : ℕ) (s : SizeCount)
    → Counted nums i s
    → Counted nums (suc i) (count_slice (nums i) (2 ^ i) s)
unfolding count_slice
count_slice-Counted nums i s c = elim (Bool-cases (ltb 0 (nums i))) [
  | inr e ↦ rw e (record {
    counted = ground (arith, c.counted);
    in_use = c.in_use;
    best = extend (NoBetter nums s.na) i c.best (empty_slice nums i s.na (ground arith) c.best);
  })
  | inl e ↦ elim (Bool-cases (ltb (2 ^ i / 2) (s.a + nums i))) [
    | inl more ↦
        rw (e, more)
          (record {
            counted = ap (λ (x : ℕ). x + nums i) c.counted;
            in_use = inr (i, refl, ap (λ (x : ℕ). x + nums i) c.counted, ground arith);
            best = λ j h. inl (
                let le = keys_below-le nums (suc j) (suc i) (omega arith) in
                omega (arith, c.counted, le));
          })
    | inr less ↦
        rw (e, less)
          (record {
            counted = ap (λ (x : ℕ). x + nums i) c.counted;
            in_use = c.in_use;
            best = extend (NoBetter nums s.na) i c.best (inr (ground (arith, c.counted)));
          })
  ]
]

-- What the loop leaves: a size in use such that no other is better.
record Chosen (nums : ℕ → ℕ) (s : SizeCount) : Type 0 where
  chosen_in_use : InUse nums s.na s.n
  chosen_best : (j : ℕ) → NoBetter nums s.na j

half_le : (i j : ℕ) → i ≤ j → 2 ^ i / 2 ≤ 2 ^ j / 2
half_le i j h = let le : 2 ^ i ≤ 2 ^ j = pow-le-pow_right (omega arith) h in omega arith

-- The loop may stop where no later size can be better.
stopped :
    (nums : ℕ → ℕ) (i : ℕ) (s : SizeCount)
    → Counted nums i s
    → ((j : ℕ) → i ≤ j → NoBetter nums s.na j)
    → Chosen nums s
stopped nums i s c late = record {
  chosen_in_use = c.in_use;
  chosen_best = λ j. elim (Bool-cases (ltb j i)) [
    | inl e ↦ c.best j (ground arith)
    | inr e ↦ late j (ground arith)
  ];
}

-- After the last key there is no better size than those counted so far.
all_counted :
    (nums : ℕ → ℕ) (narray i na : ℕ)
    → ((j : ℕ) → keys_below nums j ≤ narray)
    → keys_below nums (suc i) ≡ narray
    → NoBetter nums na i
    → (j : ℕ) → suc i ≤ j
    → NoBetter nums na j
all_counted nums narray i na total e b j h = elim b [
  | inl le ↦ inl (omega (arith, total (suc j), e, le))
  | inr le ↦ inr (omega (arith, total (suc j), e, le, half_le i j (omega arith)))
]

computesizes_loop-Chosen :
    (nums : ℕ → ℕ) (narray fuel i : ℕ) (s : SizeCount)
    → Counted nums i s
    → ((j : ℕ) → keys_below nums j ≤ narray)
    → narray ≤ 2 ^ (i + fuel) / 2
    → Chosen nums (computesizes_loop nums narray fuel i (2 ^ i) s)
unfolding computesizes_loop
computesizes_loop-Chosen nums narray zero i s c total h =
    let e : 2 ^ (i + 0) ≡ 2 ^ i = ap (λ (n : ℕ). 2 ^ n) (omega arith) in
    stopped nums i s c (λ j le. inr (omega (arith, total (suc j), h, e, half_le i j le)))
computesizes_loop-Chosen nums narray (suc fuel) i s c total h =
    let s' = count_slice (nums i) (2 ^ i) s in
    let c' = count_slice-Counted nums i s c in
    elim (Bool-cases (ltb (2 ^ i / 2) narray)) [
      | inr e ↦ rw e (
          stopped nums i s c (λ j le. inr (
            let small : narray ≤ 2 ^ i / 2 = ground arith in
            omega (arith, total (suc j), small, half_le i j le))))
      | inl e ↦ elim (Bool-cases (s'.a == narray)) [
        | inl done ↦
            rw (e, done)
              (let all : keys_below nums (suc i) ≡ narray = sym c'.counted ∙ ground (arith, done) in
                stopped nums (suc i) s' c'
                  (all_counted nums narray i s'.na total all (c'.best i (omega arith))))
        | inr more ↦
            let ahead : 2 ^ (i + suc fuel) ≡ 2 ^ (suc i + fuel) =
              ap (λ (n : ℕ). 2 ^ n) (omega arith) in
            rw (e, more)
              (subst (λ (t : ℕ). Chosen nums (computesizes_loop nums narray fuel (suc i) t s'))
                (pow-suc 2 i)
                (computesizes_loop-Chosen nums narray fuel (suc i) s' c' total
                  (omega (arith, h, ahead))))
      ]
    ]

-- For the counts of at most 2 ^ MAXBITS integer keys by slices, `computesizes` returns a size that is 0
-- or a power of 2 of which the returned number of elements takes more than half, that number is of the
-- keys up to the size, and no power of 2 of which more than half would be taken holds more of the keys.
pub computesizes_optimal :
    (nums : ℕ → ℕ) (narray j : ℕ)
    → ((i : ℕ) → keys_below nums i ≤ narray)
    → narray ≤ 2 ^ maxbits
    → InUse nums (computesizes nums narray).0 (computesizes nums narray).1
      × NoBetter nums (computesizes nums narray).0 j
unfolding computesizes
computesizes_optimal nums narray j total small =
    let start : Counted nums 0 (record { a = 0; na = 0; n = 0 }) = record {
      counted = refl;
      in_use = inl (refl, refl);
      best = λ j h. absurd (omega arith);
    } in
    let chosen =
      computesizes_loop-Chosen nums narray (maxbits + 2) 0 (record { a = 0; na = 0; n = 0 }) start
        total (omega arith) in
    (chosen.chosen_in_use, chosen.chosen_best j)
