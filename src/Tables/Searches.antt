-- ===== src/Tables/Searches.antt =====
-- The loops of `gafqH_getn` (gtable.c) end, and the searches at a boundary.
use gafq.Prelude.{
  ℕ, zero, suc, ◌+◌, ◌-◌, ◌*◌, ◌/◌, ◌^◌, ◌≤◌, ◌<◌, ◌≡◌, ◌⊎◌, inl, inr, refl, sym, ◌∙◌, ap, Bool,
  true, false, none, some, if◌then◌else◌, ltb, Bool-cases, arith,
}
use mathlib.Core.Path.{subst}
use native.Mathlib.Nat.{pow-suc}
use gafq.Mem.{max_int}
use gafq.Tables.Chains.{same_or}
use gafq.Tables.Length.{binary_search, linear_search, double_search}

-- `n` is 0 or present, and the next index is absent.
abbrev pub IsBoundary : (ℕ → Bool) → ℕ → Type 0
IsBoundary present n = ((n ≡ 0) ⊎ (present n ≡ true)) × (present (n + 1) ≡ false)

some_pair : {p q : ℕ × ℕ} → some p ≡ some q → p ≡ q
some_pair e = cc

doubled : (j fuel : ℕ) → max_int < j * 2 ^ suc (suc fuel) → max_int < j * 2 * 2 ^ suc fuel
doubled j fuel h =
    let twice : j * 2 ^ suc (suc fuel) ≡ j * 2 * 2 ^ suc fuel =
      omega (arith, ap (λ (x : ℕ). j * x) (pow-suc 2 (suc fuel))) in
    subst (λ (x : ℕ). max_int < x) twice h

plus_minus : (i : ℕ) → i ≡ i + 1 - 1
plus_minus i = omega arith

module _ (present : ℕ → Bool) where
  pub binary_search-IsBoundary :
      (fuel i j : ℕ)
      → (i ≡ 0) ⊎ (present i ≡ true)
      → present j ≡ false
      → i < j
      → j ≤ i + fuel
      → IsBoundary present (binary_search present fuel i j) × (binary_search present fuel i j < j)
  unfolding binary_search
  binary_search-IsBoundary zero i j low high apart fit = absurd (omega arith)
  binary_search-IsBoundary (suc fuel) i j low high apart fit = elim (Bool-cases (ltb 1 (j - i))) [
    | inr near ↦
        rw near ((low, subst (λ (x : ℕ). present x ≡ false) (next_to i j apart near) high), apart)
    | inl far ↦
        let h = far_apart i j far in
        elim (Bool-cases (present ((i + j) / 2))) [
          | inl e ↦
              rw (far, e)
                (binary_search-IsBoundary fuel ((i + j) / 2) j (inr e) high (omega (arith, h))
                  (omega (arith, h)))
          | inr e ↦
              let found =
                binary_search-IsBoundary fuel i ((i + j) / 2) low e (omega (arith, h))
                  (omega (arith, h)) in
              rw (far, e) (found.0, omega (arith, found.1, h))
        ]
  ]
    where
      next_to : (i j : ℕ) → i < j → ltb 1 (j - i) ≡ false → j ≡ i + 1
      next_to i j apart near = ground arith

      far_apart : (i j : ℕ) → ltb 1 (j - i) ≡ true → i + 1 < j
      far_apart i j far = ground arith

  before_end : (i : ℕ) → (i ≡ 1) ⊎ (present (i - 1) ≡ true) → (i - 1 ≡ 0) ⊎ (present (i - 1) ≡ true)
  before_end i (inl e) = inl (omega (arith, e))
  before_end i (inr e) = inr e

  later_end : (i k : ℕ) → present i ≡ true → i ≤ k → present k ≡ false → i + 1 ≤ k
  later_end i k here h there = elim (same_or i k) [
    | inl same ↦ let clash : true ≡ false = sym here ∙ ap present same ∙ there in cc
    | inr other ↦ omega (arith, other)
  ]

  -- The search from 1 on ends at the first absent index, if there is one in reach.
  pub linear_search-IsBoundary :
      (fuel i : ℕ)
      → 0 < i
      → (i ≡ 1) ⊎ (present (i - 1) ≡ true)
      → ((k : ℕ) × (i ≤ k) × (k < i + fuel) × (present k ≡ false))
      → IsBoundary present (linear_search present fuel i)
  unfolding linear_search
  linear_search-IsBoundary zero i above before end = absurd (omega (arith, end.1, end.2))
  linear_search-IsBoundary (suc fuel) i above before end = elim (Bool-cases (present i)) [
    | inr e ↦
        let back : i ≡ i - 1 + 1 = omega arith in
        rw e (before_end i before, subst (λ (x : ℕ). present x ≡ false) back e)
    | inl e ↦ rw e (
        linear_search-IsBoundary fuel (i + 1) (omega arith)
          (inr (subst (λ (x : ℕ). present x ≡ true) (plus_minus i) e))
          (end.0, later_end i end.0 e end.1 end.3, omega (arith, end.2), end.3))
  ]

  pub double_search-some :
      (fuel i j : ℕ) (r : ℕ × ℕ)
      → (i ≡ 0) ⊎ (present i ≡ true)
      → i < j
      → double_search present fuel i j ≡ some r
      → ((r.0 ≡ 0) ⊎ (present r.0 ≡ true)) × (r.0 < r.1) × (present r.1 ≡ false)
  unfolding double_search
  double_search-some zero i j r low apart e = cc
  double_search-some (suc fuel) i j r low apart e = elim (Bool-cases (present j)) [
    | inr out ↦
        let same : (i, j) ≡ r = some_pair (rw out at e) in
        subst (λ q. ((q.0 ≡ 0) ⊎ (present q.0 ≡ true)) × (q.0 < q.1) × (present q.1 ≡ false)) same
          (low, apart, out)
    | inl here ↦ elim (Bool-cases (ltb max_int (j * 2))) [
      | inl over ↦ let clash = rw (here, over) at e in cc
      | inr fits ↦
          double_search-some fuel j (j * 2) r (inr here) (omega arith) (rw (here, fits) at e)
    ]
  ]

  -- More rounds than it takes to pass `MAX_INT` by doubling change nothing.
  double_search-fuel :
      (fuel more i j : ℕ)
      → max_int < j * 2 ^ suc fuel
      → double_search present (suc fuel) i j ≡ double_search present (suc (fuel + more)) i j
  unfolding double_search
  double_search-fuel zero more i j h = elim (Bool-cases (present j)) [
    | inr out ↦ rw out refl
    | inl here ↦ let over : ltb max_int (j * 2) ≡ true = ground (arith, h) in rw (here, over) refl
  ]
  double_search-fuel (suc fuel) more i j h =
      let more' : suc fuel + more ≡ suc (fuel + more) = omega arith in
      let rest = double_search-fuel fuel more j (j * 2) (doubled j fuel h) in
      ap (λ o. if present j then (if ltb max_int (j * 2) then none else o) else some (i, j))
        (rest ∙ ap (λ (x : ℕ). double_search present x j (j * 2)) (sym more'))

pub either-IsBoundary :
    (present : ℕ → Bool) (b : Bool) (m n : ℕ)
    → (b ≡ true → IsBoundary present m)
    → (b ≡ false → IsBoundary present n)
    → IsBoundary present (if b then m else n)
either-IsBoundary present true m n f g = f refl
either-IsBoundary present false m n f g = g refl
