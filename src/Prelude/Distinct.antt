-- ===== src/Prelude/Distinct.antt =====
-- Lists of different numbers, and how long they can be.
use mathlib.Core.Path.{◌≡◌, refl, ap}
use mathlib.Core.Logic.{◌≢◌, inl, inr}
use mathlib.Core.Bool.{true, false}
use mathlib.Core.List.{List, [], ◌∷◌}
use Prim.Native.Nat.{ℕ, zero, suc, ◌≤◌, ◌<◌}
use native.Mathlib.Omega.{arith}
use gafq.Prelude.Tests.{◌==◌, if◌then◌else◌, Bool-cases}
use gafq.Prelude.Lists.{length}

abbrev pub NotIn : ℕ → List ℕ → Type 0
NotIn p [] = Unit
NotIn p (q ∷ qs) = (p ≢ q) × NotIn p qs

abbrev pub Distinct : List ℕ → Type 0
Distinct [] = Unit
Distinct (p ∷ ps) = NotIn p ps × Distinct ps

abbrev pub Below : ℕ → List ℕ → Type 0
Below n [] = Unit
Below n (p ∷ ps) = (p < n) × Below n ps

-- No member of the first list is in the second.
abbrev pub Disjoint : List ℕ → List ℕ → Type 0
Disjoint [] qs = Unit
Disjoint (p ∷ ps) qs = NotIn p qs × Disjoint ps qs

abbrev pub without : ℕ → List ℕ → List ℕ
without n [] = []
without n (p ∷ ps) = let rest = without n ps in if p == n then rest else p ∷ rest

NotIn-without : (p n : ℕ) (ps : List ℕ) → NotIn p ps → NotIn p (without n ps)
NotIn-without p n [] h = tt
NotIn-without p n (q ∷ qs) h =
    elim (q == n) as (λ b. NotIn p (if b then without n qs else q ∷ without n qs)) [
      | true ↦ NotIn-without p n qs h.1
      | false ↦ (h.0, NotIn-without p n qs h.1)
    ]

Distinct-without : (n : ℕ) (ps : List ℕ) → Distinct ps → Distinct (without n ps)
Distinct-without n [] h = tt
Distinct-without n (p ∷ ps) h =
    elim (p == n) as (λ b. Distinct (if b then without n ps else p ∷ without n ps)) [
      | true ↦ Distinct-without n ps h.1
      | false ↦ (NotIn-without p n ps h.0, Distinct-without n ps h.1)
    ]

Below-without : (n : ℕ) (ps : List ℕ) → Below (suc n) ps → Below n (without n ps)
Below-without n [] h = tt
Below-without n (p ∷ ps) h = elim (Bool-cases (p == n)) [
  | inl e ↦ rw e (Below-without n ps h.1)
  | inr e ↦ rw e (ground arith, Below-without n ps h.1)
]

without-NotIn : (n : ℕ) (ps : List ℕ) → NotIn n ps → length (without n ps) ≡ length ps
without-NotIn n [] h = refl
without-NotIn n (p ∷ ps) h =
    let other : (p == n) ≡ false = ground (arith, h.0) in rw other (ap suc (without-NotIn n ps h.1))

length-without : (n : ℕ) (ps : List ℕ) → Distinct ps → length ps ≤ suc (length (without n ps))
length-without n [] h = omega arith
length-without n (p ∷ ps) h = elim (Bool-cases (p == n)) [
  | inl e ↦
      let same : p ≡ n = ground arith in
      rw e (rw (without-NotIn n ps (rw same at h.0)) (omega arith))
  | inr e ↦ rw e (let ih = length-without n ps h.1 in omega arith)
]

-- There are at most `n` different numbers below `n`.
pub length-Distinct : (n : ℕ) (ps : List ℕ) → Distinct ps → Below n ps → length ps ≤ n
length-Distinct n [] d b = omega arith
length-Distinct zero (p ∷ ps) d b = absurd (omega (arith, b.0))
length-Distinct (suc n) (p ∷ ps) d b =
    let ih =
      length-Distinct n (without n (p ∷ ps)) (Distinct-without n (p ∷ ps) d)
        (Below-without n (p ∷ ps) b) in
    let step = length-without n (p ∷ ps) d in omega arith
