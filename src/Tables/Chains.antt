-- ===== src/Tables/Chains.antt =====
-- Chains of positions, each of which links to the next: their lengths, and what is reached along them.
pub mod Inserted
pub mod Moved
use gafq.Prelude.{
  ℕ, zero, suc, ◌+◌, ◌≤◌, ◌<◌, ◌≡◌, ◌≢◌, refl, sym, ◌∙◌, ap, ◌⊎◌, inl, inr, Bool, true, false,
  Option, none, some, List, [], ◌∷◌, length, ◌==◌, Bool-cases, arith,
}
use gafq.Prelude.Distinct.{NotIn, Distinct, Below, length-Distinct}
use mathlib.Core.Path.{subst}

pub same_or : (a b : ℕ) → (a ≡ b) ⊎ (a ≢ b)
same_or a b = elim (Bool-cases (a == b)) [
  | inl e ↦ inl (ground arith)
  | inr e ↦ inr (λ same. ground arith)
]

pub Option-cases {ℓ} : {A : Type ℓ} (x : Option A) → (x ≡ none) ⊎ ((a : A) × (x ≡ some a))
Option-cases none = inl refl
Option-cases (some a) = inr (a, refl)

pub some_inj : {a b : ℕ} → some a ≡ some b → a ≡ b
some_inj e = cc

pub none-some : {x : Option ℕ} {a : ℕ} → x ≡ none → x ≢ some a
none-some e h = let no : none ≡ some _ = sym e ∙ h in cc

-- Along `f`, the place `o` leads through the positions `ps`, in this order, to an end.
abbrev pub Chain : (ℕ → Option ℕ) → Option ℕ → List ℕ → Type 0
Chain f o [] = o ≡ none
Chain f o (p ∷ ps) = (o ≡ some p) × Chain f (f p) ps

-- `b` is reached from the index along `f`.
pub data Leads (f : ℕ → Option ℕ) (b : ℕ) : ℕ → Type 0 where
  here : Leads f b b
  step : {a c : ℕ} → f a ≡ some c → Leads f b c → Leads f b a

module _ (f : ℕ → Option ℕ) where
  pub Chain-unique : (o : Option ℕ) (ps qs : List ℕ) → Chain f o ps → Chain f o qs → ps ≡ qs
  Chain-unique o [] [] h k = refl
  Chain-unique o [] (q ∷ qs) h k = absurd (none-some h k.0)
  Chain-unique o (p ∷ ps) [] h k = absurd (none-some k h.0)
  Chain-unique o (p ∷ ps) (q ∷ qs) h k =
      let same : p ≡ q = some_inj (sym h.0 ∙ k.0) in
      rw same (ap (λ t. q ∷ t) (Chain-unique (f q) ps qs (rw same at h.1) k.1))

  suffix :
      (p : ℕ) (o : Option ℕ) (ps : List ℕ)
      → Chain f o ps
      → NotIn p ps ⊎ ((qs : List ℕ) × Chain f (some p) qs × (length qs ≤ length ps))
  suffix p o [] h = inl tt
  suffix p o (q ∷ qs) h = elim (same_or p q) [
    | inl e ↦ inr (q ∷ qs, (ap (λ (x : ℕ). some x) e, h.1), omega arith)
    | inr e ↦ elim (suffix p (f q) qs h.1) [
      | inl out ↦ inl (e, out)
      | inr x ↦ inr (x.0, x.1, omega (arith, x.2))
    ]
  ]

  Chain-NotIn : (p : ℕ) (ps : List ℕ) → Chain f (f p) ps → NotIn p ps
  Chain-NotIn p ps h = elim (suffix p (f p) ps h) [
    | inl out ↦ out
    | inr x ↦
        let e = Chain-unique (some p) x.0 (p ∷ ps) x.1 (refl, h) in
        absurd (omega (arith, ap length e, x.2))
  ]

  pub Chain-Distinct : (o : Option ℕ) (ps : List ℕ) → Chain f o ps → Distinct ps
  Chain-Distinct o [] h = tt
  Chain-Distinct o (p ∷ ps) h = (Chain-NotIn p ps h.1, Chain-Distinct (f p) ps h.1)

  -- The links stay below `n`.
  Chain-Below :
      (n : ℕ) (o : Option ℕ) (ps : List ℕ)
      → ((a c : ℕ) → f a ≡ some c → c < n)
      → ((p : ℕ) → o ≡ some p → p < n)
      → Chain f o ps
      → Below n ps
  Chain-Below n o [] all first h = tt
  Chain-Below n o (p ∷ ps) all first h = (first p h.0, Chain-Below n (f p) ps all (all p) h.1)

  pub length-Chain :
      (n p : ℕ) (ps : List ℕ)
      → ((a c : ℕ) → f a ≡ some c → c < n)
      → p < n
      → Chain f (some p) ps
      → length ps ≤ n
  length-Chain n p ps all first h =
      length-Distinct n ps (Chain-Distinct (some p) ps h)
        (Chain-Below n (some p) ps all (λ q e. subst (λ (x : ℕ). x < n) (some_inj e) first) h)

  -- A position is not its own next.
  pub no_loop : (p : ℕ) (ps : List ℕ) → Chain f (some p) ps → f p ≢ some p
  no_loop p [] h e = absurd (none-some h refl)
  no_loop p (q ∷ qs) h e =
      let same : p ≡ q = some_inj h.0 in
      let k : Chain f (some p) qs = rw (sym same, e) at h.1 in
      let lists = Chain-unique (some p) qs (q ∷ qs) k h in omega (arith, ap length lists)

  -- What no position links to is in no chain that starts elsewhere.
  pub NotIn-Chain :
      (n : ℕ) (o : Option ℕ) (ps : List ℕ)
      → ((a : ℕ) → f a ≢ some n)
      → o ≢ some n
      → Chain f o ps
      → NotIn n ps
  NotIn-Chain n o [] none_to first h = tt
  NotIn-Chain n o (p ∷ ps) none_to first h = (
    λ e. first (h.0 ∙ ap (λ (x : ℕ). some x) (sym e)),
    NotIn-Chain n (f p) ps none_to (none_to p) h.1,
  )

  pub Chain-tail : (a : ℕ) (ps : List ℕ) → Chain f (some a) ps → (qs : List ℕ) × Chain f (f a) qs
  Chain-tail a [] h = absurd (none-some h refl)
  Chain-tail a (p ∷ ps) h = (ps, rw (some_inj h.0) h.1)
