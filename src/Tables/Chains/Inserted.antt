-- ===== src/Tables/Chains/Inserted.antt =====
-- A free position that is linked in behind another one.
use gafq.Prelude.{ℕ, ◌≡◌, ◌≢◌, sym, ◌∙◌, ap, ◌⊎◌, inl, inr, Option, none, some, List, [], ◌∷◌}
use gafq.Prelude.Distinct.{NotIn}
use mathlib.Core.Path.{subst}
use gafq.Tables.Chains.{
  same_or, some_inj, none-some, Chain, Leads, here, step, NotIn-Chain, Chain-tail,
}

-- `g` is `f` with `n`, to which nothing linked, between `mp` and what came behind it.
pub record Inserted (f g : ℕ → Option ℕ) (mp n : ℕ) : Type 0 where
  pub apart : n ≢ mp
  pub free : f n ≡ none
  pub unlinked : (a : ℕ) → f a ≢ some n
  pub at_new : g n ≡ f mp
  pub at_main : g mp ≡ some n
  pub other : (a : ℕ) → a ≢ mp → a ≢ n → g a ≡ f a

module _ (f g : ℕ → Option ℕ) (mp n : ℕ) (u : Inserted f g mp n) where
  pub Leads-Inserted : {b a : ℕ} → Leads f b a → Leads g b a
  Leads-Inserted here = here
  Leads-Inserted (step {a} {c} e r) = elim (same_or a mp) [
    | inl same ↦
        let e' : f mp ≡ some c = rw same at e in
        rw same (step u.at_main (step (u.at_new ∙ e') (Leads-Inserted r)))
    | inr differs ↦ elim (same_or a n) [
      | inl new ↦ absurd (none-some u.free (rw new at e))
      | inr old ↦ step (u.other a differs old ∙ e) (Leads-Inserted r)
    ]
  ]

  Chain-old :
      (o : Option ℕ) (ps : List ℕ) → Chain f o ps → NotIn n ps → (qs : List ℕ) × Chain g o qs
  Chain-old o [] h out = ([], h)
  Chain-old o (p ∷ ps) h out =
      let (qs, rest) = Chain-old (f p) ps h.1 out.1 in
      elim (same_or p mp) [
        | inl same ↦ (
          p ∷ n ∷ qs,
          (h.0, (rw same u.at_main, rw u.at_new (subst (λ x. Chain g (f x) qs) same rest))),
        )
        | inr differs ↦ (p ∷ qs, (h.0, rw (u.other p differs (λ e. out.0 (sym e))) rest))
      ]

  pub Chain-Inserted :
      (all : (a : ℕ) → (ps : List ℕ) × Chain f (some a) ps)
      → (a : ℕ) → (qs : List ℕ) × Chain g (some a) qs
  Chain-Inserted all a =
      let old : (x : ℕ) → x ≢ n → (qs : List ℕ) × Chain g (some x) qs = λ x differs.
        let (ps, h) = all x in
        Chain-old (some x) ps h
          (NotIn-Chain f n (some x) ps u.unlinked (λ e. differs (some_inj e)) h) in
      elim (same_or a n) [
        | inr differs ↦ old a differs
        | inl same ↦
            let (ps, h) = all mp in
            let (rest, k) = Chain-tail f mp ps h in
            let (qs, k') =
              Chain-old (f mp) rest k (NotIn-Chain f n (f mp) rest u.unlinked (u.unlinked mp) k) in
            (n ∷ qs, (ap (λ (x : ℕ). some x) same, rw u.at_new k'))
      ]

  -- Where a new link comes from.
  pub link_origin :
      (a c : ℕ)
      → g a ≡ some c
      → ((a ≡ mp) × (c ≡ n)) ⊎ (((a ≡ n) × (f mp ≡ some c)) ⊎ ((a ≢ mp) × (f a ≡ some c)))
  link_origin a c e = elim (same_or a mp) [
    | inl same ↦ inl (same, sym (some_inj (sym u.at_main ∙ rw same at e)))
    | inr differs ↦ elim (same_or a n) [
      | inl new ↦ inr (inl (new, sym u.at_new ∙ rw new at e))
      | inr old ↦ inr (inr (differs, sym (u.other a differs old) ∙ e))
    ]
  ]

  not_new : (a c : ℕ) → c ≡ n → f a ≢ some c
  not_new a c new e = u.unlinked a (rw new at e)

  pub injective-Inserted :
      ((a b c : ℕ) → f a ≡ some c → f b ≡ some c → a ≡ b)
      → (a b c : ℕ) → g a ≡ some c
      → g b ≡ some c
      → a ≡ b
  injective-Inserted inj a b c ea eb = elim (link_origin a c ea) [
    | inl x ↦ elim (link_origin b c eb) [
      | inl y ↦ x.0 ∙ sym y.0
      | inr (inl y) ↦ absurd (not_new mp c x.1 y.1)
      | inr (inr y) ↦ absurd (not_new b c x.1 y.1)
    ]
    | inr (inl x) ↦ elim (link_origin b c eb) [
      | inl y ↦ absurd (not_new mp c y.1 x.1)
      | inr (inl y) ↦ x.0 ∙ sym y.0
      | inr (inr y) ↦ absurd (y.0 (inj b mp c y.1 x.1))
    ]
    | inr (inr x) ↦ elim (link_origin b c eb) [
      | inl y ↦ absurd (not_new a c y.1 x.1)
      | inr (inl y) ↦ absurd (x.0 (inj a mp c x.1 y.1))
      | inr (inr y) ↦ inj a b c x.1 y.1
    ]
  ]
