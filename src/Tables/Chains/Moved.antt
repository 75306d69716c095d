-- ===== src/Tables/Chains/Moved.antt =====
-- A position whose place in its chain another one takes.
use gafq.Prelude.{
  ℕ, ◌≡◌, ◌≢◌, refl, sym, ◌∙◌, ap, ◌⊎◌, inl, inr, true, false, ◌==◌, if◌then◌else◌, Option, none,
  some, List, [], ◌∷◌, map, arith,
}
use gafq.Prelude.Distinct.{NotIn}
use mathlib.Core.Path.{subst}
use gafq.Tables.Chains.{
  same_or, some_inj, none-some, Chain, Leads, here, step, no_loop, Chain-tail, NotIn-Chain,
  Option-cases,
}

-- `g` is `f` with the free position `n` in place of `mp`, behind `prev`; `mp` has become an end.
pub record Moved (f g : ℕ → Option ℕ) (prev mp n : ℕ) : Type 0 where
  pub apart : n ≢ mp
  pub free : f n ≡ none
  pub unlinked : (a : ℕ) → f a ≢ some n
  pub before : f prev ≡ some mp
  pub at_prev : g prev ≡ some n
  pub at_new : g n ≡ f mp
  pub at_main : g mp ≡ none
  pub other : (a : ℕ) → a ≢ mp → a ≢ n → a ≢ prev → g a ≡ f a

-- Where an entry is afterwards.
abbrev pub moved : ℕ → ℕ → ℕ → ℕ
moved mp n a = if a == mp then n else a

pub moved_main : (mp n : ℕ) → moved mp n mp ≡ n
moved_main mp n = let e : (mp == mp) ≡ true = ground arith in rw e refl

pub moved_other : (mp n a : ℕ) → a ≢ mp → moved mp n a ≡ a
moved_other mp n a h = let e : (a == mp) ≡ false = ground (arith, h) in rw e refl

abbrev place : (ℕ → ℕ) → Option ℕ → Option ℕ
place m none = none
place m (some p) = some (m p)

module _ (f g : ℕ → Option ℕ) (prev mp n : ℕ) (u : Moved f g prev mp n)
    (inj : (a b c : ℕ) → f a ≡ some c → f b ≡ some c → a ≡ b)
    (all : (a : ℕ) → (ps : List ℕ) × Chain f (some a) ps) where
  not_self : (a c : ℕ) → f a ≡ some c → c ≢ a
  not_self a c e same = let (ps, h) = all a in no_loop f a ps h (rw same at e)

  link_moved : (a c : ℕ) → f a ≡ some c → g (moved mp n a) ≡ some (moved mp n c)
  link_moved a c e = elim (same_or a mp) [
    | inl same ↦
        let e' : f mp ≡ some c = rw same at e in
        rw (same, moved_main mp n, moved_other mp n c (not_self mp c e')) (u.at_new ∙ e')
    | inr differs ↦ rw (moved_other mp n a differs) (elim (same_or c mp) [
      | inl main ↦
          let from : a ≡ prev = inj a prev mp (rw main at e) u.before in
          rw (main, from, moved_main mp n) u.at_prev
      | inr old ↦ rw (moved_other mp n c old) (
          u.other a differs (λ new. none-some u.free (rw new at e))
            (λ from. old (some_inj (sym e ∙ rw (sym from) at u.before)))
          ∙ e)
    ])
  ]

  pub Leads-Moved : {b a : ℕ} → Leads f b a → Leads g (moved mp n b) (moved mp n a)
  Leads-Moved here = here
  Leads-Moved (step {a} {c} e r) = step (link_moved a c e) (Leads-Moved r)

  -- Where a new link comes from.
  pub link_origin :
      (a c : ℕ)
      → g a ≡ some c
      → ((a ≡ prev) × (c ≡ n))
        ⊎ (((a ≡ n) × (f mp ≡ some c)) ⊎ ((a ≢ mp) × (c ≢ mp) × (f a ≡ some c)))
  link_origin a c e = elim (same_or a mp) [
    | inl same ↦ absurd (none-some u.at_main (rw same at e))
    | inr main ↦ elim (same_or a n) [
      | inl new ↦ inr (inl (new, sym u.at_new ∙ rw new at e))
      | inr old ↦ elim (same_or a prev) [
        | inl from ↦ inl (from, sym (some_inj (sym u.at_prev ∙ rw from at e)))
        | inr differs ↦
            let e' = sym (u.other a main old differs) ∙ e in
            inr (inr (main, (λ at_mp. differs (inj a prev mp (rw at_mp at e') u.before)), e'))
      ]
    ]
  ]

  not_new : (a c : ℕ) → c ≡ n → f a ≢ some c
  not_new a c new e = u.unlinked a (rw new at e)

  pub injective-Moved : (a b c : ℕ) → g a ≡ some c → g b ≡ some c → a ≡ b
  injective-Moved a b c ea eb = elim (link_origin a c ea) [
    | inl x ↦ elim (link_origin b c eb) [
      | inl y ↦ x.0 ∙ sym y.0
      | inr (inl y) ↦ absurd (not_new mp c x.1 y.1)
      | inr (inr y) ↦ absurd (not_new b c x.1 y.2)
    ]
    | inr (inl x) ↦ elim (link_origin b c eb) [
      | inl y ↦ absurd (not_new mp c y.1 x.1)
      | inr (inl y) ↦ x.0 ∙ sym y.0
      | inr (inr y) ↦ absurd (y.0 (inj b mp c y.2 x.1))
    ]
    | inr (inr x) ↦ elim (link_origin b c eb) [
      | inl y ↦ absurd (not_new a c y.1 x.2)
      | inr (inl y) ↦ absurd (x.0 (inj a mp c x.2 y.1))
      | inr (inr y) ↦ inj a b c x.2 y.2
    ]
  ]

  moved_link : (p : ℕ) → p ≢ n → g (moved mp n p) ≡ place (moved mp n) (f p)
  moved_link p old = elim (Option-cases (f p)) [
    | inr x ↦ rw x.1 (link_moved p x.0 x.1)
    | inl e ↦ rw e (elim (same_or p mp) [
      | inl same ↦ rw (same, moved_main mp n) (u.at_new ∙ rw same at e)
      | inr main ↦
          rw (moved_other mp n p main)
            (u.other p main old (λ from. none-some {a = mp} e (rw from u.before)) ∙ e)
    ])
  ]

  Chain-map :
      (o : Option ℕ) (ps : List ℕ)
      → Chain f o ps
      → NotIn n ps
      → Chain g (place (moved mp n) o) (map (moved mp n) ps)
  Chain-map o [] h out = rw h refl
  Chain-map o (p ∷ ps) h out = (
    rw h.0 refl,
    subst (λ x. Chain g x (map (moved mp n) ps)) (sym (moved_link p (λ e. out.0 (sym e))))
        (Chain-map (f p) ps h.1 out.1),
  )

  behind_main : place (moved mp n) (f mp) ≡ f mp
  behind_main = elim (Option-cases (f mp)) [
    | inl e ↦ rw e refl
    | inr x ↦ rw x.1 (ap (λ (y : ℕ). some y) (moved_other mp n x.0 (not_self mp x.0 x.1)))
  ]

  pub Chain-Moved : (a : ℕ) → (qs : List ℕ) × Chain g (some a) qs
  Chain-Moved a = elim (same_or a mp) [
    | inl same ↦ (mp ∷ [], (ap (λ (x : ℕ). some x) same, u.at_main))
    | inr main ↦ elim (same_or a n) [
      | inl new ↦
          let (ps, h) = all mp in
          let (rest, k) = Chain-tail f mp ps h in
          let k' =
            Chain-map (f mp) rest k (NotIn-Chain f n (f mp) rest u.unlinked (u.unlinked mp) k) in
          (
            n ∷ map (moved mp n) rest,
            (ap (λ (x : ℕ). some x) new, rw u.at_new (rw behind_main at k')),
          )
      | inr old ↦
          let (ps, h) = all a in
          let k =
            Chain-map (some a) ps h
              (NotIn-Chain f n (some a) ps u.unlinked (λ e. old (some_inj e)) h) in
          (map (moved mp n) ps, rw (moved_other mp n a main) at k)
    ]
  ]
