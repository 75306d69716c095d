-- ===== src/Tables/Linked.antt =====
-- The well-formedness of the node array (gtable.c): from the main position of every key its chain leads
-- to the key's node; what a search along a chain finds then.
use gafq.Prelude.{
  ℕ, zero, suc, ◌≤◌, ◌<◌, ◌≡◌, ◌≢◌, refl, sym, ◌∙◌, ap, ◌⊎◌, inl, inr, Bool, true, false, Option,
  none, some, List, [], ◌∷◌, length, ◌==◌, Bool-cases, arith,
}
use gafq.Tables.Values.{Value, Node, ttisnil}
use gafq.Tables.Slots.{search, find_prev}
use gafq.Tables.Chains.{some_inj, none-some, Option-cases, Chain, Leads, here, step}

first_step :
    (f : ℕ → Option ℕ) (b a : ℕ) → Leads f b a → (a ≡ b) ⊎ ((c : ℕ) × (f a ≡ some c) × Leads f b c)
first_step f b a here = inl refl
first_step f b a (step {c = c} e r) = inr (c, e, r)

module _ {N : Type 0} where
  true-false : (k : Value N) (test : Value N → Bool) → test k ≡ true → test k ≢ false
  true-false k test t f = let no : true ≡ false = sym t ∙ f in cc

  abbrev pub links : (ℕ → Node N) → ℕ → Option ℕ
  links node i = (node i).next

  abbrev pub IsUsed : (ℕ → Node N) → ℕ → Type 0
  IsUsed node i = ttisnil (node i).i_key ≡ false

  -- `main` and `eq` are the main position of a key in an array of this size, and the equality of keys.
  pub record Linked (size : ℕ) (main : Value N → ℕ) (eq : Value N → Value N → Bool)
      (node : ℕ → Node N) : Type 0 where
    -- A node without a key is in no chain, and none lies beyond the array.
    pub free :
        (i : ℕ)
        → ttisnil (node i).i_key ≡ true
        → ((node i).next ≡ none) × (ttisnil (node i).i_val ≡ true)
    pub inside : (i : ℕ) → IsUsed node i → i < size
    pub target : (a b : ℕ) → (node a).next ≡ some b → IsUsed node b
    -- Chains have an end, and do not join.
    pub ends : (a : ℕ) → (ps : List ℕ) × Chain (links node) (some a) ps
    pub apart : (a b p : ℕ) → (node a).next ≡ some p → (node b).next ≡ some p → a ≡ b
    -- The chain of a key's main position leads to it; that position has one of the keys that belong there.
    pub home : (i : ℕ) → IsUsed node i → Leads (links node) i (main (node i).i_key)
    pub owner :
        (i : ℕ)
        → IsUsed node i
        → IsUsed node (main (node i).i_key)
          × (main (node (main (node i).i_key)).i_key ≡ main (node i).i_key)
    -- The keys are different from each other, and are keys.
    pub single :
        (i j : ℕ) → IsUsed node i → IsUsed node j → eq (node i).i_key (node j).i_key ≡ true → i ≡ j
    pub valid : (i : ℕ) → IsUsed node i → eq (node i).i_key (node i).i_key ≡ true

  pub search-none :
      (node : ℕ → Node N) (test : Value N → Bool) (fuel a : ℕ)
      → ((i : ℕ) → test (node i).i_key ≡ false)
      → search node test fuel a ≡ none
  unfolding search
  search-none node test zero a none_pass = refl
  search-none node test (suc fuel) a none_pass =
      rw (none_pass a) (elim (Option-cases (node a).next) [
        | inl e ↦ rw e refl
        | inr x ↦ rw x.1 (search-none node test fuel x.0 none_pass)
      ])

  pub search-some :
      (node : ℕ → Node N) (test : Value N → Bool) (fuel a j : ℕ)
      → search node test fuel a ≡ some j
      → test (node j).i_key ≡ true
  unfolding search
  search-some node test zero a j e = absurd (none-some refl e)
  search-some node test (suc fuel) a j e = elim (Bool-cases (test (node a).i_key)) [
    | inl pass ↦ let same = some_inj (rw pass at e) in rw (sym same) pass
    | inr fail ↦ elim (Option-cases (node a).next) [
      | inl end ↦ absurd (none-some refl (rw (fail, end) at e))
      | inr x ↦ search-some node test fuel x.0 j (rw (fail, x.1) at e)
    ]
  ]

  -- A search that has fuel for the chain finds the node whose key alone passes.
  pub search-Leads :
      (node : ℕ → Node N) (test : Value N → Bool) (j fuel a : ℕ) (ps : List ℕ)
      → test (node j).i_key ≡ true
      → ((i : ℕ) → test (node i).i_key ≡ true → i ≡ j)
      → Leads (links node) j a
      → Chain (links node) (some a) ps
      → length ps ≤ fuel
      → search node test fuel a ≡ some j
  unfolding search
  search-Leads node test j fuel a [] pass only r h fit = absurd (none-some h refl)
  search-Leads node test j zero a (p ∷ ps) pass only r h fit = absurd (omega arith)
  search-Leads node test j (suc fuel) a (p ∷ ps) pass only r h fit =
      elim (Bool-cases (test (node a).i_key)) [
        | inl t ↦ rw t (ap (λ (x : ℕ). some x) (only a t))
        | inr fail ↦ elim (first_step (links node) j a r) [
          | inl at_j ↦ absurd (true-false (node j).i_key test pass (rw at_j at fail))
          | inr x ↦
              let rest : Chain (links node) (some x.0) ps = rw (sym (some_inj h.0), x.1) at h.1 in
              rw (fail, x.1) (search-Leads node test j fuel x.0 ps pass only x.2 rest (omega arith))
        ]
      ]

  pub find_prev-Leads :
      (node : ℕ → Node N) (mp fuel a : ℕ) (ps : List ℕ)
      → a ≢ mp
      → Leads (links node) mp a
      → Chain (links node) (some a) ps
      → length ps ≤ fuel
      → (node (find_prev node mp fuel a)).next ≡ some mp
  unfolding find_prev
  find_prev-Leads node mp fuel a [] differs r h fit = absurd (none-some h refl)
  find_prev-Leads node mp zero a (p ∷ ps) differs r h fit = absurd (omega arith)
  find_prev-Leads node mp (suc fuel) a (p ∷ ps) differs r h fit =
      elim (first_step (links node) mp a r) [
        | inl at_mp ↦ absurd (differs at_mp)
        | inr x ↦
            let rest : Chain (links node) (some x.0) ps = rw (sym (some_inj h.0), x.1) at h.1 in
            elim (Bool-cases (x.0 == mp)) [
              | inl e ↦
                  let same : x.0 ≡ mp = ground arith in
                  rw (x.1, e) (x.1 ∙ ap (λ (y : ℕ). some y) same)
              | inr e ↦
                  rw (x.1, e)
                    (find_prev-Leads node mp fuel x.0 ps (λ same. ground arith) x.2 rest
                      (omega arith))
            ]
      ]
