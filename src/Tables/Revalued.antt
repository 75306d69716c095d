-- ===== src/Tables/Revalued.antt =====
-- A write of a value to the node of a key (gtable.c) changes neither keys nor links.
use gafq.Prelude.{
  ℕ, zero, suc, ◌≡◌, ◌≢◌, refl, sym, ◌∙◌, ap, inl, inr, Bool, true, false, some, if◌then◌else◌,
  store, store-other, store-same,
}
use mathlib.Core.Path.{subst, fun_ext}
use gafq.Tables.Values.{Value, Node, ttisnil}
use gafq.Tables.Slots.{search}
use gafq.Tables.Chains.{same_or, Option-cases, Chain, Leads}
use gafq.Tables.Linked.{links, IsUsed, Linked}

module _ {N : Type 0} (node : ℕ → Node N) (j : ℕ) (v : Value N) where
  abbrev pub revalued : ℕ → Node N
  revalued = store node j (record (node j) { i_val = v })

  pub same_key : (i : ℕ) → (revalued i).i_key ≡ (node i).i_key
  same_key i = elim (same_or i j) [
    | inl e ↦ rw (e, store-same node j (record (node j) { i_val = v })) refl
    | inr h ↦ ap (λ (x : Node N). x.i_key) (store-other node j i (record (node j) { i_val = v }) h)
  ]

  same_next : (i : ℕ) → (revalued i).next ≡ (node i).next
  same_next i = elim (same_or i j) [
    | inl e ↦ rw (e, store-same node j (record (node j) { i_val = v })) refl
    | inr h ↦ ap (λ (x : Node N). x.next) (store-other node j i (record (node j) { i_val = v }) h)
  ]

  pub new_val : (revalued j).i_val ≡ v
  new_val = ap (λ (x : Node N). x.i_val) (store-same node j (record (node j) { i_val = v }))

  pub old_val : (i : ℕ) → i ≢ j → (revalued i).i_val ≡ (node i).i_val
  old_val i h =
      ap (λ (x : Node N). x.i_val) (store-other node j i (record (node j) { i_val = v }) h)

  same_links : links node ≡ links revalued
  same_links = fun_ext (λ i. sym (same_next i))

  pub search-revalued :
      (test : Value N → Bool) (fuel a : ℕ) → search revalued test fuel a ≡ search node test fuel a
  unfolding search
  search-revalued test zero a = refl
  search-revalued test (suc fuel) a = elim (Option-cases (node a).next) [
    | inl e ↦ rw (same_key a, same_next a, e) refl
    | inr x ↦
        rw (same_key a, same_next a, x.1)
          (ap (λ o. if test (node a).i_key then some a else o) (search-revalued test fuel x.0))
  ]

  pub revalued-Linked :
      (size : ℕ) (main : Value N → ℕ) (eq : Value N → Value N → Bool)
      → Linked size main eq node
      → IsUsed node j
      → Linked size main eq revalued
  revalued-Linked size main eq w used = record {
    free = λ i empty.
        let h : i ≢ j =
          λ e. (let clash : true ≡ false = sym (rw (same_key i) at empty) ∙ rw e used in cc) in
        let w' = w.free i (rw (same_key i) at empty) in
        (same_next i ∙ w'.0, ap ttisnil (old_val i h) ∙ w'.1);
    inside = λ i u. w.inside i (rw (same_key i) at u);
    target = λ a b e. rw (same_key b) (w.target a b (sym (same_next a) ∙ e));
    ends = λ a. let (ps, h) = w.ends a in (ps, subst (λ f. Chain f (some a) ps) same_links h);
    apart = λ a b q ea eb. w.apart a b q (sym (same_next a) ∙ ea) (sym (same_next b) ∙ eb);
    home = λ i u.
        rw (same_key i) (
          subst (λ f. Leads f i (main (node i).i_key)) same_links
            (w.home i (rw (same_key i) at u)));
    owner = λ i u.
        let o = w.owner i (rw (same_key i) at u) in
        rw (same_key i, same_key (main (node i).i_key)) o;
    single = λ i k ui uk e.
        w.single i k (rw (same_key i) at ui) (rw (same_key k) at uk)
          (rw (same_key i, same_key k) at e);
    valid = λ i u. rw (same_key i) (w.valid i (rw (same_key i) at u));
  }
