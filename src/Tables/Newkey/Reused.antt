-- ===== src/Tables/Newkey/Reused.antt =====
-- A key whose main position has no value takes that node over, with the links that it has.
use gafq.Prelude.{
  ℕ, ◌≡◌, ◌≢◌, refl, sym, ◌∙◌, inl, inr, Bool, false, true, some, store-other, store-same,
}
use mathlib.Core.Path.{subst, fun_ext}
use gafq.Tables.Values.{Value, Node, ttisnil}
use gafq.Tables.Slots.{set_key}
use gafq.Tables.Chains.{same_or, Chain, Leads, here}
use gafq.Tables.Linked.{links, IsUsed, Linked}
use gafq.Tables.Placed.{Placed, LawfulKeys}

module _ {N : Type 0} (size : ℕ) (main : Value N → ℕ) (eq : Value N → Value N → Bool)
    (laws : LawfulKeys size main eq) (node : ℕ → Node N) (w : Linked size main eq node)
    (key : Value N) (used_key : ttisnil key ≡ false) where
  new_at : (set_key (main key) key node) (main key) ≡ record (node (main key)) { i_key = key }
  unfolding set_key
  new_at = store-same node (main key) (record (node (main key)) { i_key = key })

  old_at : (i : ℕ) → i ≢ main key → set_key (main key) key node i ≡ node i
  unfolding set_key
  old_at i h = store-other node (main key) i (record (node (main key)) { i_key = key }) h

  same_next : (i : ℕ) → (set_key (main key) key node i).next ≡ (node i).next
  same_next i = elim (same_or i (main key)) [
    | inl e ↦ rw (e, new_at) refl
    | inr h ↦ rw (old_at i h) refl
  ]

  same_links : links node ≡ links (set_key (main key) key node)
  same_links = fun_ext (λ i. sym (same_next i))

  still_used : (i : ℕ) → IsUsed node i → IsUsed (set_key (main key) key node) i
  still_used i used = elim (same_or i (main key)) [
    | inl e ↦ rw (e, new_at) used_key
    | inr h ↦ rw (old_at i h) used
  ]

  no_key : (i : ℕ) → i ≡ main key → ttisnil (set_key (main key) key node i).i_key ≢ true
  no_key i e unused =
      let now : ttisnil key ≡ true = rw (e, new_at) at unused in
      let clash : true ≡ false = sym now ∙ used_key in cc

  pub reused-Placed :
      ttisnil (node (main key)).i_val ≡ true
      → Placed size main node (set_key (main key) key node) (main key) key
  reused-Placed dead = record {
    back = λ i. i;
    kept = λ i used differs. (
      rw (old_at i differs) at used,
      rw (old_at i differs) refl,
      rw (old_at i differs) refl,
      subst (λ f. Leads f i (main (node i).i_key)) same_links
          (w.home i (rw (old_at i differs) at used)),
    );
    once = λ i j ui uj hi hj e. e;
    survives = λ j used. elim (same_or j (main key)) [
      | inl e ↦ inr (rw e dead)
      | inr h ↦ inl (j, still_used j used, h, refl)
    ];
    mains = λ m used e. elim (same_or m (main key)) [
      | inl at ↦ (still_used m used, rw (at, new_at) refl)
      | inr h ↦ (still_used m used, rw (old_at m h) e)
    ];
    stays = still_used;
    new_key = rw new_at refl;
    new_val = rw new_at dead;
    reached = here;
    new_owner = (rw new_at used_key, rw new_at refl);
    free = λ i unused. elim (same_or i (main key)) [
      | inl e ↦ absurd (no_key i e unused)
      | inr h ↦ rw (old_at i h) (w.free i (rw (old_at i h) at unused))
    ];
    inside = λ i used. elim (same_or i (main key)) [
      | inl e ↦ rw e (laws.below key)
      | inr h ↦ w.inside i (rw (old_at i h) at used)
    ];
    target = λ a b e. still_used b (w.target a b (sym (same_next a) ∙ e));
    ends = λ a. let (ps, h) = w.ends a in (ps, subst (λ f. Chain f (some a) ps) same_links h);
    apart = λ a b q ea eb. w.apart a b q (sym (same_next a) ∙ ea) (sym (same_next b) ∙ eb);
  }
