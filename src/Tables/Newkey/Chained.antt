-- ===== src/Tables/Newkey/Chained.antt =====
-- A key whose main position has a key that belongs there goes to a free node, right behind that position.
use gafq.Prelude.{
  ℕ, ◌<◌, ◌≡◌, ◌≢◌, refl, sym, ◌∙◌, ap, inl, inr, Bool, false, true, some, store-other, store-same,
  store,
}
use gafq.Tables.Values.{Value, Node, ttisnil}
use gafq.Tables.Slots.{set_key, chain_new}
use gafq.Tables.Chains.{same_or, here, step}
use gafq.Tables.Chains.Inserted.{
  Inserted, Leads-Inserted, Chain-Inserted, injective-Inserted, link_origin,
}
use gafq.Tables.Linked.{links, IsUsed, Linked}
use gafq.Tables.Placed.{Placed}

module _ {N : Type 0} (size : ℕ) (main : Value N → ℕ) (eq : Value N → Value N → Bool)
    (node : ℕ → Node N) (w : Linked size main eq node) (key : Value N)
    (used_key : ttisnil key ≡ false) (n : ℕ) (below : n < size)
    (unused : ttisnil (node n).i_key ≡ true) (used : IsUsed node (main key))
    (own : main (node (main key)).i_key ≡ main key) where
  abbrev chained : ℕ → Node N
  chained = set_key n key (chain_new node (main key) n)

  abbrev linked : ℕ → Node N
  linked = store node n (record (node n) { next = (node (main key)).next })

  not_used : (i : ℕ) → IsUsed node i → i ≢ n
  not_used i u e = let clash : true ≡ false = sym unused ∙ rw e at u in cc

  new_at : chained n ≡ record (node n) { next = (node (main key)).next; i_key = key }
  unfolding set_key chain_new
  new_at =
      store-same (chain_new node (main key) n) n
        (record (chain_new node (main key) n n) { i_key = key })
      ∙ ap (λ (x : Node N). record x { i_key = key })
          (store-other linked (main key) n (record (linked (main key)) { next = some n })
              (λ e. not_used (main key) used (sym e))
            ∙ store-same node n (record (node n) { next = (node (main key)).next }))

  main_at : chained (main key) ≡ record (node (main key)) { next = some n }
  unfolding set_key chain_new
  main_at =
      store-other (chain_new node (main key) n) n (main key)
        (record (chain_new node (main key) n n) { i_key = key }) (not_used (main key) used)
      ∙ store-same linked (main key) (record (linked (main key)) { next = some n })
      ∙ ap (λ (x : Node N). record x { next = some n })
          (store-other node n (main key) (record (node n) { next = (node (main key)).next })
            (not_used (main key) used))

  old_at : (i : ℕ) → i ≢ main key → i ≢ n → chained i ≡ node i
  unfolding set_key chain_new
  old_at i h k =
      store-other (chain_new node (main key) n) n i
        (record (chain_new node (main key) n n) { i_key = key }) k
      ∙ store-other linked (main key) i (record (linked (main key)) { next = some n }) h
      ∙ store-other node n i (record (node n) { next = (node (main key)).next }) k

  -- All but the free node keep their keys and values.
  same_key : (i : ℕ) → i ≢ n → (chained i).i_key ≡ (node i).i_key
  same_key i k = elim (same_or i (main key)) [
    | inl e ↦ rw (e, main_at) refl
    | inr h ↦ rw (old_at i h k) refl
  ]

  same_val : (i : ℕ) → i ≢ n → (chained i).i_val ≡ (node i).i_val
  same_val i k = elim (same_or i (main key)) [
    | inl e ↦ rw (e, main_at) refl
    | inr h ↦ rw (old_at i h k) refl
  ]

  still_used : (i : ℕ) → IsUsed node i → IsUsed chained i
  still_used i u = rw (same_key i (not_used i u)) u

  was_used : (i : ℕ) → i ≢ n → IsUsed chained i → IsUsed node i
  was_used i k u = rw (same_key i k) at u

  not_empty : (i : ℕ) → i ≡ n → ttisnil (chained i).i_key ≢ true
  not_empty i e empty =
      let now : ttisnil key ≡ true = rw (e, new_at) at empty in
      let clash : true ≡ false = sym now ∙ used_key in cc

  inserted : Inserted (links node) (links chained) (main key) n
  inserted = record {
    apart = λ e. not_used (main key) used (sym e);
    free = (w.free n unused).0;
    unlinked = λ a e. not_used n (w.target a n e) refl;
    at_new = ap (λ (x : Node N). x.next) new_at;
    at_main = ap (λ (x : Node N). x.next) main_at;
    other = λ a h k. ap (λ (x : Node N). x.next) (old_at a h k);
  }

  pub chained-Placed : Placed size main node chained n key
  chained-Placed = record {
    back = λ i. i;
    kept = λ i u k. (
      was_used i k u,
      same_key i k,
      same_val i k,
      Leads-Inserted (links node) (links chained) (main key) n inserted (w.home i (was_used i k u)),
    );
    once = λ i j ui uj hi hj e. e;
    survives = λ j u. inl (j, still_used j u, not_used j u, refl);
    mains = λ m u e. (still_used m u, rw (same_key m (not_used m u)) e);
    stays = still_used;
    new_key = rw new_at refl;
    new_val = rw new_at (w.free n unused).1;
    reached = step (inserted.at_main) here;
    new_owner =
        (still_used (main key) used, rw (same_key (main key) (not_used (main key) used)) own);
    free = λ i empty. elim (same_or i n) [
      | inl e ↦ absurd (not_empty i e empty)
      | inr k ↦
          let old : ttisnil (node i).i_key ≡ true = rw (same_key i k) at empty in
          let h : i ≢ main key =
            λ e. (let clash : true ≡ false = sym old ∙ rw (sym e) at used in cc) in
          rw (old_at i h k) (w.free i old)
    ];
    inside = λ i u. elim (same_or i n) [ inl e ↦ rw e below | inr k ↦ w.inside i (was_used i k u) ];
    target = λ a b e. elim (link_origin (links node) (links chained) (main key) n inserted a b e) [
      | inl x ↦ rw (x.1, new_at) used_key
      | inr (inl x) ↦ still_used b (w.target (main key) b x.1)
      | inr (inr x) ↦ still_used b (w.target a b x.1)
    ];
    ends = Chain-Inserted (links node) (links chained) (main key) n inserted w.ends;
    apart = injective-Inserted (links node) (links chained) (main key) n inserted w.apart;
  }
