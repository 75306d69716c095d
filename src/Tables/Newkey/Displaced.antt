-- ===== src/Tables/Newkey/Displaced.antt =====
-- A key whose main position has a key of another chain takes that node over; what was there moves to a
-- free node, and the chain goes through that one.
use gafq.Prelude.{
  ℕ, ◌<◌, ◌≡◌, ◌≢◌, refl, sym, ◌∙◌, ap, inl, inr, Bool, false, true, none, some, store-other,
  store-same, store,
}
use gafq.Tables.Values.{Value, nil, Node, ttisnil}
use gafq.Tables.Slots.{set_key, move_colliding}
use gafq.Tables.Chains.{same_or, none-some, Leads, here, no_loop}
use gafq.Tables.Chains.Moved.{
  Moved, moved, moved_main, moved_other, Leads-Moved, Chain-Moved, injective-Moved, link_origin,
}
use gafq.Tables.Linked.{links, IsUsed, Linked}
use gafq.Tables.Placed.{Placed, LawfulKeys}

module _ {N : Type 0} (size : ℕ) (main : Value N → ℕ) (eq : Value N → Value N → Bool)
    (laws : LawfulKeys size main eq) (node : ℕ → Node N) (w : Linked size main eq node)
    (key : Value N) (used_key : ttisnil key ≡ false) (n prev : ℕ) (below : n < size)
    (unused : ttisnil (node n).i_key ≡ true) (used : IsUsed node (main key))
    (strange : main (node (main key)).i_key ≢ main key)
    (before : (node prev).next ≡ some (main key)) where
  abbrev displaced : ℕ → Node N
  displaced = set_key (main key) key (move_colliding node prev (main key) n)

  abbrev linked : ℕ → Node N
  linked = store node prev (record (node prev) { next = some n })

  abbrev copied : ℕ → Node N
  copied = store linked n (linked (main key))

  not_used : (i : ℕ) → IsUsed node i → i ≢ n
  not_used i u e = let clash : true ≡ false = sym unused ∙ rw e at u in cc

  prev_new : prev ≢ n
  prev_new e = none-some (w.free n unused).0 (rw e at before)

  prev_main : prev ≢ main key
  prev_main e =
      let (ps, h) = w.ends (main key) in no_loop (links node) (main key) ps h (rw e at before)

  main_at :
      displaced (main key) ≡ record (node (main key)) { next = none; i_val = nil; i_key = key }
  unfolding set_key move_colliding
  main_at =
      store-same (move_colliding node prev (main key) n) (main key)
        (record (move_colliding node prev (main key) n (main key)) { i_key = key })
      ∙ ap (λ (x : Node N). record x { i_key = key })
          (store-same copied (main key) (record (copied (main key)) { next = none; i_val = nil })
            ∙ ap (λ (x : Node N). record x { next = none; i_val = nil })
                (store-other linked n (main key) (linked (main key)) (not_used (main key) used)
                  ∙ store-other node prev (main key) (record (node prev) { next = some n })
                      (λ e. prev_main (sym e))))

  elsewhere : (i : ℕ) → i ≢ main key → displaced i ≡ copied i
  unfolding set_key move_colliding
  elsewhere i h =
      store-other (move_colliding node prev (main key) n) (main key) i
        (record (move_colliding node prev (main key) n (main key)) { i_key = key }) h
      ∙ store-other copied (main key) i (record (copied (main key)) { next = none; i_val = nil }) h

  new_at : displaced n ≡ node (main key)
  new_at =
      elsewhere n (λ e. not_used (main key) used (sym e))
      ∙ store-same linked n (linked (main key))
      ∙ store-other node prev (main key) (record (node prev) { next = some n })
          (λ e. prev_main (sym e))

  prev_at : displaced prev ≡ record (node prev) { next = some n }
  prev_at =
      elsewhere prev prev_main
      ∙ store-other linked n prev (linked (main key)) prev_new
      ∙ store-same node prev (record (node prev) { next = some n })

  old_at : (i : ℕ) → i ≢ main key → i ≢ n → i ≢ prev → displaced i ≡ node i
  old_at i h k l =
      elsewhere i h
      ∙ store-other linked n i (linked (main key)) k
      ∙ store-other node prev i (record (node prev) { next = some n }) l

  same_key : (i : ℕ) → i ≢ main key → i ≢ n → (displaced i).i_key ≡ (node i).i_key
  same_key i h k = elim (same_or i prev) [
    | inl e ↦ rw (e, prev_at) refl
    | inr l ↦ rw (old_at i h k l) refl
  ]

  same_val : (i : ℕ) → i ≢ main key → i ≢ n → (displaced i).i_val ≡ (node i).i_val
  same_val i h k = elim (same_or i prev) [
    | inl e ↦ rw (e, prev_at) refl
    | inr l ↦ rw (old_at i h k l) refl
  ]

  main_used : IsUsed displaced (main key)
  main_used = rw main_at used_key

  pub new_used : IsUsed displaced n
  new_used = rw new_at used

  still_used : (i : ℕ) → IsUsed node i → IsUsed displaced i
  still_used i u = elim (same_or i (main key)) [
    | inl e ↦ rw e main_used
    | inr h ↦ rw (same_key i h (not_used i u)) u
  ]

  clash : (i : ℕ) → IsUsed displaced i → ttisnil (displaced i).i_key ≢ true
  clash i u e = let no : true ≡ false = sym e ∙ u in cc

  moving : Moved (links node) (links displaced) prev (main key) n
  moving = record {
    apart = λ e. not_used (main key) used (sym e);
    free = (w.free n unused).0;
    unlinked = λ a e. not_used n (w.target a n e) refl;
    before = before;
    at_prev = ap (λ (x : Node N). x.next) prev_at;
    at_new = ap (λ (x : Node N). x.next) new_at;
    at_main = ap (λ (x : Node N). x.next) main_at;
    other = λ a h k l. ap (λ (x : Node N). x.next) (old_at a h k l);
  }

  -- A main position that has one of its own keys is not the one that is taken over.
  not_main : (m : ℕ) → main (node m).i_key ≡ m → m ≢ main key
  not_main m e same = strange (rw same at e)

  leads :
      (i : ℕ) → IsUsed node i → Leads (links displaced) (moved (main key) n i) (main (node i).i_key)
  leads i u =
      rw
        (moved_other (main key) n (main (node i).i_key)
          (not_main (main (node i).i_key) (w.owner i u).1))
        at
        (Leads-Moved (links node) (links displaced) prev (main key) n moving w.apart w.ends
          (w.home i u))

  from_old : (i : ℕ) → i ≢ main key → i ≢ n → IsUsed displaced i → IsUsed node i
  from_old i h k u = rw (same_key i h k) at u

  back_new : (i : ℕ) → i ≡ n → moved n (main key) i ≡ main key
  back_new i e = rw e (moved_main n (main key))

  kept :
      (i : ℕ)
      → IsUsed displaced i
      → i ≢ main key
      → IsUsed node (moved n (main key) i)
        × ((displaced i).i_key ≡ (node (moved n (main key) i)).i_key)
        × ((displaced i).i_val ≡ (node (moved n (main key) i)).i_val)
        × Leads (links displaced) i (main (node (moved n (main key) i)).i_key)
  kept i u h = elim (same_or i n) [
    | inl e ↦
        let at : displaced i ≡ node (main key) = rw e new_at in
        rw (back_new i e) (
          used,
          ap (λ (x : Node N). x.i_key) at,
          ap (λ (x : Node N). x.i_val) at,
          rw e (rw (moved_main (main key) n) at (leads (main key) used)),
        )
    | inr k ↦ rw (moved_other n (main key) i k) (
      from_old i h k u,
      same_key i h k,
      same_val i h k,
      rw (moved_other (main key) n i h) at (leads i (from_old i h k u)),
    )
  ]

  once :
      (i j : ℕ) → i ≢ main key → j ≢ main key → moved n (main key) i ≡ moved n (main key) j → i ≡ j
  once i j hi hj e = elim (same_or i n) [
    | inl at_i ↦ elim (same_or j n) [
      | inl at_j ↦ at_i ∙ sym at_j
      | inr kj ↦ absurd (hj (sym (sym (back_new i at_i) ∙ e ∙ moved_other n (main key) j kj)))
    ]
    | inr ki ↦ elim (same_or j n) [
      | inl at_j ↦ absurd (hi (sym (moved_other n (main key) i ki) ∙ e ∙ back_new j at_j))
      | inr kj ↦ sym (moved_other n (main key) i ki) ∙ e ∙ moved_other n (main key) j kj
    ]
  ]

  free_still :
      (i : ℕ)
      → ttisnil (displaced i).i_key ≡ true
      → ((displaced i).next ≡ none) × (ttisnil (displaced i).i_val ≡ true)
  free_still i empty =
      let h : i ≢ main key = λ e. clash i (rw e main_used) empty in
      let k : i ≢ n = λ e. clash i (rw e new_used) empty in
      let old : ttisnil (node i).i_key ≡ true = rw (same_key i h k) at empty in
      let l : i ≢ prev = λ e. none-some {a = main key} (w.free i old).0 (rw e before) in
      rw (old_at i h k l) (w.free i old)

  pub displaced-Placed : Placed size main node displaced (main key) key
  unfolding ttisnil
  displaced-Placed = record {
    back = moved n (main key);
    kept = kept;
    once = λ i j ui uj hi hj e. once i j hi hj e;
    survives = λ j u. elim (same_or j (main key)) [
      | inl e ↦ inl (
        n,
        new_used,
        (λ same. not_used (main key) used (sym same)),
        moved_main n (main key) ∙ sym e,
      )
      | inr h ↦ inl (j, still_used j u, h, moved_other n (main key) j (not_used j u))
    ];
    mains = λ m u e. (still_used m u, rw (same_key m (not_main m e) (not_used m u)) e);
    stays = still_used;
    new_key = rw main_at refl;
    new_val = rw main_at refl;
    reached = here;
    new_owner = (main_used, rw main_at refl);
    free = free_still;
    inside = λ i u. elim (same_or i (main key)) [
      | inl e ↦ rw e (laws.below key)
      | inr h ↦ elim (same_or i n) [ inl e ↦ rw e below | inr k ↦ w.inside i (from_old i h k u) ]
    ];
    target = λ a b e.
        elim (link_origin (links node) (links displaced) prev (main key) n moving w.apart w.ends a b
          e) [
            | inl x ↦ rw x.1 new_used
            | inr (inl x) ↦ still_used b (w.target (main key) b x.1)
            | inr (inr x) ↦ still_used b (w.target a b x.2)
          ];
    ends = Chain-Moved (links node) (links displaced) prev (main key) n moving w.apart w.ends;
    apart = injective-Moved (links node) (links displaced) prev (main key) n moving w.apart w.ends;
  }
