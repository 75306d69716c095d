-- ===== src/Tables/Insert.antt =====
-- `newkey` (gtable.c) keeps tables well-formed and places the key, or finds the node array full.
use gafq.Prelude.{
  ℕ, zero, suc, ◌≤◌, ◌<◌, ◌≡◌, ◌≢◌, refl, sym, ◌∙◌, ap, inl, inr, Bool, true, false, not, ◌||◌,
  Option, none, some, ◌==◌, if◌then◌else◌, ltb, Bool-cases, arith,
}
use mathlib.Core.Path.{subst}
use gafq.Tables.Values.{Numbers, Value, Node, Table, ttisnil, sizenode, rawequal_obj, mainposition}
use gafq.Tables.Slots.{
  place_of, free_below, find_prev, collide, room, newkey, set_key, chain_new, move_colliding,
  with_key,
}
use gafq.Tables.Chains.{same_or, none-some, some_inj, Option-cases, length-Chain}
use gafq.Tables.Linked.{links, IsUsed, Linked, find_prev-Leads}
use gafq.Tables.Placed.{Placed, Placed-Linked, LawfulKeys}
use gafq.Tables.Laws.{LawfulNumbers, keys-LawfulKeys}
use gafq.Tables.Newkey.Reused.{reused-Placed}
use gafq.Tables.Newkey.Chained.{chained-Placed}
use gafq.Tables.Newkey.Displaced.{displaced-Placed, new_used}

taken {ℓ} : {A : Type ℓ} (b d : Bool) (x y : A) → d ≡ true → (if not b || d then x else y) ≡ x
taken true d x y e = rw e refl
taken false d x y e = refl

passed {ℓ} :
    {A : Type ℓ} (b d : Bool) (x y : A) → b ≡ true → d ≡ false → (if not b || d then x else y) ≡ y
passed b d x y e h = rw (e, h) refl

module _ {N : Type 0} where
  -- A well-formed table: its nodes are, and all from `lastfree` on have keys.
  pub record IsTable (c : Numbers N) (t : Table N) : Type 0 where
    pub linked : Linked (sizenode t) (mainposition c (sizenode t)) (rawequal_obj c) t.node
    pub lastfree_fits : t.lastfree ≤ sizenode t
    pub behind : (i : ℕ) → t.is_dummy ≡ false → t.lastfree ≤ i → i < sizenode t → IsUsed t.node i
    -- The dummy node has no key and is not free.
    pub dummy : t.is_dummy ≡ true → (t.lastfree ≡ 0) × ((i : ℕ) → ttisnil (t.node i).i_key ≡ true)
    -- Keys that have a place in the array part are in no node.
    pub outside : (i : ℕ) → IsUsed t.node i → place_of c t.sizearray (t.node i).i_key ≡ none

  -- What the loop of `getfreepos` passes over has keys, and what it returns has none.
  free_below-some :
      (node : ℕ → Node N) (l n : ℕ)
      → (free_below node l).1 ≡ some n
      → ((free_below node l).0 ≡ n)
        × (n < l)
        × (ttisnil (node n).i_key ≡ true)
        × ((i : ℕ) → n < i → i < l → IsUsed node i)
  unfolding free_below
  free_below-some node zero n e = absurd (none-some refl e)
  free_below-some node (suc l) n e = elim (Bool-cases (ttisnil (node l).i_key)) [
    | inl empty ↦
        let same : l ≡ n = some_inj (rw empty at e) in
        rw empty (
          same,
          omega (arith, same),
          rw (sym same) empty,
          λ i above below. absurd (omega (arith, same)),
        )
    | inr used ↦
        let rest = free_below-some node l n (rw used at e) in
        rw used (
          rest.0,
          omega (arith, rest.1),
          rest.2,
          λ i above below. elim (same_or i l) [
            | inl at ↦ rw at used
            | inr other ↦ rest.3 i above (omega (arith, other))
          ],
        )
  ]

  free_below-none :
      (node : ℕ → Node N) (l i : ℕ) → (free_below node l).1 ≡ none → i < l → IsUsed node i
  unfolding free_below
  free_below-none node zero i e h = absurd (omega arith)
  free_below-none node (suc l) i e h = elim (Bool-cases (ttisnil (node l).i_key)) [
    | inl empty ↦ absurd (none-some refl (sym (rw empty at e)))
    | inr used ↦ elim (same_or i l) [
      | inl at ↦ rw at used
      | inr other ↦ free_below-none node l i (rw used at e) (omega (arith, other))
    ]
  ]

  free_below_zero : (node : ℕ → Node N) → (free_below node 0).1 ≡ none
  unfolding free_below
  free_below_zero node = refl

  -- What `newkey` has done to the table `t` for the key.
  pub record NewEntry (c : Numbers N) (t : Table N) (key : Value N) (r : Table N × ℕ) : Type 0 where
    pub placed : Placed (sizenode t) (mainposition c (sizenode t)) t.node r.0.node r.1 key
    pub rest : r.0 ≡ record t { node = r.0.node; lastfree = r.0.lastfree }
    pub fits : r.0.lastfree ≤ sizenode t
    pub behind :
        (i : ℕ) → t.is_dummy ≡ false → r.0.lastfree ≤ i → i < sizenode t → IsUsed r.0.node i
    pub real : t.is_dummy ≡ false

  module _ (c : Numbers N) (laws : LawfulNumbers c) (t : Table N) (ok : IsTable c t) (key : Value N)
      (used_key : ttisnil key ≡ false) where
    keys : LawfulKeys (sizenode t) (mainposition c (sizenode t)) (rawequal_obj c)
    keys = keys-LawfulKeys c laws t.lsizenode

    abbrev mp : ℕ
    mp = mainposition c (sizenode t) key

    -- With as many free nodes as before.
    reuse-NewEntry :
        ttisnil (t.node mp).i_val ≡ true
        → t.is_dummy ≡ false
        → NewEntry c t key (with_key t key (t.node, mp))
    reuse-NewEntry dead real =
        let placed =
          reused-Placed (sizenode t) (mainposition c (sizenode t)) (rawequal_obj c) keys t.node
            ok.linked key used_key dead in
        record {
          placed = placed;
          rest = refl;
          fits = ok.lastfree_fits;
          behind = λ i real above below. placed.stays i (ok.behind i real above below);
          real = real;
        }

    -- With the free node that the loop found.
    module _ (l n : ℕ) (found : free_below t.node t.lastfree ≡ (l, some n))
        (live : ttisnil (t.node mp).i_val ≡ false) where
      found_n :
          (l ≡ n)
          × (n < t.lastfree)
          × (ttisnil (t.node n).i_key ≡ true)
          × ((i : ℕ) → n < i → i < t.lastfree → IsUsed t.node i)
      found_n =
          let some_n : (free_below t.node t.lastfree).1 ≡ some n =
            ap (λ (x : ℕ × Option ℕ). x.1) found in
          let f = free_below-some t.node t.lastfree n some_n in
          (ap (λ (x : ℕ × Option ℕ). x.0) (sym found) ∙ f.0, f.1, f.2, f.3)

      used_main : IsUsed t.node mp
      used_main = elim (Bool-cases (ttisnil (t.node mp).i_key)) [
        | inr used ↦ used
        | inl empty ↦ let clash : true ≡ false = sym (ok.linked.free mp empty).1 ∙ live in cc
      ]

      -- All from the free node on have keys, once it has one.
      behind_n :
          (node' : ℕ → Node N)
          → ((i : ℕ) → IsUsed t.node i → IsUsed node' i)
          → IsUsed node' n
          → (i : ℕ) → t.is_dummy ≡ false
          → l ≤ i
          → i < sizenode t
          → IsUsed node' i
      behind_n node' stays now i real above below = elim (same_or i n) [
        | inl at ↦ rw at now
        | inr other ↦ elim (Bool-cases (ltb i t.lastfree)) [
          | inl inside ↦ stays i (found_n.3 i (omega (arith, other, found_n.0)) (ground arith))
          | inr past ↦ stays i (ok.behind i real (ground arith) below)
        ]
      ]

      not_dummy : t.is_dummy ≡ false
      not_dummy = elim (Bool-cases t.is_dummy) [
        | inr real ↦ real
        | inl e ↦ absurd (omega (arith, (ok.dummy e).0, found_n.1))
      ]

      chain-NewEntry :
          mainposition c (sizenode t) (t.node mp).i_key ≡ mp
          → NewEntry c t key (with_key (record t { lastfree = l }) key (chain_new t.node mp n, n))
      chain-NewEntry own =
          let placed =
            chained-Placed (sizenode t) (mainposition c (sizenode t)) (rawequal_obj c) t.node
              ok.linked key used_key n (omega (arith, found_n.1, ok.lastfree_fits)) found_n.2
              used_main own in
          record {
            placed = placed;
            rest = refl;
            fits = omega (arith, found_n.0, found_n.1, ok.lastfree_fits);
            behind =
                behind_n (set_key n key (chain_new t.node mp n)) placed.stays
                  (rw placed.new_key used_key);
            real = not_dummy;
          }

      move-NewEntry :
          mainposition c (sizenode t) (t.node mp).i_key ≢ mp
          → NewEntry c t key (
              with_key
                (record t { lastfree = l })
                key
                (
                  move_colliding t.node
                      (find_prev t.node mp
                        (sizenode t)
                        (mainposition c (sizenode t) (t.node mp).i_key))
                      mp
                      n,
                  mp,
                ))
      move-NewEntry strange =
          let main = mainposition c (sizenode t) in
          let other = main (t.node mp).i_key in
          let (ps, h) = ok.linked.ends other in
          let fit =
            length-Chain (links t.node) (sizenode t) other ps
              (λ a b e. ok.linked.inside b (ok.linked.target a b e)) (keys.below (t.node mp).i_key)
              h in
          let before =
            find_prev-Leads t.node mp (sizenode t) other ps strange (ok.linked.home mp used_main) h
              fit in
          let prev = find_prev t.node mp (sizenode t) other in
          let n_fits : n < sizenode t = omega (arith, found_n.1, ok.lastfree_fits) in
          let placed =
            displaced-Placed (sizenode t) main (rawequal_obj c) keys t.node ok.linked key used_key n
              prev n_fits found_n.2 used_main strange before in
          record {
            placed = placed;
            rest = refl;
            fits = omega (arith, found_n.0, n_fits);
            behind = behind_n (set_key mp key (move_colliding t.node prev mp n)) placed.stays (
                new_used (sizenode t) main (rawequal_obj c) keys t.node ok.linked key used_key n
                  prev n_fits found_n.2 used_main strange before);
            real = not_dummy;
          }

    found_pair :
        (n : ℕ)
        → (free_below t.node t.lastfree).1 ≡ some n
        → free_below t.node t.lastfree ≡ ((free_below t.node t.lastfree).0, some n)
    found_pair n e = ap (λ (x : Option ℕ). ((free_below t.node t.lastfree).0, x)) e

    collide-NewEntry :
        (l n : ℕ)
        → free_below t.node t.lastfree ≡ (l, some n)
        → ttisnil (t.node mp).i_val ≡ false
        → NewEntry c t key (with_key (record t { lastfree = l }) key (collide c t mp n))
    unfolding collide
    collide-NewEntry l n found live =
        elim (Bool-cases (mainposition c (sizenode t) (t.node mp).i_key == mp)) [
          | inl e ↦ rw e (chain-NewEntry l n found live (ground arith))
          | inr e ↦ rw e (move-NewEntry l n found live (λ same. ground arith))
        ]

    some_entry : {r s : Table N × ℕ} → some r ≡ some s → r ≡ s
    some_entry e = cc

    no_room :
        (r : Table N × ℕ)
        → (free_below t.node t.lastfree).1 ≡ none
        → room c t mp key (free_below t.node t.lastfree) ≢ some r
    unfolding room
    no_room r none_free e =
        let found : free_below t.node t.lastfree ≡ ((free_below t.node t.lastfree).0, none) =
          ap (λ (x : Option ℕ). ((free_below t.node t.lastfree).0, x)) none_free in
        let no = rw found at e in cc

    room-NewEntry :
        (r : Table N × ℕ)
        → ttisnil (t.node mp).i_val ≡ false
        → room c t mp key (free_below t.node t.lastfree) ≡ some r
        → NewEntry c t key r
    unfolding room
    room-NewEntry r live e = elim (Option-cases (free_below t.node t.lastfree).1) [
      | inl none_free ↦ absurd (no_room r none_free e)
      | inr x ↦
          let found = found_pair x.0 x.1 in
          subst (λ s. NewEntry c t key s) (some_entry (rw found at e))
            (collide-NewEntry (free_below t.node t.lastfree).0 x.0 found live)
    ]

    pub newkey-NewEntry : (r : Table N × ℕ) → newkey c t key ≡ some r → NewEntry c t key r
    unfolding newkey
    newkey-NewEntry r e = elim (Bool-cases (ttisnil (t.node mp).i_val)) [
      | inr live ↦ room-NewEntry r live (rw live at e)
      | inl dead ↦ elim (Bool-cases t.is_dummy) [
        | inl dummy ↦ absurd (
            no_room r (rw (ok.dummy dummy).0 (free_below_zero t.node))
              (sym (taken (ttisnil (t.node mp).i_val) t.is_dummy _ _ dummy) ∙ e))
        | inr real ↦
            subst (λ s. NewEntry c t key s)
              (some_entry (sym (passed (ttisnil (t.node mp).i_val) t.is_dummy _ _ dead real) ∙ e))
              (reuse-NewEntry dead real)
      ]
    ]

    -- A table is rehashed only when every node has a key, if it has nodes of its own.
    pub newkey-full :
        (i : ℕ) → newkey c t key ≡ none → t.is_dummy ≡ false → i < sizenode t → IsUsed t.node i
    unfolding newkey room
    newkey-full i e real below = elim (Bool-cases (ttisnil (t.node mp).i_val)) [
      | inl dead ↦ let no = rw (dead, real) at e in cc
      | inr live ↦ elim (Option-cases (free_below t.node t.lastfree).1) [
        | inr x ↦ let no = rw (live, found_pair x.0 x.1) at e in cc
        | inl none_free ↦ elim (Bool-cases (ltb i t.lastfree)) [
          | inl inside ↦ free_below-none t.node t.lastfree i none_free (ground arith)
          | inr past ↦ ok.behind i real (ground arith) below
        ]
      ]
    ]

    -- The table is well-formed again.
    pub NewEntry-IsTable :
        (r : Table N × ℕ)
        → NewEntry c t key r
        → rawequal_obj c key key ≡ true
        → ((i : ℕ) → rawequal_obj c (t.node i).i_key key ≡ false)
        → place_of c t.sizearray key ≡ none
        → IsTable c r.0
    NewEntry-IsTable r u self absent place =
        subst (λ s. IsTable c s) (sym u.rest)
          (record {
            linked =
                Placed-Linked (sizenode t) (mainposition c (sizenode t)) (rawequal_obj c) keys
                  t.node r.0.node r.1 key ok.linked u.placed used_key self absent;
            lastfree_fits = u.fits;
            behind = u.behind;
            dummy = λ e. (let clash : true ≡ false = sym e ∙ u.real in cc);
            outside = λ i used. elim (same_or i r.1) [
              | inl e ↦ rw (e, u.placed.new_key) place
              | inr h ↦ let k = u.placed.kept i used h in rw k.1 (ok.outside (u.placed.back i) k.0)
            ];
          })
