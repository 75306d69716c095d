-- ===== src/Tables/Reads.antt =====
-- What reads of a table give, and after a store into the slot of a key (`gafqH_get`, gtable.c).
use gafq.Prelude.{
  ℕ, ◌≡◌, ◌≢◌, refl, sym, ◌∙◌, ap, inl, inr, true, false, Option, none, some, if◌then◌else◌,
  Bool-cases, store-other, store-same,
}
use gafq.Tables.Values.{Numbers, Value, nil, Table, ttisnil, sizenode, rawequal_obj, mainposition}
use gafq.Tables.Slots.{
  in_array, in_node, node_slot, array_or, place_of, search, get_any, get, value_at, setobj,
}
use gafq.Tables.Chains.{Option-cases}
use gafq.Tables.Linked.{IsUsed, search-some}
use gafq.Tables.Placed.{val_of, LawfulKeys, search-Linked}
use gafq.Tables.Laws.{LawfulNumbers, keys-LawfulKeys}
use gafq.Tables.Insert.{IsTable}
use gafq.Tables.Lookup.{get-any, place_equal, place_apart}
use gafq.Tables.Revalued.{revalued, same_key, new_val, old_val, search-revalued, revalued-Linked}

-- The value that a read gives: of the array part, or of the node that was found.
module _ {N : Type 0} where
  abbrev pub read_place : Table N → Option ℕ → Option ℕ → Value N
  read_place t (some i) o = t.array i
  read_place t none o = val_of t.node o

module _ {N : Type 0} (c : Numbers N) where
  -- What the virtual machine reads under a key.
  abbrev pub read : Table N → Value N → Value N
  read t key = value_at t (get c t key)

  abbrev pub found : Table N → Value N → Option ℕ
  found t key =
      search t.node (λ k. rawequal_obj c k key) (sizenode t) (mainposition c (sizenode t) key)

  value_place :
      (t : Table N) (p o : Option ℕ) → value_at t (array_or p (node_slot o)) ≡ read_place t p o
  unfolding array_or
  value_place t (some i) o = refl
  value_place t none (some i) = refl
  value_place t none none = refl

  module _ (laws : LawfulNumbers c) where
    pub read-place :
        (t : Table N) (key : Value N)
        → ttisnil key ≡ false
        → read t key ≡ read_place t (place_of c t.sizearray key) (found t key)
    unfolding get_any
    read-place t key h =
        ap (λ s. value_at t s) (get-any c laws t key h)
        ∙ value_place t (place_of c t.sizearray key) (found t key)

    pub keys :
        (t : Table N) → LawfulKeys (sizenode t) (mainposition c (sizenode t)) (rawequal_obj c)
    keys t = keys-LawfulKeys c laws t.lsizenode

    -- The change of a table at one key and its equals.
    abbrev pub Updates : Table N → Table N → Value N → Value N → Type 0
    Updates t t' key v =
        (key' : Value N) → read t' key' ≡ (if rawequal_obj c key key' then v else read t key')

    not_equal_nil :
        (a b : Value N) → ttisnil a ≡ false → ttisnil b ≡ true → rawequal_obj c a b ≡ false
    unfolding ttisnil rawequal_obj
    not_equal_nil nil b h e = cc
    not_equal_nil a nil h e = refl
    not_equal_nil a _ h e = cc

    pub nil_equals : (b : Value N) → ttisnil b ≡ false → rawequal_obj c nil b ≡ false
    unfolding ttisnil rawequal_obj
    nil_equals nil h = cc
    nil_equals _ h = refl

    pub get_nil : (t : Table N) (key : Value N) → ttisnil key ≡ true → get c t key ≡ none
    unfolding ttisnil get
    get_nil t nil e = refl
    get_nil t _ e = cc

    pub read_nil : (t : Table N) (key : Value N) → ttisnil key ≡ true → read t key ≡ nil
    unfolding ttisnil get
    read_nil t nil e = refl
    read_nil t _ e = cc

    nil_Updates :
        (t t' : Table N) (key key' v : Value N)
        → ttisnil key ≡ false
        → ttisnil key' ≡ true
        → read t' key' ≡ (if rawequal_obj c key key' then v else read t key')
    nil_Updates t t' key key' v used_key empty =
        rw (not_equal_nil key key' used_key empty)
          (read_nil t' key' empty ∙ sym (read_nil t key' empty))

    -- A store into the node of a key.
    module _ (t : Table N) (w : IsTable c t) (key : Value N) (used_key : ttisnil key ≡ false)
        (j : ℕ) (at_j : found t key ≡ some j) (v : Value N) where
      key_at : rawequal_obj c (t.node j).i_key key ≡ true
      key_at =
          search-some t.node (λ k. rawequal_obj c k key) (sizenode t)
            (mainposition c (sizenode t) key) j at_j

      used_j : IsUsed t.node j
      used_j = (keys t).not_nil (t.node j).i_key key used_key key_at

      same_found : (key' : Value N) → found (setobj t (in_node j) v) key' ≡ found t key'
      same_found key' =
          search-revalued t.node j v (λ k. rawequal_obj c k key') (sizenode t)
            (mainposition c (sizenode t) key')

      pub in_node-IsTable : IsTable c (setobj t (in_node j) v)
      in_node-IsTable = record {
        linked =
            revalued-Linked t.node j v (sizenode t) (mainposition c (sizenode t)) (rawequal_obj c)
              w.linked used_j;
        lastfree_fits = w.lastfree_fits;
        behind = λ i real above below. rw (same_key t.node j v i) (w.behind i real above below);
        dummy = λ e. (let d = w.dummy e in (d.0, λ i. rw (same_key t.node j v i) (d.1 i)));
        outside =
            λ i used. rw (same_key t.node j v i) (w.outside i (rw (same_key t.node j v i) at used));
      }

      -- Of an equal key: the value that was stored.
      in_node-equal :
          (key' : Value N)
          → ttisnil key' ≡ false
          → rawequal_obj c key key' ≡ true
          → val_of (revalued t.node j v) (found (setobj t (in_node j) v) key') ≡ v
      in_node-equal key' used' e =
          let at' =
            search-Linked (sizenode t) (mainposition c (sizenode t)) (rawequal_obj c) (keys t)
              t.node key' j w.linked used' used_j
              ((keys t).transitive (t.node j).i_key key key' key_at e) in
          rw (same_found key', at') (new_val t.node j v)

      in_node-other :
          (key' : Value N)
          → rawequal_obj c key key' ≡ false
          → val_of (revalued t.node j v) (found (setobj t (in_node j) v) key')
            ≡ val_of t.node (found t key')
      in_node-other key' differs = elim (Option-cases (found t key')) [
        | inl e ↦ rw (same_found key', e) refl
        | inr x ↦
            let pass =
              search-some t.node (λ k. rawequal_obj c k key') (sizenode t)
                (mainposition c (sizenode t) key') x.0 x.1 in
            let other : x.0 ≢ j = λ same.
              (let e =
                  (keys t).transitive key (t.node j).i_key key'
                    ((keys t).symmetric (t.node j).i_key key key_at) (rw same at pass) in
                let clash : true ≡ false = sym e ∙ differs in cc) in
            rw (same_found key', x.1) (old_val t.node j v x.0 other)
      ]

      pub in_node-Updates :
          place_of c t.sizearray key ≡ none → Updates t (setobj t (in_node j) v) key v
      in_node-Updates no_place key' = elim (Bool-cases (ttisnil key')) [
        | inl empty ↦ nil_Updates t (setobj t (in_node j) v) key key' v used_key empty
        | inr used' ↦ elim (Bool-cases (rawequal_obj c key key')) [
          | inl e ↦
              let place : place_of c t.sizearray key' ≡ none =
                sym (place_equal c laws t.sizearray key key' e) ∙ no_place in
              rw e (
                read-place (setobj t (in_node j) v) key' used'
                ∙ rw place (in_node-equal key' used' e))
          | inr differs ↦ rw differs (
              read-place (setobj t (in_node j) v) key' used'
              ∙ node_part (place_of c t.sizearray key') differs
              ∙ sym (read-place t key' used'))
        ]
      ]
        where
          node_part :
              (p : Option ℕ)
              → rawequal_obj c key key' ≡ false
              → read_place (setobj t (in_node j) v) p (found (setobj t (in_node j) v) key')
                ≡ read_place t p (found t key')
          node_part (some i) differs = refl
          node_part none differs = in_node-other key' differs

    -- A store into the array part.
    pub in_array-Updates :
        (t : Table N) (key : Value N) (i : ℕ) (v : Value N)
        → ttisnil key ≡ false
        → place_of c t.sizearray key ≡ some i
        → Updates t (setobj t (in_array i) v) key v
    in_array-Updates t key i v used_key place key' = elim (Bool-cases (ttisnil key')) [
      | inl empty ↦ nil_Updates t (setobj t (in_array i) v) key key' v used_key empty
      | inr used' ↦ elim (Bool-cases (rawequal_obj c key key')) [
        | inl e ↦
            let place' : place_of c t.sizearray key' ≡ some i =
              sym (place_equal c laws t.sizearray key key' e) ∙ place in
            rw e
              (read-place (setobj t (in_array i) v) key' used' ∙ rw place' (store-same t.array i v))
        | inr differs ↦ rw differs (
            read-place (setobj t (in_array i) v) key' used'
            ∙ elim (Option-cases (place_of c t.sizearray key')) [
              | inl out ↦ rw out refl
              | inr x ↦
                  let other : x.0 ≢ i = λ same.
                    place_apart c laws t.sizearray key key' i x.0 differs place x.1 (sym same) in
                  rw x.1 (store-other t.array i x.0 v other)
            ]
            ∙ sym (read-place t key' used'))
      ]
    ]
