-- ===== src/Tables/Maps.antt =====
-- Tables as finite maps: what `gafqH_set` and a store put under a key, `gafqH_get` reads under it and its
-- equals, and under the other keys it reads what it did before (gtable.c).
use gafq.Prelude.{
  ℕ, ◌≡◌, refl, sym, ◌∙◌, ap, ◌⊎◌, inl, inr, true, false, ◌||◌, Option, none, some, if◌then◌else◌,
  Bool-cases, arith,
}
use mathlib.Core.Path.{subst}
use gafq.Prelude.Run.{Outcome, ok, error}
use gafq.Tables.Values.{
  Numbers, Value, nil, boolean, light, number, string, object, Table, ttisnil, sizenode,
  rawequal_obj, mainposition,
}
use gafq.Tables.Slots.{
  Slot, in_array, in_node, node_slot, array_or, place_of, get_any, get, setobj, newkey, SetError,
  index_is_nil, index_is_nan, is_nan, set_missing, set,
}
use gafq.Tables.Chains.{Option-cases, none-some}
use gafq.Tables.Linked.{search-none}
use gafq.Tables.Placed.{search-Linked, search-new, search-other}
use gafq.Tables.Laws.{LawfulNumbers}
use gafq.Tables.Insert.{IsTable, newkey-NewEntry, NewEntry-IsTable}
use gafq.Tables.Lookup.{get-any}
use gafq.Tables.Reads.{
  read_place, read, found, read-place, keys, Updates, get_nil, read_nil, in_node-IsTable,
  in_node-Updates, in_array-Updates,
}

module _ {N : Type 0} (c : Numbers N) (laws : LawfulNumbers c) where
  self_equal : (a : Value N) → is_nan c a ≡ false → rawequal_obj c a a ≡ true
  unfolding is_nan rawequal_obj
  self_equal nil h = refl
  self_equal (number n) h = laws.reflexive n h
  self_equal (boolean true) h = refl
  self_equal (boolean false) h = refl
  self_equal (light p) h = ground arith
  self_equal (string s) h = ground arith
  self_equal (object a p) h = ground arith

  found-none :
      (t : Table N) (key : Value N)
      → IsTable c t
      → ttisnil key ≡ false
      → found c t key ≡ none
      → (i : ℕ) → rawequal_obj c (t.node i).i_key key ≡ false
  found-none t key w used_key e i = elim (Bool-cases (rawequal_obj c (t.node i).i_key key)) [
    | inr differs ↦ differs
    | inl same ↦
        let used = (keys c laws t).not_nil (t.node i).i_key key used_key same in
        absurd (
          none-some e (
            search-Linked (sizenode t) (mainposition c (sizenode t)) (rawequal_obj c)
              (keys c laws t) t.node key i w.linked used_key used same))
  ]

  -- The table with a store into the slot, and what it reads then.
  abbrev Stored : Table N → Value N → Value N → Table N × Slot → Type 0
  Stored t key v r = IsTable c (setobj r.0 r.1 v) × Updates c laws t (setobj r.0 r.1 v) key v

  -- A new key leaves the reads of the others as they are.
  kept_reads :
      (t : Table N) (key v : Value N) (r : Table N × ℕ)
      → IsTable c t
      → ttisnil key ≡ false
      → is_nan c key ≡ false
      → found c t key ≡ none
      → newkey c t key ≡ some r
      → (key' : Value N)
      → (if rawequal_obj c key key'
          then v
          else read c (record t { node = r.0.node; lastfree = r.0.lastfree }) key')
        ≡ (if rawequal_obj c key key' then v else read c t key')
  kept_reads t key v r w used_key number_key missing e key' =
      elim (Bool-cases (rawequal_obj c key key')) [
        | inl same ↦ rw same refl
        | inr differs ↦ elim (Bool-cases (ttisnil key')) [
          | inl empty ↦ rw differs (
              read_nil c laws (record t { node = r.0.node; lastfree = r.0.lastfree }) key' empty
              ∙ sym (read_nil c laws t key' empty))
          | inr used' ↦ rw differs (
              read-place c laws (record t { node = r.0.node; lastfree = r.0.lastfree }) key' used'
              ∙ place_part (place_of c t.sizearray key') used' differs
              ∙ sym (read-place c laws t key' used'))
        ]
      ]
    where
      place_part :
          (p : Option ℕ)
          → ttisnil key' ≡ false
          → rawequal_obj c key key' ≡ false
          → read_place
              (record t { node = r.0.node; lastfree = r.0.lastfree })
              p
              (found c (record t { node = r.0.node; lastfree = r.0.lastfree }) key')
            ≡ read_place t p (found c t key')
      place_part (some i) used' differs = refl
      place_part none used' differs =
          search-other (sizenode t) (mainposition c (sizenode t)) (rawequal_obj c) (keys c laws t)
            t.node r.0.node r.1 key w.linked (newkey-NewEntry c laws t w key used_key r e).placed
            used_key (self_equal key number_key) (found-none t key w used_key missing) key' used'
            differs

  new-Stored :
      (t : Table N) (key v : Value N) (r : Table N × ℕ)
      → IsTable c t
      → ttisnil key ≡ false
      → is_nan c key ≡ false
      → place_of c t.sizearray key ≡ none
      → found c t key ≡ none
      → newkey c t key ≡ some r
      → Stored t key v (r.0, in_node r.1)
  new-Stored t key v r w used_key number_key place missing e =
      let u = newkey-NewEntry c laws t w key used_key r e in
      let self = self_equal key number_key in
      let absent = found-none t key w used_key missing in
      let t1 : Table N = record t { node = r.0.node; lastfree = r.0.lastfree } in
      let w1 : IsTable c t1 =
        subst (λ x. IsTable c x) u.rest
          (NewEntry-IsTable c laws t w key used_key r u self absent place) in
      let main = mainposition c (sizenode t) in
      let at_p : found c t1 key ≡ some r.1 =
        search-new (sizenode t) main (rawequal_obj c) (keys c laws t) t.node r.0.node r.1 key
          w.linked u.placed used_key self absent in
      let updates = in_node-Updates c laws t1 w1 key used_key r.1 at_p v place in
      subst (λ x. Stored t key v (x, in_node r.1)) (sym u.rest)
        (
          in_node-IsTable c laws t1 w1 key used_key r.1 at_p v,
          λ key'. updates key' ∙ kept_reads t key v r w used_key number_key missing e key',
        )

  stored_pair :
      {r s : Table N × Slot}
      → ◌≡◌ {A = Outcome SetError (Option (Table N × Slot))} (ok (some r)) (ok (some s))
      → r ≡ s
  stored_pair e = cc

  slot_cases :
      (p o : Option ℕ) (s : Slot)
      → array_or p (node_slot o) ≡ some s
      → ((i : ℕ) × (p ≡ some i) × (s ≡ in_array i))
        ⊎ ((j : ℕ) × (p ≡ none) × (o ≡ some j) × (s ≡ in_node j))
  unfolding array_or
  slot_cases (some i) o s e = inl (i, refl, cc)
  slot_cases none (some j) s e = inr (j, refl, refl, cc)
  slot_cases none none s e = cc

  slot_none : (p o : Option ℕ) → array_or p (node_slot o) ≡ none → (p ≡ none) × (o ≡ none)
  unfolding array_or
  slot_none (some i) o e = cc
  slot_none none (some j) e = cc
  slot_none none none e = (refl, refl)

  slot_equation :
      (t : Table N) (key : Value N) (o : Option Slot)
      → ttisnil key ≡ false
      → get c t key ≡ o
      → array_or (place_of c t.sizearray key) (node_slot (found c t key)) ≡ o
  unfolding get_any
  slot_equation t key o used_key e = sym (get-any c laws t key used_key) ∙ e

  found-Stored :
      (t : Table N) (key v : Value N) (s : Slot)
      → IsTable c t
      → ttisnil key ≡ false
      → get c t key ≡ some s
      → Stored t key v (t, s)
  found-Stored t key v s w used_key e =
      elim (slot_cases (place_of c t.sizearray key) (found c t key) s
        (slot_equation t key (some s) used_key e)) [
          | inl x ↦ rw x.2 (
            record {
              linked = w.linked;
              lastfree_fits = w.lastfree_fits;
              behind = w.behind;
              dummy = w.dummy;
              outside = w.outside;
            },
            in_array-Updates c laws t key x.0 v used_key x.1,
          )
          | inr x ↦ rw x.3 (
            in_node-IsTable c laws t w key used_key x.0 x.2 v,
            in_node-Updates c laws t w key used_key x.0 x.2 v x.1,
          )
        ]

  missing-Stored :
      (t : Table N) (key v : Value N) (r : Table N × Slot)
      → IsTable c t
      → ttisnil key ≡ false
      → get c t key ≡ none
      → set_missing c t key none ≡ ok (some r)
      → Stored t key v r
  unfolding set_missing
  missing-Stored t key v r w used_key missing e = elim (Bool-cases (is_nan c key)) [
    | inl nan ↦ let clash = rw (used_key, nan) at e in cc
    | inr number_key ↦ elim (Option-cases (newkey c t key)) [
      | inl full ↦ let clash = rw (used_key, number_key, full) at e in cc
      | inr x ↦
          let parts =
            slot_none (place_of c t.sizearray key) (found c t key)
              (slot_equation t key none used_key missing) in
          subst (λ q. Stored t key v q) (stored_pair (rw (used_key, number_key, x.1) at e))
            (new-Stored t key v x.0 w used_key number_key parts.0 parts.1 x.1)
    ]
  ]

  -- In a well-formed table, storing a value where `gafqH_set` says, if it does so without a rehash,
  -- leaves a well-formed table that reads this value under the key and its equals, and what it read
  -- before under all other keys.
  pub set-get :
      (t t' : Table N) (key v key' : Value N) (s : Slot)
      → IsTable c t
      → set c t key ≡ ok (some (t', s))
      → IsTable c (setobj t' s v)
        × (read c (setobj t' s v) key' ≡ (if rawequal_obj c key key' then v else read c t key'))
  unfolding set set_missing
  set-get t t' key v key' s w e = elim (Bool-cases (ttisnil key)) [
    | inl empty ↦ let clash = rw (get_nil c laws t key empty, empty) at e in cc
    | inr used_key ↦ elim (Option-cases (get c t key)) [
      | inr x ↦
          let done =
            subst (λ q. Stored t key v q) (stored_pair (rw x.1 at e))
              (found-Stored t key v x.0 w used_key x.1) in
          (done.0, done.1 key')
      | inl missing ↦
          let done = missing-Stored t key v (t', s) w used_key missing (rw missing at e) in
          (done.0, done.1 key')
    ]
  ]

  nan_absent : (n : N) (k : Value N) → c.isnan n ≡ true → rawequal_obj c k (number n) ≡ false
  unfolding rawequal_obj
  nan_absent n (number m) h = laws.nan_unequal n m h
  nan_absent n nil h = refl
  nan_absent n _ h = refl

  get_nan : (t : Table N) (n : N) → c.isnan n ≡ true → get c t (number n) ≡ none
  unfolding get get_any
  get_nan t n h = rw (laws.nan_unequal n (c.cast_num (c.to_int n)) h) (
      ap node_slot (
        search-none t.node (λ k. rawequal_obj c k (number n)) (sizenode t)
          (mainposition c (sizenode t) (number n)) (λ i. nan_absent n (t.node i).i_key h)))

  -- No table takes nil or NaN as a key: `gafqH_set` fails, each with its error.
  pub set-refuses :
      (t : Table N) (key : Value N)
      → (ttisnil key || is_nan c key) ≡ true
      → set c t key ≡ error (if ttisnil key then index_is_nil else index_is_nan)
  unfolding set set_missing ttisnil is_nan
  set-refuses t (number n) h = rw (get_nan t n h, h) refl
  set-refuses t nil h = ap (λ s. set_missing c t nil s) (get_nil c laws t nil refl)
  set-refuses t _ h = cc
