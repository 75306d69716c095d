-- ===== src/Tables/Traversal.antt =====
-- The traversal of a table (`findindex` and `gafqH_next`, gtable.c). Indices count the array part first;
-- where the source returns the index before the one to look at next, this is the index itself.
use gafq.Prelude.{
  ℕ, zero, suc, ◌+◌, ◌-◌, ◌≤◌, ◌<◌, ◌^◌, ◌≡◌, refl, sym, ◌∙◌, ap, Bool, true, false, Option, none,
  some, if◌then◌else◌, ltb, leb, arith, inl, inr, Bool-cases,
}
use gafq.Prelude.Int.{pos}
use gafq.Prelude.Run.{Outcome, ok, error}
use gafq.Tables.Values.{
  Numbers, Value, nil, number, Table, ttisnil, sizenode, rawequal_obj, mainposition,
}
use gafq.Tables.Slots.{search, place_of, array_place}
use gafq.Tables.Chains.{none-some, some_inj, same_or}
use gafq.Tables.Linked.{IsUsed}
use gafq.Tables.Placed.{search-Linked}
use gafq.Tables.Laws.{LawfulNumbers, keys-LawfulKeys}
use gafq.Tables.Insert.{IsTable}

abbrev or_else : Option ℕ → Option ℕ → Option ℕ
or_else none o = o
or_else (some i) o = some i

abbrev shifted : ℕ → Option ℕ → Option ℕ
shifted s none = none
shifted s (some i) = some (i + s)

if_or_else :
    (b : Bool) (i : ℕ) (o p : Option ℕ)
    → (if b then or_else o p else some i) ≡ or_else (if b then o else some i) p
if_or_else true i o p = refl
if_or_else false i o p = refl

if_shifted :
    (b : Bool) (i s : ℕ) (o : Option ℕ)
    → (if b then shifted s o else some (i + s)) ≡ shifted s (if b then o else some i)
if_shifted true i s o = refl
if_shifted false i s o = refl

in_part : (k n : ℕ) → k < n → ltb k n ≡ true
in_part k n h = ground arith

out_part : (k n : ℕ) → ltb (k + n) n ≡ false
out_part k n = ground arith

later : (i n : ℕ) → ltb i n ≡ false → i - n + n + 1 ≡ i + 1
later i n h = ground arith

pub data NextError : Type 0 where
  invalid_key : NextError

module _ {N : Type 0} where
  abbrev index_of : Table N → Option ℕ → Option ℕ → Outcome NextError ℕ
  index_of t (some i) o = ok (i + 1)
  index_of t none (some n) = ok (n + t.sizearray + 1)
  index_of t none none = error invalid_key

  -- `findindex`; keys of collected objects, which are dead, do not occur here.
  unfoldable pub findindex : Numbers N → Table N → Value N → Outcome NextError ℕ
  unfolding ttisnil place_of search mainposition
  findindex c t key =
      if ttisnil key
      then ok 0
      else index_of t (place_of c t.sizearray key)
          (search t.node (λ k. rawequal_obj c k key) (sizenode t) (mainposition c (sizenode t) key))

  -- The first index from `i` on, of `n`, whose value is not nil.
  unfoldable pub first_value : (ℕ → Value N) → ℕ → ℕ → Option ℕ
  first_value value zero i = none
  first_value value (suc n) i =
      let rest = first_value value n (i + 1) in if ttisnil (value i) then rest else some i

  abbrev pub node_entry : Table N → Option ℕ → Option (Value N × Value N)
  node_entry t none = none
  node_entry t (some n) = some ((t.node n).i_key, (t.node n).i_val)

  -- The key and the value of an element of the array part, or else what the hash part has.
  abbrev pub array_entry :
      Numbers N → Table N → Option (Value N × Value N) → Option ℕ → Option (Value N × Value N)
  array_entry c t rest none = rest
  array_entry c t rest (some i) = some (number (c.cast_num (pos (i + 1))), t.array i)

  -- The two loops of `gafqH_next`.
  unfoldable pub next_from : Numbers N → Table N → ℕ → Option (Value N × Value N)
  unfolding first_value
  next_from c t i =
      let j = i - t.sizearray in
      array_entry c t (node_entry t (first_value (λ n. (t.node n).i_val) (sizenode t - j) j))
        (first_value t.array (t.sizearray - i) i)

  abbrev after_index :
      Numbers N → Table N → Outcome NextError ℕ → Outcome NextError (Option (Value N × Value N))
  after_index c t (ok i) = ok (next_from c t i)
  after_index c t (error e) = error e

  -- `gafqH_next`
  unfoldable pub next :
      Numbers N → Table N → Value N → Outcome NextError (Option (Value N × Value N))
  unfolding findindex next_from
  next c t key = after_index c t (findindex c t key)

  -- The keys and values in the order of the traversal.
  abbrev pub key_at : Numbers N → Table N → ℕ → Value N
  key_at c t i =
      if ltb i t.sizearray
      then number (c.cast_num (pos (i + 1)))
      else (t.node (i - t.sizearray)).i_key

  abbrev pub val_at : Table N → ℕ → Value N
  val_at t i = if ltb i t.sizearray then t.array i else (t.node (i - t.sizearray)).i_val

  abbrev pub entry_at : Numbers N → Table N → Option ℕ → Option (Value N × Value N)
  entry_at c t none = none
  entry_at c t (some i) = some (key_at c t i, val_at t i)

  -- The index of the first value that is not nil, from `i` on and before `end`, or that there is none.
  abbrev pub IsFirst : (ℕ → Value N) → ℕ → ℕ → Option ℕ → Type 0
  IsFirst value i end none = (k : ℕ) → i ≤ k → k < end → ttisnil (value k) ≡ true
  IsFirst value i end (some m) =
      (i ≤ m)
      × (m < end)
      × (ttisnil (value m) ≡ false)
      × ((k : ℕ) → i ≤ k → k < m → ttisnil (value k) ≡ true)

  -- The result is the entry of the first value from `i` on, or that there is none.
  abbrev pub Follows :
      Numbers N → Table N → ℕ → Outcome NextError (Option (Value N × Value N)) → Type 0
  Follows c t i r =
      (o : Option ℕ) × (r ≡ ok (entry_at c t o)) × IsFirst (val_at t) i (t.sizearray + sizenode t) o

  IsFirst-later :
      (f : ℕ → Value N) (i end : ℕ) (o : Option ℕ)
      → ttisnil (f i) ≡ true
      → IsFirst f (i + 1) end o
      → IsFirst f i end o
  IsFirst-later f i end none empty first = λ k h l. elim (same_or k i) [
    | inl same ↦ rw same empty
    | inr other ↦ first k (omega (arith, other)) l
  ]
  IsFirst-later f i end (some m) empty first = (
    omega (arith, first.0),
    first.1,
    first.2,
    λ k h l. elim (same_or k i) [
      | inl same ↦ rw same empty
      | inr other ↦ first.3 k (omega (arith, other)) l
    ],
  )

  first_value-IsFirst :
      (f : ℕ → Value N) (n i end : ℕ) → end ≡ i + n → IsFirst f i end (first_value f n i)
  unfolding first_value
  first_value-IsFirst f zero i end e = λ k h l. absurd (omega (arith, e))
  first_value-IsFirst f (suc n) i end e = elim (Bool-cases (ttisnil (f i))) [
    | inl empty ↦ rw empty (
        IsFirst-later f i end (first_value f n (i + 1)) empty
          (first_value-IsFirst f n (i + 1) end (omega (arith, e))))
    | inr full ↦ rw full (omega arith, omega (arith, e), full, λ k h l. absurd (omega arith))
  ]

  first_value-cong :
      (f g : ℕ → Value N) (n i : ℕ)
      → ((k : ℕ) → i ≤ k → k < i + n → f k ≡ g k)
      → first_value f n i ≡ first_value g n i
  unfolding first_value
  first_value-cong f g zero i same = refl
  first_value-cong f g (suc n) i same =
      rw
        (
          same i (omega arith) (omega arith),
          first_value-cong f g n (i + 1) (λ k h l. same k (omega arith) (omega arith)),
        )
        refl

  first_value-split :
      (f : ℕ → Value N) (m n i : ℕ)
      → first_value f (m + n) i ≡ or_else (first_value f m i) (first_value f n (i + m))
  unfolding first_value
  first_value-split f zero n i =
      let none_before : 0 + n ≡ n = omega arith in
      let place : i ≡ i + 0 = omega arith in
      ap (λ (x : ℕ). first_value f x i) none_before ∙ ap (λ (x : ℕ). first_value f n x) place
  first_value-split f (suc m) n i =
      let place : i + 1 + m ≡ i + suc m = omega arith in
      let one_more : suc m + n ≡ suc (m + n) = omega arith in
      ap (λ (x : ℕ). first_value f x i) one_more
      ∙ ap (λ o. if ttisnil (f i) then o else some i)
          (first_value-split f m n (i + 1)
            ∙ ap (λ (x : ℕ). or_else (first_value f m (i + 1)) (first_value f n x)) place)
      ∙ if_or_else (ttisnil (f i)) i (first_value f m (i + 1)) (first_value f n (i + suc m))

  first_value-shift :
      (f : ℕ → Value N) (s n i : ℕ)
      → first_value f n (i + s) ≡ shifted s (first_value (λ x. f (x + s)) n i)
  unfolding first_value
  first_value-shift f s zero i = refl
  first_value-shift f s (suc n) i =
      let place : i + s + 1 ≡ i + 1 + s = omega arith in
      ap (λ o. if ttisnil (f (i + s)) then o else some (i + s))
        (ap (λ (x : ℕ). first_value f n x) place ∙ first_value-shift f s n (i + 1))
      ∙ if_shifted (ttisnil (f (i + s))) i s (first_value (λ x. f (x + s)) n (i + 1))

  first_value-bounds :
      (f : ℕ → Value N) (n i k : ℕ) → first_value f n i ≡ some k → (i ≤ k) × (k < i + n)
  unfolding first_value
  first_value-bounds f zero i k e = absurd (none-some refl e)
  first_value-bounds f (suc n) i k e = elim (Bool-cases (ttisnil (f i))) [
    | inl empty ↦
        let b = first_value-bounds f n (i + 1) k (rw empty at e) in
        (omega (arith, b.0), omega (arith, b.1))
    | inr full ↦
        let same : i ≡ k = some_inj (rw full at e) in (omega (arith, same), omega (arith, same))
  ]

  -- The two loops find what one loop over both parts does.
  next_from-entry :
      (c : Numbers N) (t : Table N) (i : ℕ)
      → next_from c t i ≡ entry_at c t (first_value (val_at t) (t.sizearray + sizenode t - i) i)
  unfolding next_from
  next_from-entry c t i =
      let m = t.sizearray - i in
      let j = i - t.sizearray in
      let n = sizenode t - j in
      let whole : m + n ≡ t.sizearray + sizenode t - i = omega arith in
      let place : j + t.sizearray ≡ i + m = omega arith in
      let array_part =
        first_value-cong (val_at t) t.array m i
          (λ k h l. let in_array : ltb k t.sizearray ≡ true = ground arith in rw in_array refl) in
      let node_part =
        ap (λ (x : ℕ). first_value (val_at t) n x) (sym place)
        ∙ first_value-shift (val_at t) t.sizearray n j
        ∙ ap (λ o. shifted t.sizearray o)
            (first_value-cong (λ x. val_at t (x + t.sizearray)) (λ x. (t.node x).i_val) n j
              (λ k h l.
                let out : ltb (k + t.sizearray) t.sizearray ≡ false = ground arith in
                let back : k + t.sizearray - t.sizearray ≡ k = omega arith in
                rw (out, back) refl)) in
      let bounds = first_value-bounds t.array m i in
      sym (
        ap (λ o. entry_at c t o)
          (ap (λ (x : ℕ). first_value (val_at t) x i) (sym whole)
            ∙ first_value-split (val_at t) m n i
            ∙ rw (array_part, node_part) refl)
        ∙ entry_split (first_value t.array m i) (first_value (λ x. (t.node x).i_val) n j)
            (λ k e. let b = bounds k e in omega arith))
    where
      entry_split :
          (a b : Option ℕ)
          → ((k : ℕ) → a ≡ some k → k < t.sizearray)
          → entry_at c t (or_else a (shifted t.sizearray b)) ≡ array_entry c t (node_entry t b) a
      entry_split (some k) b below =
          let inside : ltb k t.sizearray ≡ true = in_part k t.sizearray (below k refl) in
          rw inside refl
      entry_split none none below = refl
      entry_split none (some k) below =
          let out : ltb (k + t.sizearray) t.sizearray ≡ false = out_part k t.sizearray in
          let back : k + t.sizearray - t.sizearray ≡ k = omega arith in rw (out, back) refl

  module _ (c : Numbers N) (laws : LawfulNumbers c) where
    array_place-at : (size i : ℕ) → i < size → array_place size (pos (i + 1)) ≡ some i
    unfolding array_place
    array_place-at size i h =
        let above : ltb 0 (i + 1) ≡ true = ground arith in
        let below : leb (i + 1) size ≡ true = ground arith in
        rw (above, below) (ap (λ (x : ℕ). some x) (omega arith))

    int_place :
        (size i : ℕ)
        → i < size
        → size < 2 ^ 31
        → place_of c size (number (c.cast_num (pos (i + 1)))) ≡ some i
    unfolding place_of
    int_place size i h small =
        let self = laws.reflexive (c.cast_num (pos (i + 1))) (laws.not_nan (pos (i + 1))) in
        let same =
          laws.exact (pos (i + 1)) (c.cast_num (pos (i + 1))) (omega arith, omega arith) self in
        rw (same, self) (array_place-at size i h)

    findindex-array :
        (t : Table N) (i : ℕ)
        → t.sizearray < 2 ^ 31
        → i < t.sizearray
        → findindex c t (number (c.cast_num (pos (i + 1)))) ≡ ok (i + 1)
    unfolding findindex ttisnil
    findindex-array t i small h = rw (int_place t.sizearray i h small) refl

    findindex-node :
        (t : Table N) (n : ℕ)
        → IsTable c t
        → IsUsed t.node n
        → findindex c t (t.node n).i_key ≡ ok (n + t.sizearray + 1)
    unfolding findindex
    findindex-node t n w used =
        let at =
          search-Linked (sizenode t) (mainposition c (sizenode t)) (rawequal_obj c)
            (keys-LawfulKeys c laws t.lsizenode) t.node (t.node n).i_key n w.linked used used
            (w.linked.valid n used) in
        rw (used, w.outside n used, at) refl

    findindex-key_at :
        (t : Table N) (i : ℕ)
        → IsTable c t
        → t.sizearray < 2 ^ 31
        → ttisnil (key_at c t i) ≡ false
        → findindex c t (key_at c t i) ≡ ok (i + 1)
    findindex-key_at t i w small used = elim (Bool-cases (ltb i t.sizearray)) [
      | inl inside ↦
          let key : key_at c t i ≡ number (c.cast_num (pos (i + 1))) = rw inside refl in
          ap (findindex c t) key ∙ findindex-array t i small (ground arith)
      | inr out ↦
          let n = i - t.sizearray in
          let key : key_at c t i ≡ (t.node n).i_key = rw out refl in
          let place : n + t.sizearray + 1 ≡ i + 1 = later i t.sizearray out in
          ap (findindex c t) key
          ∙ findindex-node t n w (rw key at used)
          ∙ ap (λ (x : ℕ). ok x) place
    ]

    -- What follows the index `i` of a traversal is what the loops find.
    Follows-first :
        (t : Table N) (i : ℕ) (r : Outcome NextError (Option (Value N × Value N)))
        → i ≤ t.sizearray + sizenode t
        → r ≡ ok (next_from c t i)
        → Follows c t i r
    Follows-first t i r h e = (
      first_value (val_at t) (t.sizearray + sizenode t - i) i,
      e ∙ ap (λ x. ok x) (next_from-entry c t i),
      first_value-IsFirst (val_at t) (t.sizearray + sizenode t - i) i (t.sizearray + sizenode t)
          (omega arith),
    )

    inside_table :
        (t : Table N) (i : ℕ)
        → IsTable c t
        → ttisnil (key_at c t i) ≡ false
        → i + 1 ≤ t.sizearray + sizenode t
    inside_table t i w used = elim (Bool-cases (ltb i t.sizearray)) [
      | inl inside ↦ ground arith
      | inr out ↦
          let h = w.linked.inside (i - t.sizearray) (rw out at used) in
          omega (arith, h, later i t.sizearray out)
    ]

    -- In a well-formed table, with an array part that an `int` can count, `gafqH_next` of nil gives the
    -- first key of the traversal with a value and that value, and of the key at any place of the
    -- traversal the first such key behind it and its value; or that there is none.
    pub next_lem :
        (t : Table N) (i : ℕ)
        → IsTable c t
        → t.sizearray < 2 ^ 31
        → ttisnil (key_at c t i) ≡ false
        → Follows c t 0 (next c t nil) × Follows c t (i + 1) (next c t (key_at c t i))
    unfolding next findindex ttisnil
    next_lem t i w small used = (
      Follows-first t 0 (next c t nil) (omega arith) refl,
      Follows-first t (i + 1) (next c t (key_at c t i)) (inside_table t i w used)
          (ap (λ r. after_index c t r) (findindex-key_at t i w small used)),
    )
