-- ===== src/Tables/Slots.antt =====
-- Reading and making entries (gtable.c). A slot stands for the address of a value; none, for that of
-- the nil object.
use gafq.Prelude.{
  ℕ, zero, suc, ◌-◌, Bool, false, not, ◌&&◌, ◌||◌, Option, none, some, ltb, leb, ◌==◌,
  if◌then◌else◌, store,
}
use gafq.Prelude.Int.{ℤ, pos, negsuc}
use gafq.Prelude.Run.{Outcome, ok, error}
use gafq.Tables.Values.{
  Numbers, Value, nil, boolean, light, number, string, object, Node, Table, ttisnil, sizenode,
  rawequal_obj, hashnum, hashstr, mainposition,
}

pub data Slot : Type 0 where
  in_array in_node : ℕ → Slot

abbrev pub node_slot : Option ℕ → Option Slot
node_slot none = none
node_slot (some n) = some (in_node n)

-- Where an index is in an array part of this size.
unfoldable pub array_place : ℕ → ℤ → Option ℕ
array_place size (negsuc k) = none
array_place size (pos k) = if ltb 0 k && leb k size then some (k - 1) else none

unfoldable pub array_or : Option ℕ → Option Slot → Option Slot
array_or (some i) s = some (in_array i)
array_or none s = s

abbrev goes_on : (ℕ → Option ℕ) → Option ℕ → Option ℕ
goes_on go none = none
goes_on go (some m) = go m

abbrev step_prev : ℕ → ℕ → (ℕ → ℕ) → Option ℕ → ℕ
step_prev n mp go none = n
step_prev n mp go (some m) = let rest = go m in if m == mp then n else rest

module _ {N : Type 0} where
  -- `do … while (n)`: along a chain, to the first key that passes the test. A chain has at most as many
  -- nodes as the table.
  unfoldable pub search : (ℕ → Node N) → (Value N → Bool) → ℕ → ℕ → Option ℕ
  search node test zero n = none
  search node test (suc fuel) n =
      let rest = goes_on (search node test fuel) ((node n).next) in
      if test (node n).i_key then some n else rest

  module _ (c : Numbers N) where
    unfoldable pub is_num : N → Value N → Bool
    is_num n (number m) = c.numeq m n
    is_num n _ = false

    unfoldable pub is_str : ℕ → Value N → Bool
    is_str s (string r) = r == s
    is_str s _ = false

    -- `arrayindex`, and the test whether the index is in the array part.
    unfoldable pub place_of : ℕ → Value N → Option ℕ
    unfolding array_place
    place_of size (number n) =
        if c.numeq (c.cast_num (c.to_int n)) n then array_place size (c.to_int n) else none
    place_of size _ = none

    -- `gafqH_getnum`
    unfoldable pub getnum : Table N → ℤ → Option Slot
    unfolding array_place array_or search is_num hashnum
    getnum t k =
        let n = c.cast_num k in
        array_or (array_place t.sizearray k)
          (node_slot (search t.node (is_num n) (sizenode t) (hashnum c (sizenode t) n)))

    -- `gafqH_getstr`
    unfoldable pub getstr : Table N → ℕ → Option Slot
    unfolding search is_str hashstr
    getstr t s = node_slot (search t.node (is_str s) (sizenode t) (hashstr c (sizenode t) s))

    unfoldable pub get_any : Table N → Value N → Option Slot
    unfolding search rawequal_obj mainposition
    get_any t key =
        node_slot
          (search t.node (λ k. rawequal_obj c k key) (sizenode t) (mainposition c (sizenode t) key))

    -- `gafqH_get`
    unfoldable pub get : Table N → Value N → Option Slot
    unfolding getnum getstr get_any
    get t nil = none
    get t (string s) = getstr t s
    get t (number n) =
        if c.numeq (c.cast_num (c.to_int n)) n then getnum t (c.to_int n) else get_any t (number n)
    get t (boolean b) = get_any t (boolean b)
    get t (light p) = get_any t (light p)
    get t (object a p) = get_any t (object a p)

  abbrev pub value_at : Table N → Option Slot → Value N
  value_at t none = nil
  value_at t (some (in_array i)) = t.array i
  value_at t (some (in_node n)) = (t.node n).i_val

  -- The caller's store into the slot.
  abbrev pub setobj : Table N → Slot → Value N → Table N
  setobj t (in_array i) v = record t { array = store t.array i v }
  setobj t (in_node n) v = record t { node = store t.node n (record (t.node n) { i_val = v }) }

  -- The loop of `getfreepos`: the new `lastfree`, and the free node, if there is one.
  unfoldable pub free_below : (ℕ → Node N) → ℕ → ℕ × Option ℕ
  unfolding ttisnil
  free_below node zero = (0, none)
  free_below node (suc l) =
      let rest = free_below node l in if ttisnil (node l).i_key then (l, some l) else rest

  -- `while (gnext(othern) != mp)`
  unfoldable pub find_prev : (ℕ → Node N) → ℕ → ℕ → ℕ → ℕ
  find_prev node mp zero n = n
  find_prev node mp (suc fuel) n = step_prev n mp (find_prev node mp fuel) (node n).next

  unfoldable pub set_key : ℕ → Value N → (ℕ → Node N) → ℕ → Node N
  set_key mp key node = store node mp (record (node mp) { i_key = key })

  -- The colliding node goes to `n`, and its predecessor points there.
  unfoldable pub move_colliding : (ℕ → Node N) → ℕ → ℕ → ℕ → ℕ → Node N
  move_colliding node prev mp n =
      let linked = store node prev (record (node prev) { next = some n }) in
      let copied = store linked n (linked mp) in
      store copied mp (record (copied mp) { next = none; i_val = nil })

  -- The new node `n` comes right behind its main position.
  unfoldable pub chain_new : (ℕ → Node N) → ℕ → ℕ → ℕ → Node N
  chain_new node mp n =
      let linked = store node n (record (node n) { next = (node mp).next }) in
      store linked mp (record (linked mp) { next = some n })

  abbrev pub with_key : Table N → Value N → (ℕ → Node N) × ℕ → Table N × ℕ
  with_key t key (node, p) = (record t { node = set_key p key node }, p)

  module _ (c : Numbers N) where
    -- A collision at `mp`, with the free node `n`: the nodes, and where the new key goes.
    unfoldable pub collide : Table N → ℕ → ℕ → (ℕ → Node N) × ℕ
    unfolding mainposition find_prev move_colliding chain_new
    collide t mp n =
        let othern = mainposition c (sizenode t) (t.node mp).i_key in
        if othern == mp
        then (chain_new t.node mp n, n)
        else (move_colliding t.node (find_prev t.node mp (sizenode t) othern) mp n, mp)

    unfoldable pub room : Table N → ℕ → Value N → ℕ × Option ℕ → Option (Table N × ℕ)
    unfolding collide set_key
    room t mp key (l, none) = none
    room t mp key (l, some n) = some (with_key (record t { lastfree = l }) key (collide t mp n))

    -- `newkey`, but for the rehash of a full table.
    unfoldable pub newkey : Table N → Value N → Option (Table N × ℕ)
    unfolding ttisnil mainposition room free_below set_key
    newkey t key =
        let mp = mainposition c (sizenode t) key in
        if not (ttisnil (t.node mp).i_val) || t.is_dummy
        then room t mp key (free_below t.node t.lastfree)
        else some (with_key t key (t.node, mp))

pub data SetError : Type 0 where
  index_is_nil index_is_nan : SetError

module _ {N : Type 0} where
  abbrev pub new_slot : Option (Table N × ℕ) → Option (Table N × Slot)
  new_slot none = none
  new_slot (some (t, p)) = some (t, in_node p)

  unfoldable pub is_nan : Numbers N → Value N → Bool
  is_nan c (number n) = c.isnan n
  is_nan c _ = false

  -- None for a table that is to be rehashed.
  unfoldable pub set_missing :
      Numbers N → Table N → Value N → Option Slot → Outcome SetError (Option (Table N × Slot))
  unfolding newkey is_nan
  set_missing c t key (some s) = ok (some (t, s))
  set_missing c t key none =
      if ttisnil key
      then error index_is_nil
      else if is_nan c key
      then error index_is_nan
      else ok (new_slot (newkey c t key))

  -- `gafqH_set`
  unfoldable pub set : Numbers N → Table N → Value N → Outcome SetError (Option (Table N × Slot))
  unfolding get set_missing
  set c t key = set_missing c t key (get c t key)

  abbrev found_or_new : Numbers N → Table N → Value N → Option Slot → Option (Table N × Slot)
  found_or_new c t key (some s) = some (t, s)
  found_or_new c t key none = new_slot (newkey c t key)

  -- `gafqH_setnum`
  unfoldable pub setnum : Numbers N → Table N → ℤ → Option (Table N × Slot)
  unfolding getnum newkey
  setnum c t k = found_or_new c t (number (c.cast_num k)) (getnum c t k)

  -- `gafqH_setstr`
  unfoldable pub setstr : Numbers N → Table N → ℕ → Option (Table N × Slot)
  unfolding getstr newkey
  setstr c t s = found_or_new c t (string s) (getstr c t s)
