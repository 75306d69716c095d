-- ===== src/Tables/Length.antt =====
-- The length of a table (`gafqH_getn`, gtable.c): a boundary between present and absent indices.
use gafq.Prelude.{
  ℕ, zero, suc, ◌+◌, ◌-◌, ◌*◌, ◌/◌, Bool, not, ◌&&◌, Option, none, some, if◌then◌else◌, ltb,
}
use gafq.Prelude.Int.{pos}
use gafq.Mem.{max_int}
use gafq.Tables.Values.{Numbers, Table, ttisnil, sizenode}
use gafq.Tables.Slots.{getnum, value_at}

-- `while (j - i > 1)`: the binary search between a present and an absent index; each round brings them
-- nearer, so that their distance is fuel enough.
unfoldable pub binary_search : (ℕ → Bool) → ℕ → ℕ → ℕ → ℕ
binary_search present zero i j = i
binary_search present (suc fuel) i j =
    let m = (i + j) / 2 in
    let right = binary_search present fuel m j in
    let left = binary_search present fuel i m in
    if ltb 1 (j - i) then (if present m then right else left) else i

-- `while (!ttisnil(gafqH_getnum(t, i))) i++`
unfoldable pub linear_search : (ℕ → Bool) → ℕ → ℕ → ℕ
linear_search present zero i = i - 1
linear_search present (suc fuel) i =
    let rest = linear_search present fuel (i + 1) in if present i then rest else i - 1

-- The loop that doubles `j`: a present and an absent index, or none if `j` becomes too large, which it
-- does within 32 rounds.
unfoldable pub double_search : (ℕ → Bool) → ℕ → ℕ → ℕ → Option (ℕ × ℕ)
double_search present zero i j = none
double_search present (suc fuel) i j =
    let rest = double_search present fuel j (j * 2) in
    if present j then (if ltb max_int (j * 2) then none else rest) else some (i, j)

module _ {N : Type 0} where
  -- Whether an index has a value.
  unfoldable pub is_present : Numbers N → Table N → ℕ → Bool
  unfolding ttisnil getnum
  is_present c t k = not (ttisnil (value_at t (getnum c t (pos k))))

  -- There are at most as many present indices as places in the table.
  abbrev pub found_range : (ℕ → Bool) → Table N → Option (ℕ × ℕ) → ℕ
  found_range present t none = linear_search present (t.sizearray + sizenode t + 1) 1
  found_range present t (some (i, j)) = binary_search present (j - i) i j

  unfoldable pub unbound_search : Numbers N → Table N → ℕ → ℕ
  unfolding is_present double_search
  unbound_search c t j =
      found_range (is_present c t) t (double_search (is_present c t) 32 j (j + 1))

  unfoldable pub array_present : Table N → ℕ → Bool
  unfolding ttisnil
  array_present t k = not (ttisnil (t.array (k - 1)))

  -- `gafqH_getn`
  unfoldable pub getn : Numbers N → Table N → ℕ
  unfolding binary_search array_present unbound_search
  getn c t =
      let j = t.sizearray in
      if ltb 0 j && not (array_present t j)
      then binary_search (array_present t) j 0 j
      else if t.is_dummy
      then j
      else unbound_search c t j
