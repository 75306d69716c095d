-- ===== src/Tables.antt =====
-- Tables (gtable.c): the size of the array part that a rehash chooses; the children have the rest.
pub mod Sizes
pub mod Values
pub mod Slots
pub mod Chains
pub mod Linked
pub mod Placed
pub mod Laws
pub mod Newkey
pub mod Insert
pub mod Lookup
pub mod Fresh
pub mod Revalued
pub mod Reads
pub mod Maps
pub mod Traversal
pub mod Length
pub mod Searches
pub mod Places
pub mod Boundary
mod Tests
mod MapTests
mod LengthTests
use gafq.Prelude.{ℕ, zero, suc, ◌+◌, ◌*◌, ◌/◌, Bool, true, false, ltb, ◌==◌, if◌then◌else◌}

-- The variables `a`, `na` and `n` of the loop of `computesizes`.
pub record SizeCount : Type 0 where
  pub a : ℕ
  pub na : ℕ
  pub n : ℕ

-- The body of the loop up to its `break`: `count` is `nums[i]`.
unfoldable pub count_slice : ℕ → ℕ → SizeCount → SizeCount
count_slice count twotoi s =
    if ltb 0 count
    then (if ltb (twotoi / 2) (s.a + count)
        then record { a = s.a + count; na = s.a + count; n = twotoi }
        else record s { a = s.a + count })
    else s

-- `MAXBITS`; `nums` has one slice more.
abbrev pub maxbits : ℕ
maxbits = 26

-- The loop ends by its test after at most `MAXBITS` + 1 rounds, as there are 2 ^ `MAXBITS` keys at most.
unfoldable pub computesizes_loop : (ℕ → ℕ) → ℕ → ℕ → ℕ → ℕ → SizeCount → SizeCount
computesizes_loop nums narray zero i twotoi s = s
computesizes_loop nums narray (suc fuel) i twotoi s =
    let s' = count_slice (nums i) twotoi s in
    let rest = computesizes_loop nums narray fuel (suc i) (twotoi * 2) s' in
    if ltb (twotoi / 2) narray then (if s'.a == narray then s' else rest) else s

-- `computesizes`: the number of elements that go to the array part, and its size.
unfoldable pub computesizes : (ℕ → ℕ) → ℕ → ℕ × ℕ
computesizes nums narray =
    let s = computesizes_loop nums narray (maxbits + 2) 0 1 (record { a = 0; na = 0; n = 0 }) in
    (s.na, s.n)
