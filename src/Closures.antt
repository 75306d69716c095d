-- ===== src/Closures.antt =====
-- Upvalues (gfunc.c): the variables that closures share with the stack while these live there, and
-- keep themselves afterwards.
pub mod Shared
pub mod Closed
mod Tests
use gafq.Prelude.{
  ℕ, ◌<◌, ◌≡◌, Bool, true, false, not, ◌&&◌, Option, none, some, List, [], ◌∷◌, ◌==◌, leb,
  if◌then◌else◌, bit_and, bit_or, bit_xor, store,
}
use gafq.Prelude.Distinct.{without}

-- `UpVal`: `v` is the slot of the stack that it points to, none for its own value.
pub record UpVal (V : Type 0) : Type 0 where
  pub marked : ℕ
  pub v : Option ℕ
  pub value : V

-- What the operations use of a thread and of the global state. `openupval` and `rootgc` have the
-- addresses in the order of their `next`, `uvhead` in that of the doubly linked list. `barriers` are
-- the upvalues handed to `gafqC_barrier`, `freed` those given back.
pub record State (V : Type 0) : Type 0 where
  pub stack : ℕ → V
  pub upval : ℕ → UpVal V
  pub openupval : List ℕ
  pub uvhead : List ℕ
  pub rootgc : List ℕ
  pub barriers : List ℕ
  pub freed : List ℕ
  pub currentwhite : ℕ
  pub propagates : Bool

abbrev pub whitebits : ℕ
whitebits = 3

abbrev pub blackbit : ℕ
blackbit = 4

unfoldable pub isdead : ℕ → ℕ → Bool
isdead currentwhite marked =
    not (bit_and (bit_and marked (bit_xor currentwhite whitebits)) whitebits == 0)

unfoldable pub changewhite : ℕ → ℕ
changewhite marked = bit_xor marked whitebits

unfoldable pub isgray : ℕ → Bool
isgray marked = bit_and marked blackbit == 0 && bit_and marked whitebits == 0

-- `makewhite`: `maskmarks` is all bits but those of the colours.
unfoldable pub makewhite : ℕ → ℕ → ℕ
makewhite currentwhite marked = bit_or (bit_and marked 248) (bit_and currentwhite whitebits)

-- `p->v >= level`, where open upvalues point into the stack.
abbrev pub reaches : ℕ → Option ℕ → Bool
reaches level none = false
reaches level (some l) = leb level l

abbrev pub points_to : ℕ → Option ℕ → Bool
points_to level none = false
points_to level (some l) = l == level

abbrev pub is_open : Option ℕ → Bool
is_open none = false
is_open (some l) = true

module _ {V : Type 0} where
  -- The loop of `gafqF_findupval`: the upvalue that it returns.
  unfoldable pub lookup_open : (ℕ → UpVal V) → ℕ → List ℕ → Option ℕ
  lookup_open u level [] = none
  lookup_open u level (p ∷ ps) =
      let rest = lookup_open u level ps in
      if reaches level (u p).v then (if points_to level (u p).v then some p else rest) else none

  -- The list with a new upvalue where the loop leaves `pp`.
  unfoldable pub link_open : (ℕ → UpVal V) → ℕ → ℕ → List ℕ → List ℕ
  link_open u level uv [] = uv ∷ []
  link_open u level uv (p ∷ ps) =
      let rest = link_open u level uv ps in if reaches level (u p).v then p ∷ rest else uv ∷ p ∷ ps

  -- `if (isdead(g, obj2gco(p))) changewhite(obj2gco(p))`
  unfoldable pub resurrect : ℕ → State V → State V
  unfolding isdead changewhite
  resurrect p s =
      if isdead s.currentwhite (s.upval p).marked
      then record s {
        upval = store s.upval p (record (s.upval p) { marked = changewhite (s.upval p).marked });
      }
      else s

  unfoldable pub new_open : ℕ → ℕ → V → State V → State V
  unfolding link_open
  new_open uv level value s = record s {
    upval =
        store s.upval uv
          (record { marked = bit_and s.currentwhite whitebits; v = some level; value = value });
    openupval = link_open s.upval level uv s.openupval;
    uvhead = uv ∷ s.uvhead;
  }

  -- The block is what the allocator returns, with the value that happens to be in it; without one
  -- there is a memory error.
  abbrev pub found_or_new : Option ℕ → Option (ℕ × V) → ℕ → State V → Option (ℕ × State V)
  found_or_new (some p) block level s = some (p, resurrect p s)
  found_or_new none none level s = none
  found_or_new none (some (uv, value)) level s = some (uv, new_open uv level value s)

  -- `gafqF_findupval`
  unfoldable pub findupval : Option (ℕ × V) → ℕ → State V → Option (ℕ × State V)
  unfolding lookup_open
  findupval block level s = found_or_new (lookup_open s.upval level s.openupval) block level s

  unfoldable pub unlinkupval : ℕ → State V → State V
  unlinkupval uv s = record s { uvhead = without uv s.uvhead }

  -- `gafqF_freeupval`
  unfoldable pub freeupval : ℕ → State V → State V
  unfolding unlinkupval
  freeupval uv s =
      let s1 = if is_open (s.upval uv).v then unlinkupval uv s else s in
      record s1 { freed = uv ∷ s1.freed }

  abbrev pub target : State V → UpVal V → Option ℕ → V
  target s u none = u.value
  target s u (some l) = s.stack l

  -- What a closure reads through an upvalue: `*uv->v`.
  abbrev pub upvalue : State V → ℕ → V
  upvalue s p = target s (s.upval p) (s.upval p).v

  -- The value moves into the upvalue.
  unfoldable pub own_value : ℕ → State V → State V
  own_value uv s = record s {
    upval = store s.upval uv (record (s.upval uv) { v = none; value = upvalue s uv });
  }

  abbrev pub mark : ℕ → ℕ → State V → State V
  mark uv marked s = record s { upval = store s.upval uv (record (s.upval uv) { marked = marked }) }

  -- `gafqC_linkupval`
  unfoldable pub linkupval : ℕ → State V → State V
  unfolding isgray makewhite
  linkupval uv s =
      let s1 : State V = record s { rootgc = uv ∷ s.rootgc } in
      let m = (s.upval uv).marked in
      if isgray m
      then (if s.propagates
          then mark uv (bit_or m blackbit) (record s1 { barriers = uv ∷ s1.barriers })
          else mark uv (makewhite s.currentwhite m) s1)
      else s1

  -- A round of `gafqF_close`: the first open upvalue, and those behind it.
  unfoldable pub close_one : ℕ → List ℕ → State V → State V
  unfolding isdead freeupval unlinkupval own_value linkupval
  close_one uv next s =
      let s1 : State V = record s { openupval = next } in
      if isdead s.currentwhite (s.upval uv).marked
      then freeupval uv s1
      else linkupval uv (own_value uv (unlinkupval uv s1))

  unfoldable pub close_loop : ℕ → List ℕ → State V → State V
  unfolding close_one
  close_loop level [] s = s
  close_loop level (uv ∷ next) s =
      let rest = close_loop level next (close_one uv next s) in
      if reaches level (s.upval uv).v then rest else s

  -- `gafqF_close`
  unfoldable pub close : ℕ → State V → State V
  unfolding close_loop
  close level s = close_loop level s.openupval s

  -- The open upvalues point to ever lower slots, all below `top`.
  abbrev pub Descends : (ℕ → UpVal V) → ℕ → List ℕ → Type 0
  Descends u top [] = Unit
  Descends u top (p ∷ ps) = (l : ℕ) × ((u p).v ≡ some l) × (l < top) × Descends u l ps
