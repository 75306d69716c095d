-- ===== src/Closures/Tests.antt =====
-- Upvalues (gfunc.c) at a small stack.
use gafq.Prelude.{ℕ, zero, suc, ◌+◌, ◌≡◌, refl, true, some, [], ◌∷◌}
use gafq.Closures.{
  UpVal, State, isdead, isgray, makewhite, link_open, new_open, freeupval, unlinkupval, own_value,
  linkupval, close_one, close_loop, close,
}

-- An upvalue for the slot 5, which is dead, and one for the slot 2.
abbrev open_at : ℕ → UpVal ℕ
open_at zero = record { marked = 2; v = some 5; value = 0 }
open_at (suc p) = record { marked = 1; v = some 2; value = 0 }

abbrev two_open : State ℕ
two_open = record {
  stack = λ i. i + 100;
  upval = open_at;
  openupval = 0 ∷ 1 ∷ [];
  uvhead = 1 ∷ 0 ∷ [];
  rootgc = [];
  barriers = [];
  freed = [];
  currentwhite = 33;
  propagates = true;
}

-- A new upvalue for the slot 3 stands between the two.
abbrev three_open : State ℕ
unfolding new_open
three_open = new_open 7 3 0 two_open

three_open-chain : three_open.openupval ≡ 0 ∷ 7 ∷ 1 ∷ []
unfolding new_open link_open
three_open-chain = refl

-- The dead one is given back, the new one gets the value of its slot.
close_runs :
    ((close 3 three_open).openupval ≡ 1 ∷ [])
    × ((close 3 three_open).freed ≡ 0 ∷ [])
    × ((close 3 three_open).rootgc ≡ 7 ∷ [])
    × (((close 3 three_open).upval 7).value ≡ 103)
unfolding close close_loop close_one new_open link_open isdead freeupval unlinkupval own_value
    linkupval isgray makewhite
close_runs = (refl, refl, refl, refl)
