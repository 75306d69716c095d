-- ===== src/Tables/LengthTests.antt =====
-- The length of a table with the indices 1 and 2, both in nodes.
use gafq.Prelude.{◌+◌, ◌<◌, ◌^◌, ◌≡◌, refl, true, false, none, some, ltb, if◌then◌else◌, arith}
use gafq.Prelude.Int.{ℤ, pos}
use gafq.Prelude.Run.{ok}
use gafq.Object.Numbers.{ceillog2, log2_loop, log_2}
use gafq.Strings.{lmod}
use gafq.Tables.Values.{
  Value, nil, boolean, number, Table, ttisnil, sizenode, rawequal_obj, mainposition, hashnum,
  hashstr, hashmod,
}
use gafq.Tables.Slots.{
  set, set_missing, get, getstr, getnum, get_any, array_or, array_place, search, is_str, is_num,
  is_nan, newkey, room, collide, free_below, find_prev, set_key, move_colliding, chain_new, setobj,
}
use gafq.Tables.Insert.{IsTable}
use gafq.Tables.Fresh.{new_table, setarrayvector, setnodevector, new_table-IsTable}
use gafq.Tables.Maps.{set-get}
use gafq.Tables.Length.{
  getn, is_present, unbound_search, double_search, binary_search, linear_search, array_present,
}
use gafq.Tables.Searches.{IsBoundary}
use gafq.Tables.Boundary.{getn-IsBoundary}
use gafq.Tables.MapTests.{integers, integers-LawfulNumbers, slot_for}

abbrev t0 : Table ℤ
t0 = record {
  sizearray = 0;
  array = λ i. if ltb i 0 then nil else nil;
  lsizenode = 1;
  is_dummy = false;
  node = λ i. record { i_val = nil; i_key = nil; next = none };
  lastfree = 2;
}

made : new_table 0 2 ≡ ok t0
unfolding new_table setarrayvector setnodevector ceillog2 log2_loop log_2
made = refl

abbrev one : Value ℤ
one = number (pos 1)

abbrev two : Value ℤ
two = number (pos 2)

abbrev t1 : Table ℤ
t1 = setobj (slot_for t0 one).0 (slot_for t0 one).1 (boolean true)

abbrev t2 : Table ℤ
t2 = setobj (slot_for t1 two).0 (slot_for t1 two).1 (boolean true)

set-one : set integers t0 one ≡ ok (some (slot_for t0 one))
unfolding set set_missing get getstr getnum get_any array_or array_place search is_str is_num is_nan
    ttisnil newkey room collide free_below find_prev set_key move_colliding chain_new mainposition
    hashstr hashnum hashmod lmod rawequal_obj
set-one = refl

set-two : set integers t1 two ≡ ok (some (slot_for t1 two))
unfolding set set_missing get getstr getnum get_any array_or array_place search is_str is_num is_nan
    ttisnil newkey room collide free_below find_prev set_key move_colliding chain_new mainposition
    hashstr hashnum hashmod lmod rawequal_obj
set-two = refl

t2-IsTable : IsTable integers t2
t2-IsTable =
    (set-get integers integers-LawfulNumbers t1 (slot_for t1 two).0 two (boolean true) nil
      (slot_for t1 two).1
      (set-get integers integers-LawfulNumbers t0 (slot_for t0 one).0 one (boolean true) nil
        (slot_for t0 one).1
        (new_table-IsTable integers integers-LawfulNumbers 0 2 t0 nil (omega arith) made).0
        set-one).0
      set-two).0

t2_small : t2.sizearray + sizenode t2 + 1 < 2 ^ 31
unfolding set set_missing get getstr getnum get_any array_or array_place search is_str is_num is_nan
    ttisnil newkey room collide free_below find_prev set_key move_colliding chain_new mainposition
    hashstr hashnum hashmod lmod rawequal_obj
t2_small = omega arith

t2_length : getn integers t2 ≡ 2
unfolding set set_missing get getstr getnum get_any array_or array_place search is_str is_num is_nan
    ttisnil newkey room collide free_below find_prev set_key move_colliding chain_new mainposition
    hashstr hashnum hashmod lmod rawequal_obj getn is_present unbound_search double_search
    binary_search linear_search array_present
t2_length = refl

getn-IsBoundary_example : IsBoundary (is_present integers t2) (getn integers t2)
getn-IsBoundary_example = getn-IsBoundary integers t2 integers-LawfulNumbers t2-IsTable t2_small
