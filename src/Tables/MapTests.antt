-- ===== src/Tables/MapTests.antt =====
-- Three strings in a table of four nodes: the second collides with the first, and the third finds the
-- second in its main position.
use gafq.Prelude.{
  ℕ, ◌+◌, ◌≤◌, ◌<◌, ◌^◌, ◌%◌, ◌≡◌, refl, sym, ap, Bool, true, false, ◌||◌, Option, none, some, ◌==◌,
  if◌then◌else◌, ltb, arith, Bool-cases, inl, inr,
}
use gafq.Prelude.Int.{ℤ, pos, negsuc}
use gafq.Prelude.Run.{Outcome, ok, error}
use gafq.Object.Numbers.{ceillog2, log2_loop, log_2}
use gafq.Tables.Values.{
  Numbers, Value, nil, boolean, number, string, Table, ttisnil, sizenode, rawequal_obj,
  mainposition, hashstr, hashnum, hashmod,
}
use gafq.Strings.{lmod}
use gafq.Tables.Slots.{
  place_of, index_is_nil, index_is_nan, Slot, in_node, search, get, getstr, getnum, get_any, setobj,
  SetError, set, set_missing, newkey, room, collide, free_below, find_prev, set_key, move_colliding,
  chain_new, is_nan, is_str, is_num, array_place, array_or,
}
use gafq.Tables.Laws.{LawfulNumbers, IsInt}
use gafq.Tables.Insert.{IsTable}
use gafq.Tables.Fresh.{new_table, setarrayvector, setnodevector, new_table-IsTable}
use gafq.Tables.Reads.{read}
use gafq.Tables.Maps.{set-get, set-refuses}
use gafq.Tables.Lookup.{get-any}
use gafq.Tables.Traversal.{next, next_from, findindex, first_value, key_at, Follows, next_lem}

-- Numbers that are integers.
abbrev pub same_int : ℤ → ℤ → Bool
same_int (pos a) (pos b) = a == b
same_int (negsuc a) (negsuc b) = a == b
same_int _ _ = false

abbrev pub int_part : ℤ → ℤ
int_part (pos a) = if ltb a (2 ^ 31) then pos a else pos 0
int_part (negsuc a) = if ltb a (2 ^ 31) then negsuc a else pos 0

abbrev pub low_word : ℤ → ℕ
low_word (pos a) = a % 2 ^ 32
low_word (negsuc a) = a % 2 ^ 32

abbrev pub integers : Numbers ℤ
integers = record {
  numeq = same_int;
  isnan = λ a. false;
  ints = low_word;
  to_int = int_part;
  cast_num = λ a. a;
  string_hash = λ s. s;
}

same_int-eq : (a b : ℤ) → same_int a b ≡ true → a ≡ b
same_int-eq (pos a) (pos b) e = ap (λ (x : ℕ). pos x) (ground arith)
same_int-eq (negsuc a) (negsuc b) e = ap (λ (x : ℕ). negsuc x) (ground arith)
same_int-eq (pos a) (negsuc b) e = cc
same_int-eq (negsuc a) (pos b) e = cc

same_int_refl : (a : ℤ) → same_int a a ≡ true
same_int_refl (pos a) = ground arith
same_int_refl (negsuc a) = ground arith

int_part-IsInt : (a : ℤ) → IsInt (int_part a)
int_part-IsInt (pos a) = elim (Bool-cases (ltb a (2 ^ 31))) [
  | inl e ↦ rw e (ground arith, omega arith)
  | inr e ↦ rw e (omega arith, omega arith)
]
int_part-IsInt (negsuc a) = elim (Bool-cases (ltb a (2 ^ 31))) [
  | inl e ↦ rw e (omega arith, ground arith)
  | inr e ↦ rw e (omega arith, omega arith)
]

int_part-int : (a : ℤ) → IsInt a → int_part a ≡ a
int_part-int (pos a) h = let e : ltb a (2 ^ 31) ≡ true = ground (arith, h.0) in rw e refl
int_part-int (negsuc a) h = let e : ltb a (2 ^ 31) ≡ true = ground (arith, h.1) in rw e refl

pub integers-LawfulNumbers : LawfulNumbers integers
integers-LawfulNumbers = record {
  symmetric = λ a b e. rw (same_int-eq a b e) (same_int_refl b);
  transitive = λ a b d e h. rw (same_int-eq a b e) h;
  reflexive = λ a h. same_int_refl a;
  not_nan = λ k. refl;
  nan_unequal = λ a b h. (let clash : true ≡ false = sym h in cc);
  same_ints = λ a b e h. ap low_word (same_int-eq a b e);
  to_int-IsInt = int_part-IsInt;
  exact = λ k a h e. rw (sym (same_int-eq k a e)) (int_part-int k h);
}

abbrev t0 : Table ℤ
t0 = record {
  sizearray = 2;
  array = λ i. if ltb i 0 then nil else nil;
  lsizenode = 2;
  is_dummy = false;
  node = λ i. record { i_val = nil; i_key = nil; next = none };
  lastfree = 4;
}

made : new_table 2 3 ≡ ok t0
unfolding new_table setarrayvector setnodevector ceillog2 log2_loop log_2
made = refl

t0-IsTable :
    IsTable integers t0
    × (t0.sizearray ≡ 2)
    × (3 ≤ sizenode t0)
    × (read integers t0 (string 7) ≡ nil)
t0-IsTable = new_table-IsTable integers integers-LawfulNumbers 2 3 t0 (string 7) (omega arith) made

abbrev pub slot_or : Outcome SetError (Option (Table ℤ × Slot)) → Table ℤ → Table ℤ × Slot
slot_or (ok (some r)) t = r
slot_or _ t = (t, in_node 0)

abbrev pub slot_for : Table ℤ → Value ℤ → Table ℤ × Slot
slot_for t key = slot_or (set integers t key) t

abbrev t1 : Table ℤ
t1 = setobj (slot_for t0 (string 1)).0 (slot_for t0 (string 1)).1 (boolean true)

abbrev t2 : Table ℤ
t2 = setobj (slot_for t1 (string 5)).0 (slot_for t1 (string 5)).1 (boolean false)

set_first : set integers t0 (string 1) ≡ ok (some (slot_for t0 (string 1)))
unfolding set set_missing get getstr getnum get_any array_or array_place search is_str is_num is_nan
    ttisnil newkey room collide free_below find_prev set_key move_colliding chain_new mainposition
    hashstr hashnum hashmod lmod rawequal_obj
set_first = refl

set_second : set integers t1 (string 5) ≡ ok (some (slot_for t1 (string 5)))
unfolding set set_missing get getstr getnum get_any array_or array_place search is_str is_num is_nan
    ttisnil newkey room collide free_below find_prev set_key move_colliding chain_new mainposition
    hashstr hashnum hashmod lmod rawequal_obj
set_second = refl

set_third : set integers t2 (string 3) ≡ ok (some (slot_for t2 (string 3)))
unfolding set set_missing get getstr getnum get_any array_or array_place search is_str is_num is_nan
    ttisnil newkey room collide free_below find_prev set_key move_colliding chain_new mainposition
    hashstr hashnum hashmod lmod rawequal_obj
set_third = refl

-- The third key takes the place of the second, which moves.
third_slot : (slot_for t2 (string 3)).1 ≡ in_node 3
unfolding set set_missing get getstr getnum get_any array_or array_place search is_str is_num is_nan
    ttisnil newkey room collide free_below find_prev set_key move_colliding chain_new mainposition
    hashstr hashnum hashmod lmod rawequal_obj
third_slot = refl

t2-IsTable : IsTable integers t2
t2-IsTable =
    (set-get integers integers-LawfulNumbers t1 (slot_for t1 (string 5)).0 (string 5)
      (boolean false) nil (slot_for t1 (string 5)).1
      (set-get integers integers-LawfulNumbers t0 (slot_for t0 (string 1)).0 (string 1)
        (boolean true) nil (slot_for t0 (string 1)).1
        (new_table-IsTable integers integers-LawfulNumbers 2 3 t0 nil (omega arith) made).0
        set_first).0
      set_second).0

set-get_example :
    IsTable integers (setobj (slot_for t2 (string 3)).0 (slot_for t2 (string 3)).1 (number (pos 9)))
    × (read integers
          (setobj (slot_for t2 (string 3)).0 (slot_for t2 (string 3)).1 (number (pos 9)))
          (string 5)
        ≡ (if rawequal_obj integers (string 3) (string 5)
            then number (pos 9)
            else read integers t2 (string 5)))
set-get_example =
    set-get integers integers-LawfulNumbers t2 (slot_for t2 (string 3)).0 (string 3)
      (number (pos 9)) (string 5) (slot_for t2 (string 3)).1 t2-IsTable set_third

number_used : ttisnil (number (pos 2)) ≡ false
unfolding ttisnil
number_used = refl

nil_refused : (ttisnil {N = ℤ} nil || is_nan integers nil) ≡ true
unfolding ttisnil
nil_refused = refl

third_used : ttisnil (key_at integers t2 3) ≡ false
unfolding set set_missing get getstr getnum get_any array_or array_place search is_str is_num is_nan
    ttisnil newkey room collide free_below find_prev set_key move_colliding chain_new mainposition
    hashstr hashnum hashmod lmod rawequal_obj
third_used = refl

-- From nil to the first key, to the second, to the end.
traversed :
    (next integers t2 nil ≡ ok (some (string 1, boolean true)))
    × (next integers t2 (string 1) ≡ ok (some (string 5, boolean false)))
    × (next integers t2 (string 5) ≡ ok none)
unfolding set set_missing get getstr getnum get_any array_or array_place search is_str is_num is_nan
    ttisnil newkey room collide free_below find_prev set_key move_colliding chain_new mainposition
    hashstr hashnum hashmod lmod rawequal_obj next next_from findindex place_of first_value
traversed = (refl, refl, refl)

get-any_example :
    get integers t2 (number (pos 2))
    ≡ array_or
        (place_of integers t2.sizearray (number (pos 2)))
        (get_any integers t2 (number (pos 2)))
get-any_example = get-any integers integers-LawfulNumbers t2 (number (pos 2)) number_used

set-refuses_example :
    set integers t2 nil ≡ error (if ttisnil {N = ℤ} nil then index_is_nil else index_is_nan)
set-refuses_example = set-refuses integers integers-LawfulNumbers t2 nil nil_refused

t2_small : t2.sizearray < 2 ^ 31
unfolding set set_missing get getstr getnum get_any array_or array_place search is_str is_num is_nan
    ttisnil newkey room collide free_below find_prev set_key move_colliding chain_new mainposition
    hashstr hashnum hashmod lmod rawequal_obj
t2_small = omega arith

next_lem_example :
    Follows integers t2 0 (next integers t2 nil)
    × Follows integers t2 (3 + 1) (next integers t2 (key_at integers t2 3))
next_lem_example = next_lem integers integers-LawfulNumbers t2 3 t2-IsTable t2_small third_used
