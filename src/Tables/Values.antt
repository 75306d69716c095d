-- ===== src/Tables/Values.antt =====
-- Values, and the nodes and tables that hold them (gobject.h), raw equality (gobject.c), and the main
-- position of a key (gtable.c).
use gafq.Prelude.{
  ℕ, ◌-◌, ◌%◌, ◌^◌, Bool, true, false, not, ◌&&◌, Option, bit_or, ◌==◌, if◌then◌else◌,
}
use gafq.Prelude.Int.{ℤ, pos}
use gafq.Strings.{lmod}

-- What the tables ask of the C type double: `numeq` is gafqi_numeq, `isnan` is gafqi_numisnan, `ints` is
-- the sum of the `int`s that a number is made of, `to_int` is gafq_number2int, `cast_num` its inverse.
pub record Numbers (N : Type 0) : Type 0 where
  pub numeq : N → N → Bool
  pub isnan : N → Bool
  pub ints : N → ℕ
  pub to_int : N → ℤ
  pub cast_num : ℤ → N
  -- The hash that the string at an address keeps.
  pub string_hash : ℕ → ℕ

-- Strings, light userdata and collectable objects are addresses; an object has its type, too.
pub data Value (N : Type 0) : Type 0 where
  nil : Value N
  boolean : Bool → Value N
  light : ℕ → Value N
  number : N → Value N
  string : ℕ → Value N
  object : ℕ → ℕ → Value N

pub record Node (N : Type 0) : Type 0 where
  pub i_val : Value N
  pub i_key : Value N
  pub next : Option ℕ

-- Positions of nodes for pointers to them; `is_dummy` is `node == dummynode`.
pub record Table (N : Type 0) : Type 0 where
  pub sizearray : ℕ
  pub array : ℕ → Value N
  pub lsizenode : ℕ
  pub is_dummy : Bool
  pub node : ℕ → Node N
  pub lastfree : ℕ

abbrev pub bool_eq : Bool → Bool → Bool
bool_eq true b = b
bool_eq false b = not b

abbrev pub bvalue : Bool → ℕ
bvalue b = if b then 1 else 0

-- Positions in a node array of a given size, a power of 2.
unfoldable pub hashmod : ℕ → ℕ → ℕ
hashmod size n = n % bit_or (size - 1) 1

module _ {N : Type 0} where
  unfoldable pub ttisnil : Value N → Bool
  ttisnil nil = true
  ttisnil _ = false

  -- `sizenode`
  abbrev pub sizenode : Table N → ℕ
  sizenode t = 2 ^ t.lsizenode

  module _ (c : Numbers N) where
    -- `gafqO_rawequalObj`
    unfoldable pub rawequal_obj : Value N → Value N → Bool
    rawequal_obj nil nil = true
    rawequal_obj (number n) (number m) = c.numeq n m
    rawequal_obj (boolean a) (boolean b) = bool_eq a b
    rawequal_obj (light p) (light q) = p == q
    rawequal_obj (string p) (string q) = p == q
    rawequal_obj (object a p) (object b q) = a == b && p == q
    rawequal_obj _ _ = false

    unfoldable pub hashnum : ℕ → N → ℕ
    unfolding hashmod
    hashnum size n = if c.numeq n (c.cast_num (pos 0)) then 0 else hashmod size (c.ints n)

    unfoldable pub hashstr : ℕ → ℕ → ℕ
    hashstr size s = lmod (c.string_hash s) size

    -- `IntPoint` keeps 32 bits of an address.
    unfoldable pub hashpointer : ℕ → ℕ → ℕ
    unfolding hashmod
    hashpointer size p = hashmod size (p % 2 ^ 32)

    -- No key is nil; the C code would take nil for an object.
    unfoldable pub mainposition : ℕ → Value N → ℕ
    unfolding hashnum hashstr hashpointer
    mainposition size nil = 0
    mainposition size (number n) = hashnum size n
    mainposition size (string s) = hashstr size s
    mainposition size (boolean b) = lmod (bvalue b) size
    mainposition size (light p) = hashpointer size p
    mainposition size (object a p) = hashpointer size p
