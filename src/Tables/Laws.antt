-- ===== src/Tables/Laws.antt =====
-- What the tables rely on of the C type double, and what follows for keys: equal keys have the same main
-- position, and every main position is in the node array.
use gafq.Prelude.{
  ℕ, zero, suc, ◌+◌, ◌-◌, ◌*◌, ◌%◌, ◌^◌, ◌≤◌, ◌<◌, ◌≡◌, refl, sym, ◌∙◌, ap, true, false, bit_or,
  inl, inr, Bool-cases, arith,
}
use gafq.Prelude.Bits.{bit_and_mask, bit_or_split, bit_or-zero}
use gafq.Prelude.Int.{ℤ, pos, pos_part, neg_part}
use native.Mathlib.Nat.{pow-suc, one-le-pow, mod-lt}
use gafq.Strings.{lmod}
use gafq.Tables.Values.{
  Numbers, Value, nil, boolean, light, number, string, object, ttisnil, hashmod, rawequal_obj,
  hashnum, hashstr, hashpointer, mainposition, bvalue,
}
use gafq.Tables.Placed.{LawfulKeys}

-- A C `int`.
abbrev pub IsInt : ℤ → Type 0
IsInt k = (pos_part k < 2 ^ 31) × (neg_part k ≤ 2 ^ 31)

-- Equality of numbers is one but for NaN; equal numbers are made of the same `int`s unless they are
-- zero; an `int` is exact as a number.
pub record LawfulNumbers {N : Type 0} (c : Numbers N) : Type 0 where
  pub symmetric : (a b : N) → c.numeq a b ≡ true → c.numeq b a ≡ true
  pub transitive : (a b d : N) → c.numeq a b ≡ true → c.numeq b d ≡ true → c.numeq a d ≡ true
  pub reflexive : (a : N) → c.isnan a ≡ false → c.numeq a a ≡ true
  pub not_nan : (k : ℤ) → c.isnan (c.cast_num k) ≡ false
  pub nan_unequal : (a b : N) → c.isnan a ≡ true → c.numeq b a ≡ false
  pub same_ints :
      (a b : N) → c.numeq a b ≡ true → c.numeq a (c.cast_num (pos 0)) ≡ false → c.ints a ≡ c.ints b
  pub to_int-IsInt : (a : N) → IsInt (c.to_int a)
  pub exact : (k : ℤ) (a : N) → IsInt k → c.numeq (c.cast_num k) a ≡ true → c.to_int a ≡ k

positive : (m : ℕ) → 1 ≤ m → 0 < m
positive m h = h

hashmod_below : (k n : ℕ) → hashmod (2 ^ k) n < 2 ^ k
unfolding hashmod
hashmod_below zero n = omega arith
hashmod_below (suc k) n =
    let odd : (2 ^ k - 1) * 2 + 1 ≡ 2 ^ suc k - 1 = omega (arith, pow-suc 2 k, one-le-pow k 2) in
    let same : bit_or (2 ^ suc k - 1) 1 ≡ 2 ^ suc k - 1 =
      ap (λ (x : ℕ). bit_or x 1) (sym odd)
      ∙ bit_or_split 1 (2 ^ k - 1) 0 1 1 (omega arith) (omega arith)
      ∙ ap (λ (x : ℕ). x * 2 ^ 1 + bit_or 1 1) (bit_or-zero (2 ^ k - 1))
      ∙ odd in
    rw same (
      omega (
        arith,
        mod-lt n (positive (2 ^ suc k - 1) (omega (arith, pow-suc 2 k, one-le-pow k 2))),
        pow-suc 2 k,
        one-le-pow k 2,
      ))

lmod_below : (k n : ℕ) → lmod n (2 ^ k) < 2 ^ k
unfolding lmod
lmod_below k n = rw (bit_and_mask k n) (mod-lt n (one-le-pow k 2 (omega arith)))

module _ {N : Type 0} (c : Numbers N) where
  main_below : (k : ℕ) (a : Value N) → mainposition c (2 ^ k) a < 2 ^ k
  unfolding mainposition hashnum hashstr hashpointer
  main_below k nil = omega (arith, one-le-pow k 2)
  main_below k (number n) = elim (Bool-cases (c.numeq n (c.cast_num (pos 0)))) [
    | inl e ↦ rw e (omega (arith, one-le-pow k 2))
    | inr e ↦ rw e (hashmod_below k (c.ints n))
  ]
  main_below k (string s) = lmod_below k (c.string_hash s)
  main_below k (boolean b) = lmod_below k (bvalue b)
  main_below k (light p) = hashmod_below k (p % 2 ^ 32)
  main_below k (object a p) = hashmod_below k (p % 2 ^ 32)

  module _ (laws : LawfulNumbers c) where
    equal_symmetric : (a b : Value N) → rawequal_obj c a b ≡ true → rawequal_obj c b a ≡ true
    unfolding rawequal_obj
    equal_symmetric nil nil e = e
    equal_symmetric (number a) (number b) e = laws.symmetric a b e
    equal_symmetric (boolean true) (boolean true) e = e
    equal_symmetric (boolean false) (boolean false) e = e
    equal_symmetric (light a) (light b) e = ground arith
    equal_symmetric (string a) (string b) e = ground arith
    equal_symmetric (object a p) (object b q) e = ground arith
    equal_symmetric _ _ e = cc

    equal_transitive :
        (a b d : Value N)
        → rawequal_obj c a b ≡ true
        → rawequal_obj c b d ≡ true
        → rawequal_obj c a d ≡ true
    unfolding rawequal_obj
    equal_transitive nil nil d e h = h
    equal_transitive (number a) (number b) (number d) e h = laws.transitive a b d e h
    equal_transitive (boolean true) (boolean true) d e h = h
    equal_transitive (boolean false) (boolean false) d e h = h
    equal_transitive (light a) (light b) (light d) e h = ground arith
    equal_transitive (string a) (string b) (string d) e h = ground arith
    equal_transitive (object a p) (object b q) (object d r) e h = ground arith
    equal_transitive (number a) (number b) _ e h = cc
    equal_transitive (light a) (light b) _ e h = cc
    equal_transitive (string a) (string b) _ e h = cc
    equal_transitive (object a p) (object b q) _ e h = cc
    equal_transitive _ _ d e h = cc

    not_zero :
        (a b : N)
        → c.numeq a b ≡ true
        → c.numeq a (c.cast_num (pos 0)) ≡ false
        → c.numeq b (c.cast_num (pos 0)) ≡ false
    not_zero a b e na = elim (Bool-cases (c.numeq b (c.cast_num (pos 0)))) [
      | inl zb ↦
          let clash : true ≡ false = sym (laws.transitive a b (c.cast_num (pos 0)) e zb) ∙ na in cc
      | inr nb ↦ nb
    ]

    -- Equal keys have the same main position.
    pub equal_main :
        (size : ℕ) (a b : Value N)
        → rawequal_obj c a b ≡ true
        → mainposition c size a ≡ mainposition c size b
    unfolding rawequal_obj mainposition hashnum hashstr hashpointer
    equal_main size nil nil e = refl
    equal_main size (number a) (number b) e = elim (Bool-cases (c.numeq a (c.cast_num (pos 0)))) [
      | inl za ↦
          let zb = laws.transitive b a (c.cast_num (pos 0)) (laws.symmetric a b e) za in
          rw (za, zb) refl
      | inr na ↦
          let nb = not_zero a b e na in
          rw (na, nb) (ap (λ (x : ℕ). hashmod size x) (laws.same_ints a b e na))
    ]
    equal_main size (boolean true) (boolean true) e = refl
    equal_main size (boolean false) (boolean false) e = refl
    equal_main size (light p) (light q) e = ap (λ (x : ℕ). hashmod size (x % 2 ^ 32)) (ground arith)
    equal_main size (string p) (string q) e =
        ap (λ (x : ℕ). lmod (c.string_hash x) size) (ground arith)
    equal_main size (object a p) (object b q) e =
        ap (λ (x : ℕ). hashmod size (x % 2 ^ 32)) (ground arith)
    equal_main size _ _ e = cc

    not_nil : (a b : Value N) → ttisnil b ≡ false → rawequal_obj c a b ≡ true → ttisnil a ≡ false
    unfolding rawequal_obj ttisnil
    not_nil nil nil h e = h
    not_nil nil _ h e = cc
    not_nil _ b h e = refl

    pub keys-LawfulKeys : (k : ℕ) → LawfulKeys (2 ^ k) (mainposition c (2 ^ k)) (rawequal_obj c)
    keys-LawfulKeys k = record {
      symmetric = equal_symmetric;
      transitive = equal_transitive;
      same_main = equal_main (2 ^ k);
      not_nil = not_nil;
      below = main_below k;
    }
