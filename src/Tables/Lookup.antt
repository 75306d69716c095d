-- ===== src/Tables/Lookup.antt =====
-- Reading and writing of tables (gtable.c) against a finite map: what `gafqH_set` stores under a key,
-- `gafqH_get` reads under every equal key, and under the others what it read before.
use gafq.Prelude.{
  ℕ, suc, ◌-◌, ◌≡◌, ◌≢◌, refl, sym, ◌∙◌, ap, inl, inr, Bool, true, false, some, ltb, leb,
  Bool-cases, arith,
}
use mathlib.Core.Path.{subst, fun_ext}
use gafq.Prelude.Int.{ℤ, pos, negsuc}
use gafq.Tables.Values.{
  Numbers, Value, nil, boolean, light, number, string, object, Node, Table, ttisnil, sizenode,
  rawequal_obj, hashnum, hashstr, mainposition,
}
use gafq.Tables.Slots.{
  node_slot, array_place, array_or, place_of, search, is_num, is_str, getnum, getstr, get_any, get,
}
use gafq.Tables.Laws.{LawfulNumbers, equal_main}
use gafq.Tables.Chains.{some_inj}

array_place-pos : (size i : ℕ) (k : ℤ) → array_place size k ≡ some i → k ≡ pos (suc i)
unfolding array_place
array_place-pos size i (negsuc k) e = cc
array_place-pos size i (pos k) e = elim (Bool-cases (ltb 0 k)) [
  | inr off ↦ let clash = rw off at e in cc
  | inl above ↦ elim (Bool-cases (leb k size)) [
    | inr off ↦ let clash = rw (above, off) at e in cc
    | inl below ↦
        let same : k - 1 ≡ i = some_inj (rw (above, below) at e) in
        ap (λ (x : ℕ). pos x) (ground arith)
  ]
]

module _ {N : Type 0} (c : Numbers N) where
  search-cong :
      (node : ℕ → Node N) (f g : Value N → Bool) (size a : ℕ)
      → ((k : Value N) → f k ≡ g k)
      → search node f size a ≡ search node g size a
  search-cong node f g size a same =
      ap (λ (h : Value N → Bool). search node h size a) (fun_ext same)

  module _ (laws : LawfulNumbers c) where
    pub same_bool : (a b : Bool) → (a ≡ true → b ≡ true) → (b ≡ true → a ≡ true) → a ≡ b
    same_bool true b f g = sym (f refl)
    same_bool false true f g = g refl
    same_bool false false f g = refl

    same_num :
        (n m : N) → c.numeq m n ≡ true → (k : Value N) → is_num c m k ≡ rawequal_obj c k (number n)
    unfolding is_num rawequal_obj
    same_num n m e (number a) =
        same_bool (c.numeq a m) (c.numeq a n) (λ h. laws.transitive a m n h e)
          (λ h. laws.transitive a n m h (laws.symmetric m n e))
    same_num n m e nil = refl
    same_num n m e _ = refl

    same_str : (s : ℕ) (k : Value N) → is_str c s k ≡ rawequal_obj c k (string s)
    unfolding is_str rawequal_obj
    same_str s (string r) = refl
    same_str s _ = refl

    number-main : (size : ℕ) (n : N) → hashnum c size n ≡ mainposition c size (number n)
    unfolding mainposition
    number-main size n = refl

    number_equal : (n m : N) → c.numeq m n ≡ true → rawequal_obj c (number m) (number n) ≡ true
    unfolding rawequal_obj
    number_equal n m e = e

    str_search : (t : Table N) (s : ℕ) → getstr c t s ≡ get_any c t (string s)
    unfolding getstr get_any mainposition
    str_search t s = ap node_slot (
        search-cong t.node (is_str c s) (λ k. rawequal_obj c k (string s)) (sizenode t)
          (hashstr c (sizenode t) s) (same_str s))

    num_search :
        (t : Table N) (n m : N)
        → c.numeq m n ≡ true
        → node_slot (search t.node (is_num c m) (sizenode t) (hashnum c (sizenode t) m))
          ≡ get_any c t (number n)
    unfolding get_any mainposition
    num_search t n m e = ap node_slot (
        search-cong t.node (is_num c m) (λ k. rawequal_obj c k (number n)) (sizenode t)
          (hashnum c (sizenode t) m) (same_num n m e)
        ∙ ap (λ (a : ℕ). search t.node (λ k. rawequal_obj c k (number n)) (sizenode t) a)
            (equal_main c laws (sizenode t) (number m) (number n) (number_equal n m e)))

    -- The three special searches of `gafqH_get` find what one with the whole key does; an integer's place
    -- in the array part comes first.
    pub get-any :
        (t : Table N) (key : Value N)
        → ttisnil key ≡ false
        → get c t key ≡ array_or (place_of c t.sizearray key) (get_any c t key)
    unfolding get getnum place_of array_or ttisnil
    get-any t nil h = cc
    get-any t (string s) h = str_search t s
    get-any t (number n) h = elim (Bool-cases (c.numeq (c.cast_num (c.to_int n)) n)) [
      | inr off ↦ rw off refl
      | inl int ↦ rw int (
          ap (λ s. array_or (array_place t.sizearray (c.to_int n)) s)
            (num_search t n (c.cast_num (c.to_int n)) int))
    ]
    get-any t _ h = refl

    -- Equal keys have the same place in the array part, or none.
    pub place_equal :
        (size : ℕ) (a b : Value N)
        → rawequal_obj c a b ≡ true
        → place_of c size a ≡ place_of c size b
    unfolding rawequal_obj place_of
    place_equal size (number a) (number b) e =
        elim (Bool-cases (c.numeq (c.cast_num (c.to_int a)) a)) [
          | inl int ↦
              let ab = laws.transitive (c.cast_num (c.to_int a)) a b int e in
              let same = laws.exact (c.to_int a) b (laws.to_int-IsInt a) ab in
              rw (int, same, ab) refl
          | inr off ↦ elim (Bool-cases (c.numeq (c.cast_num (c.to_int b)) b)) [
            | inr no_b ↦ rw (off, no_b) refl
            | inl int ↦
                let ba = laws.transitive (c.cast_num (c.to_int b)) b a int (laws.symmetric a b e) in
                let same = laws.exact (c.to_int b) a (laws.to_int-IsInt b) ba in
                let clash : true ≡ false = sym ba ∙ rw same at off in cc
          ]
        ]
    place_equal size nil nil e = refl
    place_equal size (boolean a) (boolean b) e = refl
    place_equal size (light a) (light b) e = refl
    place_equal size (string a) (string b) e = refl
    place_equal size (object a p) (object b q) e = refl
    place_equal size _ _ e = cc

    number_place :
        (size : ℕ) (a : N) (i : ℕ)
        → place_of c size (number a) ≡ some i
        → c.numeq (c.cast_num (pos (suc i))) a ≡ true
    unfolding place_of
    number_place size a i e = elim (Bool-cases (c.numeq (c.cast_num (c.to_int a)) a)) [
      | inr off ↦ let clash = rw off at e in cc
      | inl int ↦
          subst (λ k. c.numeq (c.cast_num k) a ≡ true)
            (array_place-pos size i (c.to_int a) (rw int at e)) int
    ]

    -- Different keys have different places in the array part.
    pub place_apart :
        (size : ℕ) (a b : Value N) (i j : ℕ)
        → rawequal_obj c a b ≡ false
        → place_of c size a ≡ some i
        → place_of c size b ≡ some j
        → i ≢ j
    unfolding rawequal_obj place_of
    place_apart size (number a) (number b) i j differs ea eb same =
        let a_is = number_place size a i ea in
        let b_is = number_place size b j eb in
        let e =
          laws.transitive a (c.cast_num (pos (suc j))) b
            (laws.symmetric (c.cast_num (pos (suc j))) a (rw same at a_is)) b_is in
        let clash : true ≡ false = sym e ∙ differs in cc
    place_apart size (number a) _ i j differs ea eb same = cc
    place_apart size _ b i j differs ea eb same = cc
