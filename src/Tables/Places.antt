-- ===== src/Tables/Places.antt =====
-- The indices with a value have different places in a table, so that one soon has none (gtable.c).
use gafq.Prelude.{
  ℕ, zero, suc, ◌+◌, ◌-◌, ◌^◌, ◌≤◌, ◌<◌, ◌≡◌, ◌⊎◌, inl, inr, refl, sym, ◌∙◌, ap, true, false,
  Option, none, some, ltb, leb, Bool-cases, arith, List, [], ◌∷◌, length,
}
use gafq.Prelude.Distinct.{NotIn, Distinct, Below, length-Distinct}
use gafq.Prelude.Int.{pos}
use gafq.Tables.Values.{Numbers, Value, nil, number, Table, ttisnil, sizenode, hashnum}
use gafq.Tables.Slots.{
  in_array, in_node, Slot, node_slot, array_place, array_or, search, is_num, getnum,
}
use gafq.Tables.Chains.{same_or, Option-cases, some_inj}
use gafq.Tables.Linked.{search-some}
use gafq.Tables.Laws.{LawfulNumbers}
use gafq.Tables.Insert.{IsTable}
use gafq.Tables.Length.{is_present, array_present}

pos_same : {a b : ℕ} → pos a ≡ pos b → a ≡ b
pos_same e = cc

array_place-at : (size k : ℕ) → 0 < k → k ≤ size → array_place size (pos k) ≡ some (k - 1)
unfolding array_place
array_place-at size k above below =
    let a : ltb 0 k ≡ true = ground arith in
    let b : leb k size ≡ true = ground arith in rw (a, b) refl

pub array_place-past : (size k : ℕ) → size < k → array_place size (pos k) ≡ none
unfolding array_place
array_place-past size k past = elim (Bool-cases (ltb 0 k)) [
  | inl a ↦ let b : leb k size ≡ false = ground arith in rw (a, b) refl
  | inr a ↦ rw a refl
]

array_place-some : (size k i : ℕ) → array_place size (pos k) ≡ some i → (k ≡ suc i) × (i < size)
unfolding array_place
array_place-some size k i e = elim (Bool-cases (ltb 0 k)) [
  | inr out ↦ let clash = rw out at e in cc
  | inl above ↦ elim (Bool-cases (leb k size)) [
    | inr out ↦ let clash = rw (above, out) at e in cc
    | inl below ↦
        let same : k - 1 ≡ i = some_inj (rw (above, below) at e) in (ground arith, ground arith)
  ]
]

module _ {N : Type 0} (c : Numbers N) (t : Table N) where
  -- In the array part, the two tests agree.
  pub is_present-array : (k : ℕ) → 0 < k → k ≤ t.sizearray → is_present c t k ≡ array_present t k
  unfolding is_present array_present getnum array_or
  is_present-array k above below = rw (array_place-at t.sizearray k above below) refl

  -- The place that a present index has, counted with the array part first.
  abbrev slot_index : Option Slot → ℕ
  slot_index none = 0
  slot_index (some (in_array i)) = i
  slot_index (some (in_node n)) = t.sizearray + n

  abbrev IsPlace : ℕ → Option Slot → Type 0
  IsPlace k none = Unit
  IsPlace k (some (in_array i)) = (k ≡ suc i) × (i < t.sizearray)
  IsPlace k (some (in_node n)) = is_num c (c.cast_num (pos k)) (t.node n).i_key ≡ true

  IsPlace-cases :
      (k : ℕ) (p o : Option ℕ)
      → ((i : ℕ) → p ≡ some i → (k ≡ suc i) × (i < t.sizearray))
      → ((n : ℕ) → o ≡ some n → is_num c (c.cast_num (pos k)) (t.node n).i_key ≡ true)
      → IsPlace k (array_or p (node_slot o))
  unfolding array_or
  IsPlace-cases k (some i) o array_part node_part = array_part i refl
  IsPlace-cases k none (some n) array_part node_part = node_part n refl
  IsPlace-cases k none none array_part node_part = tt

  getnum-IsPlace : (k : ℕ) → IsPlace k (getnum c t (pos k))
  unfolding getnum
  getnum-IsPlace k =
      let n = c.cast_num (pos k) in
      IsPlace-cases k (array_place t.sizearray (pos k))
        (search t.node (is_num c n) (sizenode t) (hashnum c (sizenode t) n))
        (λ i e. array_place-some t.sizearray k i e)
        (λ m e. search-some t.node (is_num c n) (sizenode t) (hashnum c (sizenode t) n) m e)

  getnum-present : (k : ℕ) → is_present c t k ≡ true → (s : Slot) × (getnum c t (pos k) ≡ some s)
  unfolding is_present ttisnil
  getnum-present k e = elim (Option-cases (getnum c t (pos k))) [
    | inr x ↦ x
    | inl missing ↦ let clash = rw missing at e in cc
  ]

  module _ (laws : LawfulNumbers c) (w : IsTable c t) where
    pub is_num-used : (a : N) (key : Value N) → is_num c a key ≡ true → ttisnil key ≡ false
    unfolding is_num ttisnil
    is_num-used a nil e = cc
    is_num-used a _ e = refl

    is_num-same :
        (j k : ℕ) (key : Value N)
        → k < 2 ^ 31
        → j < 2 ^ 31
        → is_num c (c.cast_num (pos j)) key ≡ true
        → is_num c (c.cast_num (pos k)) key ≡ true
        → j ≡ k
    unfolding is_num
    is_num-same j k (number m) hk hj ej ek =
        let both =
          laws.transitive (c.cast_num (pos j)) m (c.cast_num (pos k))
            (laws.symmetric m (c.cast_num (pos j)) ej) ek in
        let self = laws.reflexive (c.cast_num (pos k)) (laws.not_nan (pos k)) in
        let at_j = laws.exact (pos j) (c.cast_num (pos k)) (hj, omega arith) both in
        let at_k = laws.exact (pos k) (c.cast_num (pos k)) (hk, omega arith) self in
        pos_same (sym at_j ∙ at_k)
    is_num-same j k _ hk hj ej ek = cc

    place_below :
        (k : ℕ) (s : Slot) → IsPlace k (some s) → slot_index (some s) < t.sizearray + sizenode t
    place_below k (in_array i) p = omega (arith, p.1)
    place_below k (in_node n) p =
        let h = w.linked.inside n (is_num-used (c.cast_num (pos k)) (t.node n).i_key p) in
        omega (arith, h)

    place_apart :
        (j k : ℕ) (r s : Slot)
        → j < 2 ^ 31
        → k < 2 ^ 31
        → IsPlace j (some r)
        → IsPlace k (some s)
        → slot_index (some r) ≡ slot_index (some s)
        → j ≡ k
    place_apart j k (in_array i) (in_array m) hj hk p q same = omega (arith, p.0, q.0)
    place_apart j k (in_array i) (in_node n) hj hk p q same = absurd (omega (arith, p.1))
    place_apart j k (in_node n) (in_array i) hj hk p q same = absurd (omega (arith, q.1))
    place_apart j k (in_node n) (in_node m) hj hk p q same =
        let e : n ≡ m = omega arith in is_num-same j k (t.node m).i_key hk hj (rw e at p) q

    -- The places of the indices from `n` down to 1.
    abbrev places : ℕ → List ℕ
    places zero = []
    places (suc n) = slot_index (getnum c t (pos (suc n))) ∷ places n

    index-IsPlace :
        (k : ℕ)
        → is_present c t k ≡ true
        → (s : Slot) × (getnum c t (pos k) ≡ some s) × IsPlace k (some s)
    index-IsPlace k e = let (s, h) = getnum-present k e in (s, h, rw h at (getnum-IsPlace k))

    NotIn-places :
        (k n : ℕ)
        → n < k
        → k < 2 ^ 31
        → is_present c t k ≡ true
        → ((j : ℕ) → 0 < j → j ≤ n → is_present c t j ≡ true)
        → NotIn (slot_index (getnum c t (pos k))) (places n)
    NotIn-places k zero h small e all = tt
    NotIn-places k (suc n) h small e all =
        let a = index-IsPlace k e in
        let b = index-IsPlace (suc n) (all (suc n) (omega arith) (omega arith)) in
        (
          λ same.
              (let eq =
                  place_apart k (suc n) a.0 b.0 small (omega arith) a.2 b.2
                    (rw (a.1, b.1) at same) in
                omega arith),
          NotIn-places k n (omega arith) small e (λ j above below. all j above (omega arith)),
        )

    Distinct-places :
        (n : ℕ)
        → n < 2 ^ 31
        → ((j : ℕ) → 0 < j → j ≤ n → is_present c t j ≡ true)
        → Distinct (places n) × Below (t.sizearray + sizenode t) (places n)
    Distinct-places zero small all = (tt, tt)
    Distinct-places (suc n) small all =
        let rest = Distinct-places n (omega arith) (λ j above below. all j above (omega arith)) in
        let here = all (suc n) (omega arith) (omega arith) in
        let a = index-IsPlace (suc n) here in
        let below : slot_index (getnum c t (pos (suc n))) < t.sizearray + sizenode t =
          rw a.1 (place_below (suc n) a.0 a.2) in
        (
          (
            NotIn-places (suc n) n (omega arith) small here
                (λ j above below. all j above (omega arith)),
            rest.0,
          ),
          (below, rest.1),
        )

    length-places : (n : ℕ) → length (places n) ≡ n
    length-places zero = refl
    length-places (suc n) = ap suc (length-places n)

    absent_or_all :
        (n : ℕ)
        → ((k : ℕ) × (1 ≤ k) × (k < 1 + n) × (is_present c t k ≡ false))
          ⊎ ((j : ℕ) → 0 < j → j ≤ n → is_present c t j ≡ true)
    absent_or_all zero = inr (λ j above below. absurd (omega arith))
    absent_or_all (suc n) = elim (absent_or_all n) [
      | inl x ↦ inl (x.0, x.1, omega (arith, x.2), x.3)
      | inr all ↦ elim (Bool-cases (is_present c t (suc n))) [
        | inr e ↦ inl (suc n, omega arith, omega arith, e)
        | inl e ↦ inr (λ j above below. elim (same_or j (suc n)) [
          | inl same ↦ rw same e
          | inr other ↦ all j above (omega (arith, other))
        ])
      ]
    ]

    -- An index up to one more than there are places has no value.
    pub some_absent :
        (n : ℕ)
        → n < 2 ^ 31
        → t.sizearray + sizenode t < n
        → (k : ℕ) × (1 ≤ k) × (k < 1 + n) × (is_present c t k ≡ false)
    some_absent n small large = elim (absent_or_all n) [
      | inl x ↦ x
      | inr all ↦
          let d = Distinct-places n small all in
          let l = length-Distinct (t.sizearray + sizenode t) (places n) d.0 d.1 in
          absurd (omega (arith, l, length-places n))
    ]
