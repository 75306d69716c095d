-- ===== src/Tables/Boundary.antt =====
-- The length that `gafqH_getn` (gtable.c) gives is a boundary.
use gafq.Prelude.{
  ℕ, ◌+◌, ◌-◌, ◌^◌, ◌≤◌, ◌<◌, ◌≡◌, ◌⊎◌, inl, inr, refl, sym, ◌∙◌, Bool, true, false, not, ◌&&◌, ltb,
  Bool-cases, arith,
}
use gafq.Prelude.Int.{pos}
use gafq.Tables.Values.{Numbers, Value, Table, ttisnil, sizenode, hashnum}
use gafq.Tables.Slots.{array_or, is_num, getnum}
use gafq.Tables.Chains.{same_or, Option-cases}
use gafq.Tables.Linked.{search-none}
use gafq.Tables.Laws.{LawfulNumbers}
use gafq.Tables.Insert.{IsTable}
use gafq.Tables.Length.{
  binary_search, double_search, is_present, unbound_search, array_present, getn,
}
use gafq.Tables.Searches.{
  IsBoundary, binary_search-IsBoundary, linear_search-IsBoundary, double_search-some,
  either-IsBoundary,
}
use gafq.Tables.Places.{array_place-past, is_present-array, is_num-used, some_absent}

no_array : (size : ℕ) (b : Bool) → b ≡ false → (ltb 0 size && not b) ≡ false → size ≡ 0
no_array size true h e = cc
no_array size false h e = ground arith

some_nil : (size : ℕ) (b : Bool) → (ltb 0 size && not b) ≡ true → (b ≡ false) × (0 < size)
some_nil size b e = elim (Bool-cases (ltb 0 size)) [
  | inr out ↦ let clash = rw out at e in cc
  | inl above ↦ elim (Bool-cases b) [
    | inl here ↦ let clash = rw (above, here) at e in cc
    | inr out ↦ (out, ground arith)
  ]
]

module _ {N : Type 0} (c : Numbers N) (t : Table N) (laws : LawfulNumbers c) (w : IsTable c t) where
  unbound_search-IsBoundary :
      (j : ℕ)
      → t.sizearray + sizenode t + 1 < 2 ^ 31
      → (j ≡ 0) ⊎ (is_present c t j ≡ true)
      → IsBoundary (is_present c t) (unbound_search c t j)
  unfolding unbound_search
  unbound_search-IsBoundary j small low =
      elim (Option-cases (double_search (is_present c t) 32 j (j + 1))) [
        | inl linear ↦ rw linear (
            linear_search-IsBoundary (is_present c t) (t.sizearray + sizenode t + 1) 1 (omega arith)
              (inl refl)
              (some_absent c t laws w (t.sizearray + sizenode t + 1) small (omega arith)))
        | inr x ↦
            let r = double_search-some (is_present c t) 32 j (j + 1) x.0 low (omega arith) x.1 in
            rw x.1
              (binary_search-IsBoundary (is_present c t) (x.0.1 - x.0.0) x.0.0 x.0.1 r.0 r.2 r.1
                (omega (arith, r.1))).0
      ]

  dummy_absent : t.is_dummy ≡ true → is_present c t (t.sizearray + 1) ≡ false
  unfolding is_present getnum array_or ttisnil
  dummy_absent e =
      let n = c.cast_num (pos (t.sizearray + 1)) in
      let missing =
        search-none t.node (is_num c n) (sizenode t) (hashnum c (sizenode t) n)
          (λ i. no_num n (t.node i).i_key ((w.dummy e).1 i)) in
      rw (array_place-past t.sizearray (t.sizearray + 1) (omega arith), missing) refl
    where
      no_num : (a : N) (key : Value N) → ttisnil key ≡ true → is_num c a key ≡ false
      no_num a key h = elim (Bool-cases (is_num c a key)) [
        | inr out ↦ out
        | inl hit ↦ let clash : true ≡ false = sym h ∙ is_num-used c t laws w a key hit in cc
      ]

  agree : (k : ℕ) → k ≤ t.sizearray → array_present t k ≡ true → (k ≡ 0) ⊎ (is_present c t k ≡ true)
  agree k below e = elim (same_or k 0) [
    | inl none_before ↦ inl none_before
    | inr other ↦ inr (is_present-array c t k (omega (arith, other)) below ∙ e)
  ]

  last_present :
      (ltb 0 t.sizearray && not (array_present t t.sizearray)) ≡ false
      → (t.sizearray ≡ 0) ⊎ (is_present c t t.sizearray ≡ true)
  last_present e = elim (Bool-cases (array_present t t.sizearray)) [
    | inl here ↦ agree t.sizearray (omega arith) here
    | inr out ↦ inl (no_array t.sizearray (array_present t t.sizearray) out e)
  ]

  in_array_part :
      (ltb 0 t.sizearray && not (array_present t t.sizearray)) ≡ true
      → IsBoundary (is_present c t) (binary_search (array_present t) t.sizearray 0 t.sizearray)
  in_array_part e =
      let (out, some_array) = some_nil t.sizearray (array_present t t.sizearray) e in
      let (boundary, below) =
        binary_search-IsBoundary (array_present t) t.sizearray 0 t.sizearray (inl refl) out
          some_array (omega arith) in
      let n = binary_search (array_present t) t.sizearray 0 t.sizearray in
      (
        elim boundary.0 [ inl first ↦ inl first | inr here ↦ agree n (omega (arith, below)) here ],
        is_present-array c t (n + 1) (omega arith) (omega (arith, below)) ∙ boundary.1,
      )

  -- In a well-formed table whose places an `int` can count, `gafqH_getn` gives a boundary: 0 or an index
  -- with a value, after which comes an index without one.
  pub getn-IsBoundary :
      t.sizearray + sizenode t + 1 < 2 ^ 31 → IsBoundary (is_present c t) (getn c t)
  unfolding getn
  getn-IsBoundary small =
      either-IsBoundary (is_present c t) (ltb 0 t.sizearray && not (array_present t t.sizearray)) _
        _ (λ e. in_array_part e)
        (λ e.
          either-IsBoundary (is_present c t) t.is_dummy _ _ (λ d. (last_present e, dummy_absent d))
            (λ d. unbound_search-IsBoundary t.sizearray small (last_present e)))
