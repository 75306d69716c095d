-- ===== src/Codegen/Allocation.antt =====
-- Reserving registers, and the table of constants (gcode.c).
use mathlib.Core.Path.{subst}
use mathlib.Core.List.{append-nil}
use gafq.Prelude.{
  ℕ, zero, false, suc, ◌+◌, ◌%◌, ◌^◌, ◌≤◌, ◌<◌, ◌≡◌, ◌∙◌, refl, sym, ap, arith, max, true,
  Bool-cases, ◌⊎◌, inl, inr, Option, none, some, List, [], ◌∷◌, ◌++◌, ltb, leb, length, get_elem?,
  Option-cases, length-append,
}
use gafq.Prelude.Run.{ok, error}
use gafq.Opcodes.{maxarg_bx}
use gafq.Chunk.{Constant, nil, number}
use gafq.Mem.Growth.{grown_size_lem, grown_size-full}
use gafq.Codegen.{
  CodeError, index_is_nil, index_is_nan, too_complex, constant_table_overflow, Key, value,
  table_itself, FuncState, nk, grow,
}
use gafq.Codegen.Registers.{
  maxstack, checkstack, reserveregs, Arithmetic, same_key, find_key, new_constant, addk_found, addk,
  addk_key, refused_key,
}

-- The registers in use are among those that the function asks for, and these are few enough.
abbrev pub RegistersFit : FuncState → Type 0
RegistersFit fs = (fs.freereg ≤ fs.maxstacksize) × (fs.maxstacksize < maxstack)

-- `gafqK_reserveregs` takes the next `n` registers and lets the function ask for them, or refuses if
-- these would be MAXSTACK or more; the byte of `maxstacksize` never wraps.
pub reserveregs_fit :
    (n : ℕ) (fs : FuncState)
    → RegistersFit fs
    → ((fs' : FuncState) × (reserveregs n fs ≡ ok (tt, fs'))
        × (fs'.freereg ≡ fs.freereg + n)
        × (fs'.maxstacksize ≡ max fs.maxstacksize (fs.freereg + n))
        × RegistersFit fs')
      ⊎ ((reserveregs n fs ≡ error too_complex) × (maxstack ≤ fs.freereg + n))
unfolding reserveregs checkstack
reserveregs_fit n fs h = elim (Bool-cases (ltb fs.maxstacksize (fs.freereg + n))) [
  | inr e ↦
      inl
        (record fs { freereg = fs.freereg + n }, rw e refl, refl, ground arith, (ground arith, h.1))
  | inl e ↦ elim (Bool-cases (leb maxstack (fs.freereg + n))) [
    | inl full ↦ inr (rw (e, full) refl, ground arith)
    | inr room ↦
        let small : fs.freereg + n < 250 = ground arith in
        inl (
          record fs { freereg = fs.freereg + n; maxstacksize = (fs.freereg + n) % 2 ^ 8 },
          rw (e, room) refl,
          refl,
          ground arith,
          (omega arith, omega arith),
        )
  ]
]

-- The constant that a key looks up.
abbrev pub constant_of : Key → Constant
constant_of (value c) = c
constant_of table_itself = nil

-- Each entry of `h` leads to the constant of its key.
abbrev pub Indexed : List Constant → List (Key × ℕ) → Type 0
Indexed k [] = Unit
Indexed k ((key, i) ∷ h) = (get_elem? k i ≡ some (constant_of key)) × Indexed k h

get_elem?-append {ℓ} :
    {A : Type ℓ} (xs ys : List A) (i : ℕ) (a : A)
    → get_elem? xs i ≡ some a
    → get_elem? (xs ++ ys) i ≡ some a
get_elem?-append [] ys i a h = cc
get_elem?-append (x ∷ xs) ys zero a h = h
get_elem?-append (x ∷ xs) ys (suc i) a h = get_elem?-append xs ys i a h

get_elem?-end {ℓ} :
    {A : Type ℓ} (xs : List A) (a : A) → get_elem? (xs ++ a ∷ []) (length xs) ≡ some a
get_elem?-end [] a = refl
get_elem?-end (x ∷ xs) a = get_elem?-end xs a

Indexed-append : (k more : List Constant) (h : List (Key × ℕ)) → Indexed k h → Indexed (k ++ more) h
Indexed-append k more [] s = tt
Indexed-append k more ((key, i) ∷ h) s =
    (get_elem?-append k more i (constant_of key) s.0, Indexed-append k more h s.1)

some_value {ℓ} : {A : Type ℓ} {a b : A} → ◌≡◌ {A = Option A} (some a) (some b) → a ≡ b
some_value e = cc

-- The index that is found for a key has the constant of a key that is equal to it.
find_key-Indexed :
    (num : Arithmetic) (k : List Constant) (h : List (Key × ℕ)) (key : Key) (i : ℕ)
    → Indexed k h
    → find_key num h key ≡ some i
    → (x : Key) × (same_key num x key ≡ true) × (get_elem? k i ≡ some (constant_of x))
unfolding find_key
find_key-Indexed num k [] key i s e = cc
find_key-Indexed num k ((x, j) ∷ h) key i s e = elim (Bool-cases (same_key num x key)) [
  | inl same ↦ (
    x,
    same,
    subst (λ (n : ℕ). get_elem? k n ≡ some (constant_of x)) (some_value (rw same at e)) s.0,
  )
  | inr other ↦ find_key-Indexed num k h key i s.1 (rw other at e)
]

-- The table of constants agrees with the constants, which fit the room for them.
abbrev pub ConstantsFit : FuncState → Type 0
ConstantsFit fs = Indexed fs.k fs.h × (nk fs ≤ fs.sizek) × (fs.sizek ≤ maxarg_bx)

-- The state after a constant is added, with room for `sizek` of them.
abbrev added : Key → ℕ → FuncState → FuncState
added key sizek fs = record fs {
  h = (key, nk fs) ∷ fs.h;
  k = fs.k ++ constant_of key ∷ [];
  sizek = sizek;
}

added-ConstantsFit :
    (key : Key) (sizek : ℕ) (fs : FuncState)
    → ConstantsFit fs
    → nk fs < sizek
    → sizek ≤ maxarg_bx
    → ConstantsFit (added key sizek fs)
unfolding nk
added-ConstantsFit key sizek fs fit h limit =
    let e : length (fs.k ++ constant_of key ∷ []) ≡ length fs.k + 1 =
      length-append fs.k (constant_of key ∷ []) in
    (
      (get_elem?-end fs.k (constant_of key), Indexed-append fs.k (constant_of key ∷ []) fs.h fit.0),
      omega arith,
      limit,
    )

addk_found-new :
    (key : Key) (fs : FuncState)
    → ConstantsFit fs
    → ((sizek : ℕ) × (addk_found key (constant_of key) none fs ≡ ok (nk fs, added key sizek fs))
        × (nk fs < sizek)
        × (sizek ≤ maxarg_bx))
      ⊎ ((addk_found key (constant_of key) none fs ≡ error constant_table_overflow)
          × (nk fs ≡ maxarg_bx))
unfolding addk_found grow new_constant
addk_found-new key fs (indexed, room, limit) = elim (Bool-cases (ltb fs.sizek (nk fs + 1))) [
  | inr free ↦ inl (fs.sizek, rw free refl, ground arith, limit)
  | inl full ↦ elim (Bool-cases (leb maxarg_bx fs.sizek)) [
    | inl most ↦
        let e = grown_size-full fs.sizek maxarg_bx (ground arith) in
        inr (rw (full, e) refl, ground arith)
    | inr less ↦
        let (n, e, lo, hi) = grown_size_lem fs.sizek maxarg_bx (ground arith) (omega arith) in
        inl (n, rw (full, e) refl, omega arith, hi)
  ]
]

-- The index has the constant of the key or of one that is equal to it, behind the constants that there
-- were; or these are as many as an instruction can name and the key is not among them.
abbrev pub Added : Arithmetic → Key → FuncState → Type 0
Added num key fs =
    ((i : ℕ) × (fs' : FuncState) × (more : List Constant) × (x : Key) × (addk num key
          (constant_of key) fs
        ≡ ok (i, fs'))
      × ((x ≡ key) ⊎ (same_key num x key ≡ true))
      × (get_elem? fs'.k i ≡ some (constant_of x))
      × (fs'.k ≡ fs.k ++ more)
      × ConstantsFit fs')
    ⊎ ((addk num key (constant_of key) fs ≡ error constant_table_overflow)
        × (nk fs ≡ maxarg_bx)
        × (find_key num fs.h key ≡ none))

taken-Added :
    (num : Arithmetic) (key : Key) (fs : FuncState)
    → ConstantsFit fs
    → refused_key num key ≡ none
    → Added num key fs
unfolding addk addk_found
taken-Added num key fs fit taken = elim (Option-cases (find_key num fs.h key)) [
  | inr (i, e) ↦
      let (x, same, at) = find_key-Indexed num fs.k fs.h key i fit.0 e in
      inl (
        i,
        fs,
        [],
        x,
        taken_key ∙ ap (λ o. addk_found key (constant_of key) o fs) e ∙ found i,
        inr same,
        at,
        sym (append-nil fs.k),
        fit,
      )
  | inl e ↦ elim (addk_found-new key fs fit) [
    | inl (sizek, new, lo, hi) ↦ inl (
      nk fs,
      added key sizek fs,
      constant_of key ∷ [],
      key,
      taken_key ∙ ap (λ o. addk_found key (constant_of key) o fs) e ∙ new,
      inl refl,
      (added-ConstantsFit key sizek fs fit lo hi).0.0,
      refl,
      added-ConstantsFit key sizek fs fit lo hi,
    )
    | inr (full, most) ↦
        inr (taken_key ∙ ap (λ o. addk_found key (constant_of key) o fs) e ∙ full, most, e)
  ]
]
  where
    taken_key :
        addk num key (constant_of key) fs
        ≡ addk_found key (constant_of key) (find_key num fs.h key) fs
    taken_key = ap (λ o. addk_key num key (constant_of key) o fs) taken

    found : (i : ℕ) → addk_found key (constant_of key) (some i) fs ≡ ok (i, fs)
    found i = refl

-- What the keys that a table does not take are.
abbrev pub IsRefused : Arithmetic → Key → CodeError → Type 0
IsRefused num key e =
    ((key ≡ value nil) × (e ≡ index_is_nil))
    ⊎ ((x : ℕ) × (key ≡ value (number x)) × (num.numisnan x ≡ true) × (e ≡ index_is_nan))

some_error : {a b : CodeError} → ◌≡◌ {A = Option CodeError} (some a) (some b) → a ≡ b
some_error e = cc

refused_key-IsRefused :
    (num : Arithmetic) (key : Key) (e : CodeError)
    → refused_key num key ≡ some e
    → IsRefused num key e
unfolding refused_key
refused_key-IsRefused num (value nil) e h = inl (refl, some_error (sym h))
refused_key-IsRefused num (value (number x)) e h = elim (Bool-cases (num.numisnan x)) [
  | inl nan ↦ inr (x, refl, nan, some_error (sym (rw nan at h)))
  | inr fine ↦ let clash = rw fine at h in cc
]
refused_key-IsRefused num _ e h = cc

abbrev pub IsTaken : Arithmetic → Key → Type 0
IsTaken num (value nil) = ⊥
IsTaken num (value (number x)) = num.numisnan x ≡ false
IsTaken num _ = Unit

refused_key-IsTaken : (num : Arithmetic) (key : Key) → refused_key num key ≡ none → IsTaken num key
unfolding refused_key
refused_key-IsTaken num (value nil) h = cc
refused_key-IsTaken num (value (number x)) h = elim (Bool-cases (num.numisnan x)) [
  | inr fine ↦ fine
  | inl nan ↦ let clash = rw nan at h in cc
]
refused_key-IsTaken num _ h = tt

-- For a key that a table takes, `addk` gives an index at which there is the constant of the key or of
-- one that is equal to it. It only ever adds to the constants, so that an index keeps its meaning. It
-- fails when the constants are as many as an instruction can name and the key is not among them. For
-- nil and NaN it fails with the error of each.
pub addk_fit :
    (num : Arithmetic) (key : Key) (fs : FuncState)
    → ConstantsFit fs
    → (IsTaken num key × Added num key fs)
      ⊎ ((e : CodeError) × IsRefused num key e × (addk num key (constant_of key) fs ≡ error e))
unfolding addk
addk_fit num key fs fit = elim (Option-cases (refused_key num key)) [
  | inl taken ↦ inl (refused_key-IsTaken num key taken, taken-Added num key fs fit taken)
  | inr x ↦ inr (
    x.0,
    refused_key-IsRefused num key x.0 x.1,
    ap (λ o. addk_key num key (constant_of key) o fs) x.1,
  )
]
