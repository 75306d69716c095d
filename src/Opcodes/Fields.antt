-- ===== src/Opcodes/Fields.antt =====
-- The field macros of gopcodes.h as arithmetic on the parts of a word.
use native.Mathlib.Nat.{one-le-pow, mod-eq_of_lt}
use gafq.Prelude.{ℕ, ◌+◌, ◌-◌, ◌*◌, ◌/◌, ◌%◌, ◌^◌, ◌<◌, ◌≡◌, ◌∙◌, refl, ap, arith, bit_and, bit_or}
use gafq.Prelude.Bits.{
  bit_and_split, bit_or_split, bit_and_mask, bit_and-zero, bit_or-zero, zero-bit_or,
}
use gafq.Opcodes.{
  Instruction, mask1, mask0, get_field, set_field, get_opcode, getarg_a, getarg_b, getarg_c,
  getarg_bx, set_opcode, setarg_a, setarg_b, setarg_c, setarg_bx,
}

get_field_lem :
    (n p : ℕ) (i : Instruction) → mask1 n 0 ≡ 2 ^ n - 1 → get_field n p i ≡ i / 2 ^ p % 2 ^ n
unfolding get_field
get_field_lem n p i h = rw h (bit_and_mask n (i / 2 ^ p))

pow_pos : (k : ℕ) → 0 < 2 ^ k
pow_pos k = one-le-pow k 2 (omega arith)

pow_pred : (k : ℕ) → 2 ^ k - 1 < 2 ^ k
pow_pred k = omega (arith, pow_pos k)

and_low : (k r : ℕ) → r < 2 ^ k → bit_and r (2 ^ k - 1) ≡ r
and_low k r h = rw (bit_and_mask k r) (mod-eq_of_lt h)

-- The word with high part `h`, field `f` and low part `l`.
abbrev word : ℕ → ℕ → ℕ → ℕ → ℕ → ℕ
word n p h f l = (h * 2 ^ n + f) * 2 ^ p + l

module _ (n p : ℕ) where
  and_word :
      (h f l h' f' l' : ℕ)
      → f < 2 ^ n
      → f' < 2 ^ n
      → l < 2 ^ p
      → l' < 2 ^ p
      → bit_and (word n p h f l) (word n p h' f' l')
        ≡ word n p (bit_and h h') (bit_and f f') (bit_and l l')
  and_word h f l h' f' l' hf hf' hl hl' =
      rw (bit_and_split p (h * 2 ^ n + f) (h' * 2 ^ n + f') l l' hl hl')
        (rw (bit_and_split n h h' f f' hf hf') refl)

  or_word :
      (h f l h' f' l' : ℕ)
      → f < 2 ^ n
      → f' < 2 ^ n
      → l < 2 ^ p
      → l' < 2 ^ p
      → bit_or (word n p h f l) (word n p h' f' l')
        ≡ word n p (bit_or h h') (bit_or f f') (bit_or l l')
  or_word h f l h' f' l' hf hf' hl hl' =
      rw (bit_or_split p (h * 2 ^ n + f) (h' * 2 ^ n + f') l l' hl hl')
        (rw (bit_or_split n h h' f f' hf hf') refl)

-- The result of a field assignment; `q` is what the shift moves above the field.
set_field_lem :
    (n p m h f l u q r : ℕ)
    → h < 2 ^ m
    → f < 2 ^ n
    → l < 2 ^ p
    → r < 2 ^ n
    → mask0 n p ≡ word n p (2 ^ m - 1) 0 (2 ^ p - 1)
    → mask1 n p ≡ word n p 0 (2 ^ n - 1) 0
    → u * 2 ^ p % 2 ^ 32 ≡ word n p q r 0
    → set_field n p (word n p h f l) u ≡ word n p h r l
unfolding set_field
set_field_lem n p m h f l u q r hh hf hl hr e0 e1 eu =
    rw
      (
        e0,
        e1,
        eu,
        and_word n p h f l (2 ^ m - 1) 0 (2 ^ p - 1) hf (pow_pos n) hl (pow_pred p),
        and_word n p q r 0 0 (2 ^ n - 1) 0 hr (pow_pred n) (pow_pos p) (pow_pos p),
        and_low m h hh,
        and_low p l hl,
        and_low n r hr,
        bit_and-zero f,
        bit_and-zero q,
        bit_and-zero 0,
        or_word n p h 0 l 0 r 0 (pow_pos n) hr hl (pow_pos p),
        bit_or-zero h,
        bit_or-zero l,
        zero-bit_or r,
      )
      refl

set_field_at :
    (n p m i h f l u q r : ℕ)
    → i ≡ word n p h f l
    → h < 2 ^ m
    → f < 2 ^ n
    → l < 2 ^ p
    → r < 2 ^ n
    → mask0 n p ≡ word n p (2 ^ m - 1) 0 (2 ^ p - 1)
    → mask1 n p ≡ word n p 0 (2 ^ n - 1) 0
    → u * 2 ^ p % 2 ^ 32 ≡ word n p q r 0
    → set_field n p i u ≡ word n p h r l
set_field_at n p m i h f l u q r e hh hf hl hr e0 e1 eu =
    ap (λ j. set_field n p j u) e ∙ set_field_lem n p m h f l u q r hh hf hl hr e0 e1 eu

-- The arithmetic of each getter.
pub get_opcode_lem : (i : Instruction) → get_opcode i ≡ i % 2 ^ 6
unfolding get_opcode
get_opcode_lem i = omega (arith, get_field_lem 6 0 i refl)

pub getarg_a_lem : (i : Instruction) → getarg_a i ≡ i / 2 ^ 6 % 2 ^ 8
unfolding getarg_a
getarg_a_lem i = get_field_lem 8 6 i refl

pub getarg_c_lem : (i : Instruction) → getarg_c i ≡ i / 2 ^ 14 % 2 ^ 9
unfolding getarg_c
getarg_c_lem i = get_field_lem 9 14 i refl

pub getarg_b_lem : (i : Instruction) → getarg_b i ≡ i / 2 ^ 23 % 2 ^ 9
unfolding getarg_b
getarg_b_lem i = get_field_lem 9 23 i refl

pub getarg_bx_lem : (i : Instruction) → getarg_bx i ≡ i / 2 ^ 14 % 2 ^ 18
unfolding getarg_bx
getarg_bx_lem i = get_field_lem 18 14 i refl

pub ruleset getters =
    (arith, get_opcode_lem, getarg_a_lem, getarg_b_lem, getarg_c_lem, getarg_bx_lem)

-- The arithmetic of each setter on a 32-bit word.
module _ (i u : ℕ) (h : i < 2 ^ 32) where
  pub set_opcode_lem : set_opcode i u ≡ i / 2 ^ 6 * 2 ^ 6 + u % 2 ^ 6
  unfolding set_opcode
  set_opcode_lem = omega (
    arith,
    set_field_at 6 0 26 i (i / 2 ^ 6) (i % 2 ^ 6) 0 u (u / 2 ^ 6 % 2 ^ 26) (u % 2 ^ 6) (omega arith)
        (omega arith) (omega arith) (omega arith) (omega arith) refl refl (omega arith),
  )

  pub setarg_a_lem : setarg_a i u ≡ (i / 2 ^ 14 * 2 ^ 8 + u % 2 ^ 8) * 2 ^ 6 + i % 2 ^ 6
  unfolding setarg_a
  setarg_a_lem =
      set_field_at 8 6 18 i (i / 2 ^ 14) (i / 2 ^ 6 % 2 ^ 8) (i % 2 ^ 6) u (u / 2 ^ 8 % 2 ^ 18)
        (u % 2 ^ 8) (omega arith) (omega arith) (omega arith) (omega arith) (omega arith) refl refl
        (omega arith)

  pub setarg_c_lem : setarg_c i u ≡ (i / 2 ^ 23 * 2 ^ 9 + u % 2 ^ 9) * 2 ^ 14 + i % 2 ^ 14
  unfolding setarg_c
  setarg_c_lem =
      set_field_at 9 14 9 i (i / 2 ^ 23) (i / 2 ^ 14 % 2 ^ 9) (i % 2 ^ 14) u (u / 2 ^ 9 % 2 ^ 9)
        (u % 2 ^ 9) (omega arith) (omega arith) (omega arith) (omega arith) (omega arith) refl refl
        (omega arith)

  pub setarg_b_lem : setarg_b i u ≡ u % 2 ^ 9 * 2 ^ 23 + i % 2 ^ 23
  unfolding setarg_b
  setarg_b_lem = omega (
    arith,
    set_field_at 9 23 0 i 0 (i / 2 ^ 23) (i % 2 ^ 23) u 0 (u % 2 ^ 9) (omega arith) (omega arith)
        (omega arith) (omega arith) (omega arith) refl refl (omega arith),
  )

  pub setarg_bx_lem : setarg_bx i u ≡ u % 2 ^ 18 * 2 ^ 14 + i % 2 ^ 14
  unfolding setarg_bx
  setarg_bx_lem = omega (
    arith,
    set_field_at 18 14 0 i 0 (i / 2 ^ 14) (i % 2 ^ 14) u 0 (u % 2 ^ 18) (omega arith) (omega arith)
        (omega arith) (omega arith) (omega arith) refl refl (omega arith),
  )

pub ruleset setters =
    (arith, set_opcode_lem, setarg_a_lem, setarg_b_lem, setarg_c_lem, setarg_bx_lem)
