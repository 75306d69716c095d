-- ===== src/Opcodes/Layout.antt =====
-- What the fields of gopcodes.h hold: reading after building, reading after writing, RK operands.
use gafq.Prelude.{
  ℕ, ◌+◌, ◌-◌, ◌*◌, ◌%◌, ◌^◌, ◌≤◌, ◌<◌, ◌≡◌, refl, arith, bit_or, Bool, true, false, leb, not, ◌⊎◌,
  ◌&&◌, ◌==◌,
}
use gafq.Prelude.Int.{ℤ, pos_part, neg_part}
use gafq.Prelude.Bits.{bit_or_split, or_low, bit_or-zero, every, every_holds}
use gafq.Opcodes.{
  Instruction, get_opcode, getarg_a, getarg_b, getarg_c, getarg_bx, getarg_sbx, set_opcode,
  setarg_a, setarg_b, setarg_c, setarg_bx, setarg_sbx, create_abc, create_abx, isk, indexk, rkask,
  maxindexrk, maxarg_a, maxarg_b, maxarg_c, maxarg_bx, maxarg_sbx,
}
use gafq.Opcodes.Fields.{getters, setters}

-- A value between a field above it, at `j + k`, and a part of `j` bits.
or_between :
    (j k q v r : ℕ)
    → v * 2 ^ j < 2 ^ k
    → r < 2 ^ j
    → r < 2 ^ k
    → bit_or (q * 2 ^ k + r) (v * 2 ^ j) ≡ q * 2 ^ k + (v * 2 ^ j + r)
or_between j k q v r hv hj hk =
    let ev : 0 * 2 ^ k + v * 2 ^ j ≡ v * 2 ^ j = omega arith in
    rw (ev, bit_or-zero, or_low j v r hj) at (bit_or_split k q 0 r (v * 2 ^ j) hk hv)

create_abc_lem :
    (o a b c : ℕ)
    → o < 2 ^ 6
    → a ≤ maxarg_a
    → b ≤ maxarg_b
    → c ≤ maxarg_c
    → create_abc o a b c ≡ ((b * 2 ^ 9 + c) * 2 ^ 8 + a) * 2 ^ 6 + o
unfolding create_abc
create_abc_lem o a b c ho ha hb hc =
    let eo : o * 2 ^ 0 % 2 ^ 32 ≡ o = omega arith in
    let ea : a * 2 ^ 6 % 2 ^ 32 ≡ a * 2 ^ 6 = omega arith in
    let eb : b * 2 ^ 23 % 2 ^ 32 ≡ b * 2 ^ 23 = omega arith in
    let ec : c * 2 ^ 14 % 2 ^ 32 ≡ c * 2 ^ 14 = omega arith in
    rw
      (
        eo,
        ea,
        eb,
        ec,
        or_low 6 a o ho,
        or_low 23 b (a * 2 ^ 6 + o) (omega arith),
        or_between 14 23 b c (a * 2 ^ 6 + o) (omega arith) (omega arith) (omega arith),
      )
      (omega arith)

create_abx_lem :
    (o a bc : ℕ)
    → o < 2 ^ 6
    → a ≤ maxarg_a
    → bc ≤ maxarg_bx
    → create_abx o a bc ≡ (bc * 2 ^ 8 + a) * 2 ^ 6 + o
unfolding create_abx
create_abx_lem o a bc ho ha hb =
    let eo : o * 2 ^ 0 % 2 ^ 32 ≡ o = omega arith in
    let ea : a * 2 ^ 6 % 2 ^ 32 ≡ a * 2 ^ 6 = omega arith in
    let eb : bc * 2 ^ 14 % 2 ^ 32 ≡ bc * 2 ^ 14 = omega arith in
    rw (eo, ea, eb, or_low 6 a o ho, or_low 14 bc (a * 2 ^ 6 + o) (omega arith)) (omega arith)

-- Instructions built by `CREATE_ABC` and `CREATE_ABx` from an opcode of 6 bits and arguments within their
-- limits are 32-bit words from which the getters read back the opcode and the arguments.
pub fields-create :
    (o a b c bc : ℕ)
    → o < 2 ^ 6
    → a ≤ maxarg_a
    → b ≤ maxarg_b
    → c ≤ maxarg_c
    → bc ≤ maxarg_bx
    → ((get_opcode (create_abc o a b c) ≡ o)
        × (getarg_a (create_abc o a b c) ≡ a)
        × (getarg_b (create_abc o a b c) ≡ b)
        × (getarg_c (create_abc o a b c) ≡ c)
        × (create_abc o a b c < 2 ^ 32))
      × ((get_opcode (create_abx o a bc) ≡ o)
          × (getarg_a (create_abx o a bc) ≡ a)
          × (getarg_bx (create_abx o a bc) ≡ bc)
          × (create_abx o a bc < 2 ^ 32))
fields-create o a b c bc ho ha hb hc hbc = (
  rw (create_abc_lem o a b c ho ha hb hc) (omega getters),
  rw (create_abx_lem o a bc ho ha hbc) (omega getters),
)

-- The fields that an assignment leaves alone.
abbrev pub SameBelowBx : Instruction → Instruction → Type 0
SameBelowBx i j = (get_opcode j ≡ get_opcode i) × (getarg_a j ≡ getarg_a i)

-- A write of `u` into each field of the word `i`.
abbrev pub WritesFields : ℕ → ℕ → Type 0
WritesFields i u =
    ((getarg_a (setarg_a i u) ≡ u % 2 ^ 8)
      × (get_opcode (setarg_a i u) ≡ get_opcode i)
      × (getarg_bx (setarg_a i u) ≡ getarg_bx i)
      × (setarg_a i u < 2 ^ 32))
    × ((getarg_b (setarg_b i u) ≡ u % 2 ^ 9)
        × SameBelowBx i (setarg_b i u)
        × (getarg_c (setarg_b i u) ≡ getarg_c i)
        × (setarg_b i u < 2 ^ 32))
    × ((getarg_c (setarg_c i u) ≡ u % 2 ^ 9)
        × SameBelowBx i (setarg_c i u)
        × (getarg_b (setarg_c i u) ≡ getarg_b i)
        × (setarg_c i u < 2 ^ 32))
    × ((getarg_bx (setarg_bx i u) ≡ u % 2 ^ 18)
        × SameBelowBx i (setarg_bx i u)
        × (setarg_bx i u < 2 ^ 32))
    × ((get_opcode (set_opcode i u) ≡ u % 2 ^ 6)
        × (getarg_a (set_opcode i u) ≡ getarg_a i)
        × (getarg_bx (set_opcode i u) ≡ getarg_bx i)
        × (set_opcode i u < 2 ^ 32))

-- Writing one field of a 32-bit word gives a 32-bit word in which that field holds the value,
-- truncated to the field's width, and every other field is unchanged.
pub fields-set : (i u : ℕ) → i < 2 ^ 32 → WritesFields i u
fields-set i u h = omega (getters, setters)

pos-or-neg : (b : ℤ) → (pos_part b ≡ 0) ⊎ (neg_part b ≡ 0)
pos-or-neg b = ground arith

-- A jump offset between -MAXARG_sBx and MAXARG_sBx + 1 is read back as it was written, and the
-- write changes neither the opcode nor the argument A.
pub getarg_sbx-setarg_sbx :
    (i : ℕ) (b : ℤ)
    → i < 2 ^ 32
    → neg_part b ≤ maxarg_sbx
    → pos_part b ≤ maxarg_sbx + 1
    → (getarg_sbx (setarg_sbx i b) ≡ b) × SameBelowBx i (setarg_sbx i b) × (setarg_sbx i b < 2 ^ 32)
unfolding getarg_sbx setarg_sbx
getarg_sbx-setarg_sbx i b h lo hi =
    let v = (pos_part b + maxarg_sbx + 2 ^ 32 - neg_part b) % 2 ^ 32 in
    let bx : getarg_bx (setarg_bx i v) ≡ pos_part b + maxarg_sbx - neg_part b =
      omega (getters, setters, pos-or-neg b) in
    (ground (arith, bx), omega (getters, setters), omega setters)

rk_operand_test : ℕ → Bool
unfolding isk indexk rkask
rk_operand_test x =
    isk (rkask x) && (indexk (rkask x) == x) && leb (rkask x) maxarg_b && not (isk x)

rk_operand_table : every 256 rk_operand_test ≡ true
unfolding rk_operand_test every
rk_operand_table = refl

-- A constant's index up to MAXINDEXRK, coded as an RK operand, is taken for a constant, decodes to
-- the index and fits the argument; a register's number in that range is not taken for a constant.
pub rk_operand :
    (x : ℕ)
    → x ≤ maxindexrk
    → (isk (rkask x) ≡ true) × (indexk (rkask x) ≡ x) × (rkask x ≤ maxarg_b) × (isk x ≡ false)
unfolding rk_operand_test
rk_operand x h = ground (arith, every_holds 256 rk_operand_test rk_operand_table x (omega arith))
