-- ===== src/Opcodes/Tests.antt =====
-- The instruction layout at concrete words.
use gafq.Prelude.{ℕ, ◌^◌, ◌<◌, ◌≤◌, ◌≡◌, refl, arith, true, false}
use gafq.Prelude.Int.{negsuc}
use gafq.Opcodes.{
  get_opcode, getarg_a, getarg_b, getarg_c, getarg_bx, getarg_sbx, setarg_sbx, create_abc,
  create_abx, isk, indexk, rkask, maxarg_b,
}
use gafq.Opcodes.Modes.{code, op_add}
use gafq.Opcodes.Layout.{
  fields-create, fields-set, getarg_sbx-setarg_sbx, rk_operand, SameBelowBx, WritesFields,
}

-- ADD 2 3 (K 5)
abbrev add_word : ℕ
add_word = create_abc (code op_add) 2 3 261

add_word_bits : add_word ≡ 0b000000011_100000101_00000010_001100
unfolding create_abc
add_word_bits = refl

fields-create_example :
    ((get_opcode add_word ≡ 12)
      × (getarg_a add_word ≡ 2)
      × (getarg_b add_word ≡ 3)
      × (getarg_c add_word ≡ 261)
      × (add_word < 2 ^ 32))
    × ((get_opcode (create_abx 12 2 200000) ≡ 12)
        × (getarg_a (create_abx 12 2 200000) ≡ 2)
        × (getarg_bx (create_abx 12 2 200000) ≡ 200000)
        × (create_abx 12 2 200000 < 2 ^ 32))
fields-create_example =
    fields-create 12 2 3 261 200000 (omega arith) (omega arith) (omega arith) (omega arith)
      (omega arith)

fields-set_example : WritesFields 0x0180808c 300
fields-set_example = fields-set 0x0180808c 300 (omega arith)

getarg_sbx-setarg_sbx_example :
    (getarg_sbx (setarg_sbx 22 (negsuc 9)) ≡ negsuc 9)
    × SameBelowBx 22 (setarg_sbx 22 (negsuc 9))
    × (setarg_sbx 22 (negsuc 9) < 2 ^ 32)
getarg_sbx-setarg_sbx_example =
    getarg_sbx-setarg_sbx 22 (negsuc 9) (omega arith) (omega arith) (omega arith)

rk_operand_example :
    (isk (rkask 5) ≡ true) × (indexk (rkask 5) ≡ 5) × (rkask 5 ≤ maxarg_b) × (isk 5 ≡ false)
rk_operand_example = rk_operand 5 (omega arith)
