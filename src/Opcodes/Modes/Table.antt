-- ===== src/Opcodes/Modes/Table.antt =====
-- Consistency of the table of instruction properties with its readers and with the code generator.
use gafq.Prelude.{ℕ, ◌^◌, ◌<◌, ◌≡◌, ◌≢◌, refl, arith, Bool, true, false, not, ◌&&◌, ◌||◌, ◌==◌}
use gafq.Prelude.Bits.{every, every_holds}
use gafq.Opcodes.Modes.{
  OpCode, code, get_op_mode, get_c_mode, test_t_mode, iabc, arg_n, num_opcodes,
}

-- What the code generator asserts of the table, for one opcode.
consistent : ℕ → Bool
consistent o = (get_op_mode o == iabc) || ((get_c_mode o == arg_n) && not (test_t_mode o))

consistent_table : every num_opcodes consistent ≡ true
unfolding consistent every get_op_mode get_c_mode test_t_mode
consistent_table = refl

code-lt : (op : OpCode) → code op < num_opcodes
code-lt OpCode.op_move = omega arith
code-lt _ = omega arith

-- Every opcode that is not of the format iABC fits the six bits of its field, has no argument C and
-- is no test.
pub opmodes_consistent :
    (op : OpCode)
    → get_op_mode (code op) ≢ iabc
    → (code op < 2 ^ 6) × (get_c_mode (code op) ≡ arg_n) × (test_t_mode (code op) ≡ false)
unfolding consistent
opmodes_consistent op h =
    ground (
      arith,
      code-lt op,
      every_holds num_opcodes consistent consistent_table (code op) (code-lt op),
    )
