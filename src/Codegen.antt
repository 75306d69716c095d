-- ===== src/Codegen.antt =====
-- The state of the code generator (gcode.c, gcode.h, gparser.h) and what its
-- functions share.
pub mod Jumps
pub mod Emit
pub mod Registers
pub mod Expressions
pub mod Links
pub mod Patching
pub mod Landing
pub mod Coding
pub mod Allocation
mod Tests
use gafq.Prelude.{
  ℕ, zero, suc, ◌+◌, ◌-◌, ◌*◌, ◌/◌, ◌%◌, ◌^◌, Bool, true, false, not, ◌&&◌, ◌||◌, Option, none,
  some, List, [], ◌∷◌, ◌++◌, length, ltb, leb, ◌==◌, if◌then◌else◌,
}
pub use gafq.Prelude.{store}
use gafq.Prelude.Int.{ℤ, pos, negsuc, pos_part, neg_part, sub_ℕ}
use gafq.Prelude.Run.{Run, ok, error, returning, failing, bind, ◌>>=◌, ◌>>◌, get, modify, fail_if}
use gafq.Opcodes.{
  Instruction, maxarg_bx, maxarg_sbx, get_opcode, getarg_a, getarg_b, getarg_c, getarg_sbx,
  setarg_a, setarg_sbx, create_abc, create_abx, no_reg, maxarg_c, lfields_per_flush, setarg_b,
}
use gafq.Opcodes.Modes.{
  code, test_t_mode, op_jmp, op_test, op_testset, op_loadnil, op_return, op_setlist, OpCode,
}
use gafq.Chunk.{TString, Constant}
use gafq.Mem.{grown_size, max_int}

-- The errors that the generator raises.
pub data CodeError : Type 0 where
  control_structure_too_long too_complex constant_table_overflow code_size_overflow : CodeError
  index_is_nil index_is_nan : CodeError

-- A position in the code, or NO_JUMP, for the head of a patch list or for a link in it.
abbrev pub Jumps : Type 0
Jumps = Option ℕ

-- What a constant is looked up by: its value, or for `nil` the table of constants itself.
pub data Key : Type 0 where
  value : Constant → Key
  table_itself : Key

-- `FuncState`, with the fields of its `Proto` and the line of its `LexState` that the generator uses.
-- An array is a function from its indices; what it holds from `pc` on has no meaning.
pub record FuncState : Type 0 where
  pub code_at : ℕ → Instruction
  pub lineinfo : ℕ → ℕ
  pub sizecode : ℕ
  pub sizelineinfo : ℕ
  -- the `nk` constants in use, and the room for them
  pub k : List Constant
  pub sizek : ℕ
  pub h : List (Key × ℕ)
  pub pc : ℕ
  -- `none` for the initial -1
  pub lasttarget : Option ℕ
  pub jpc : Jumps
  pub freereg : ℕ
  pub nactvar : ℕ
  pub maxstacksize : ℕ
  pub lastline : ℕ

abbrev pub Gen {ℓ} : Type ℓ → Type ℓ
Gen A = Run CodeError FuncState A

unfoldable pub nk : FuncState → ℕ
nk fs = length fs.k

unfoldable pub set_code : ℕ → Instruction → FuncState → FuncState
set_code pc i fs = record fs { code_at = store fs.code_at pc i }

-- `gafqM_growvector`, where the allocation succeeds.
abbrev pub room_or {ℓ} : {A : Type ℓ} → CodeError → (ℕ → Gen A) → Option ℕ → Gen A
room_or e k none = failing e
room_or e k (some size) = k size

unfoldable pub grow : ℕ → ℕ → ℕ → CodeError → Gen ℕ
unfolding grown_size
grow nelems size limit e =
    if ltb size (nelems + 1) then room_or e returning (grown_size size limit) else returning size
