-- ===== src/Codegen/Emit.antt =====
-- Putting instructions into the code (gcode.c).
use gafq.Prelude.{
  ℕ, ◌+◌, ◌-◌, ◌/◌, Bool, true, ◌&&◌, Option, none, some, ltb, leb, ◌==◌, if◌then◌else◌,
}
use gafq.Prelude.Int.{ℤ, pos, negsuc, pos_part}
use gafq.Prelude.Run.{ok, returning, ◌>>=◌, ◌>>◌, get, modify}
use gafq.Opcodes.{
  Instruction, maxarg_sbx, maxarg_c, get_opcode, getarg_a, getarg_b, setarg_b, create_abc,
  create_abx, lfields_per_flush,
}
use gafq.Opcodes.Modes.{OpCode, code, op_jmp, op_loadnil, op_return, op_setlist, op_loadbool}
use gafq.Mem.{max_int}
use gafq.Codegen.{code_size_overflow, Jumps, FuncState, Gen, set_code, store, grow}
use gafq.Codegen.Jumps.{dischargejpc, concat, getlabel}

-- `f->code[fs->pc]=i; f->lineinfo[fs->pc]=line; return fs->pc++`, after both arrays have grown.
unfoldable pub put : Instruction → ℕ → ℕ → ℕ → Gen ℕ
put i line sizecode sizelineinfo fs = ok (
  fs.pc,
  record fs {
    code_at = store fs.code_at fs.pc i;
    lineinfo = store fs.lineinfo fs.pc line;
    sizecode = sizecode;
    sizelineinfo = sizelineinfo;
    pc = fs.pc + 1;
  },
)

-- `gafqK_code`
unfoldable pub gen_code : Instruction → ℕ → Gen ℕ
gen_code i line = do
  dischargejpc
  fs ← get
  sizecode ← grow fs.pc fs.sizecode max_int code_size_overflow
  sizelineinfo ← grow fs.pc fs.sizelineinfo max_int code_size_overflow
  put i line sizecode sizelineinfo

-- `gafqK_codeABC`
unfoldable pub code_abc : OpCode → ℕ → ℕ → ℕ → Gen ℕ
code_abc o a b c = do fs ← get; gen_code (create_abc (code o) a b c) fs.lastline

-- `gafqK_codeABx`
unfoldable pub code_abx : OpCode → ℕ → ℕ → Gen ℕ
code_abx o a bc = do fs ← get; gen_code (create_abx (code o) a bc) fs.lastline

-- `gafqK_jump`: the jump with its target, NO_JUMP, unset, and the pending jumps behind it.
unfoldable pub jump : Gen Jumps
jump = do
  fs ← get
  modify (λ fs. record fs { jpc = none })
  j ← code_abx op_jmp 0 (maxarg_sbx - 1)
  concat (some j) fs.jpc

-- A count of values and one; GAFQ_MULTRET is -1.
abbrev pub one_more : ℤ → ℕ
one_more (pos n) = n + 1
one_more (negsuc n) = 0

-- `gafqK_ret`
unfoldable pub ret : ℕ → ℤ → Gen ℕ
ret first nret = code_abc op_return first (one_more nret) 0

unfoldable pub condjump : OpCode → ℕ → ℕ → ℕ → Gen Jumps
condjump o a b c = do i ← code_abc o a b c; jump

unfoldable pub code_label : ℕ → ℕ → ℕ → Gen ℕ
code_label a b skip = do label ← getlabel; code_abc op_loadbool a b skip

-- `fs->pc > fs->lasttarget`
unfoldable pub no_target_here : FuncState → Bool
no_target_here fs = elim fs.lasttarget [ none ↦ true | some target ↦ ltb target fs.pc ]

-- What `gafqK_nil` does with the instruction before `pc`, if it can be made to set the registers too.
unfoldable pub extend_nil : ℕ → ℕ → FuncState → Option FuncState
unfolding set_code
extend_nil from n fs =
    let previous = fs.code_at (fs.pc - 1) in
    if get_opcode previous == code op_loadnil
      && (leb (getarg_a previous) from && leb from (getarg_b previous + 1))
    then some (
        if ltb (getarg_b previous) (from + n - 1)
        then set_code (fs.pc - 1) (setarg_b previous (from + n - 1)) fs
        else fs)
    else none

-- Whether the function still starts with `nil` in the registers.
unfoldable pub without_code : ℕ → ℕ → FuncState → Option FuncState
without_code from n fs =
    if no_target_here fs
    then (if fs.pc == 0
        then (if leb fs.nactvar from then some fs else none)
        else extend_nil from n fs)
    else none

-- `gafqK_nil` for `n` registers, at least one.
unfoldable pub gen_nil : ℕ → ℕ → Gen (Unit {0})
gen_nil from n fs = elim (without_code from n fs) [
  | some fs' ↦ ok (tt, fs')
  | none ↦ (code_abc op_loadnil from (from + n - 1) 0 >>= λ pc. returning tt) fs
]

-- `gafqK_fixline`
unfoldable pub fixline : ℕ → FuncState → FuncState
fixline line fs = record fs { lineinfo = store fs.lineinfo (fs.pc - 1) line }

-- `gafqK_setlist`; `tostore` is negative for GAFQ_MULTRET and never 0.
unfoldable pub setlist : ℕ → ℕ → ℤ → Gen (Unit {0})
setlist base nelems tostore = do
  let c = (nelems - 1) / lfields_per_flush + 1
  let b = pos_part tostore
  fs ← get
  pc ←
      if leb c maxarg_c
      then code_abc op_setlist base b c
      else (do first ← code_abc op_setlist base b 0; gen_code c fs.lastline)
  modify (λ fs. record fs { freereg = base + 1 })
