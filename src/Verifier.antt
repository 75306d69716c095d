-- ===== src/Verifier.antt =====
-- The bytecode verifier, and the search for the instruction that last set a register (gdebug.c).
pub mod Symbolic
pub mod Flow
pub mod Checks
pub mod Accepted
pub mod Targets
pub mod Safety
mod Tests
use gafq.Prelude.{
  ℕ, zero, suc, ◌+◌, ◌-◌, ◌%◌, Bool, true, false, not, ◌&&◌, ◌||◌, Option, none, some, List, [],
  ◌∷◌, length, get_or, get_elem?, bit_and, ltb, leb, ◌==◌, if◌then◌else◌,
}
use gafq.Prelude.Int.{ℤ, pos, negsuc, pos_part, neg_part, sub_ℕ}
use gafq.Opcodes.{
  Instruction, get_opcode, getarg_a, getarg_b, getarg_c, getarg_bx, getarg_sbx, isk, indexk, no_reg,
}
use gafq.Opcodes.Modes.{
  OpCode, code, iabc, iabx, arg_n, arg_u, arg_r, arg_k, get_op_mode, get_b_mode, get_c_mode,
  test_a_mode, test_t_mode, op_move, op_loadk, op_loadbool, op_loadnil, op_getupval, op_getglobal,
  op_gettable, op_setglobal, op_setupval, op_settable, op_newtable, op_self, op_add, op_sub, op_mul,
  op_div, op_mod, op_pow, op_unm, op_not, op_len, op_concat, op_jmp, op_eq, op_lt, op_le, op_test,
  op_testset, op_call, op_tailcall, op_return, op_forloop, op_forprep, op_tforloop, op_setlist,
  op_close, op_closure, op_vararg,
}
use gafq.Chunk.{
  Constant, nil, boolean, number, string, Fields, Proto, proto, Protos, no_protos, protos,
}
use gafq.Chunk.Dump.{protos_size}
use gafq.Codegen.Registers.{maxstack}

-- The bits of `is_vararg`.
abbrev pub vararg_hasarg : ℕ
vararg_hasarg = 1

abbrev pub vararg_isvararg : ℕ
vararg_isvararg = 2

abbrev pub vararg_needsarg : ℕ
vararg_needsarg = 4

abbrev pub has_bit : ℕ → ℕ → Bool
has_bit x m = not (bit_and x m == 0)

-- `pt->code[pc]`; the places that read it test `pc` first.
abbrev pub instr : Fields → ℕ → Instruction
instr f pc = get_or f.code pc 0

abbrev pub sizecode : Fields → ℕ
sizecode f = length f.code

abbrev pub sizek : Fields → ℕ
sizek f = length f.k

-- `b` implies `c`, for the checks that a condition guards.
infixr 30 ◌implies◌
abbrev pub ◌implies◌ : Bool → Bool → Bool
b implies c = not b || c

-- The arities, and the sizes of the debug information.
unfoldable pub precheck_sizes : Fields → Bool
precheck_sizes f =
    leb (f.numparams + bit_and f.is_vararg vararg_hasarg) f.maxstacksize
    && ((has_bit f.is_vararg vararg_needsarg implies has_bit f.is_vararg vararg_hasarg)
        && (leb (length f.upvalues) f.nups
            && (length f.lineinfo == sizecode f || length f.lineinfo == 0)))

unfoldable pub ends_in_return : Fields → Bool
ends_in_return f = ltb 0 (sizecode f) && get_opcode (instr f (sizecode f - 1)) == code op_return

unfoldable pub precheck : Fields → Bool
unfolding precheck_sizes ends_in_return
precheck f = leb f.maxstacksize maxstack && (precheck_sizes f && ends_in_return f)

-- `gafqG_checkopenop`
unfoldable pub checkopenop : Instruction → Bool
checkopenop i =
    let op = get_opcode i in
    (op == code op_call
      || (op == code op_tailcall || (op == code op_return || op == code op_setlist)))
    && getarg_b i == 0

unfoldable pub check_arg_mode : Fields → ℕ → ℕ → Bool
check_arg_mode f r mode =
    if mode == arg_n
    then r == 0
    else if mode == arg_u
    then true
    else if mode == arg_r
    then ltb r f.maxstacksize
    else if isk r
    then ltb (indexk r) (sizek f)
    else ltb r f.maxstacksize

-- A SETLIST whose count is the next word of the code.
unfoldable pub open_setlist : Fields → ℕ → Bool
open_setlist f pc = get_opcode (instr f pc) == code op_setlist && getarg_c (instr f pc) == 0

-- The loop over `j`: how many words just before `dest` look like such a SETLIST.
unfoldable pub setlist_run : Fields → ℕ → ℕ
setlist_run f zero = 0
setlist_run f (suc d) = let before = setlist_run f d in if open_setlist f d then suc before else 0

-- The target of a jump is in the code, and no count of a SETLIST.
unfoldable pub check_dest : Fields → ℤ → Bool
check_dest f (negsuc n) = false
check_dest f (pos dest) = ltb dest (sizecode f) && setlist_run f dest % 2 == 0

-- The opcode and the arguments of an instruction, `b` as its format has it, and the target `pc+1+b`.
pub record Decoded : Type 0 where
  pub op : ℕ
  pub a : ℕ
  pub b : ℕ
  pub c : ℕ
  pub dest : ℤ

abbrev pub jump_dest : Instruction → ℕ → ℤ
jump_dest i pc = sub_ℕ (pc + 1 + pos_part (getarg_sbx i)) (neg_part (getarg_sbx i))

unfoldable pub decode : Instruction → ℕ → Decoded
decode i pc =
    let op = get_opcode i in
    let mode = get_op_mode op in
    record {
      op = op;
      a = getarg_a i;
      b = if mode == iabc then getarg_b i else getarg_bx i;
      c = if mode == iabc then getarg_c i else 0;
      dest = jump_dest i pc;
    }

-- `switch (getOpMode(op))`
unfoldable pub check_operands : Fields → Decoded → Bool
unfolding check_arg_mode check_dest
check_operands f d =
    let mode = get_op_mode d.op in
    if mode == iabc
    then check_arg_mode f d.b (get_b_mode d.op) && check_arg_mode f d.c (get_c_mode d.op)
    else if mode == iabx
    then get_b_mode d.op == arg_k implies ltb d.b (sizek f)
    else get_b_mode d.op == arg_r implies check_dest f d.dest

-- After a test there is a jump, and an instruction behind it.
unfoldable pub check_skip : Fields → ℕ → ℕ → Bool
check_skip f op pc =
    test_t_mode op
    implies (ltb (pc + 2) (sizecode f) && get_opcode (instr f (pc + 1)) == code op_jmp)

-- `enum OpCode` from its number; none from NUM_OPCODES on.
unfoldable pub opcodes : List OpCode
opcodes =
    op_move ∷ op_loadk ∷ op_loadbool ∷ op_loadnil ∷ op_getupval ∷ op_getglobal ∷ op_gettable
    ∷ op_setglobal ∷ op_setupval ∷ op_settable ∷ op_newtable ∷ op_self ∷ op_add ∷ op_sub ∷ op_mul
    ∷ op_div ∷ op_mod ∷ op_pow ∷ op_unm ∷ op_not ∷ op_len ∷ op_concat ∷ op_jmp ∷ op_eq ∷ op_lt
    ∷ op_le ∷ op_test ∷ op_testset ∷ op_call ∷ op_tailcall ∷ op_return ∷ op_forloop ∷ op_forprep
    ∷ op_tforloop ∷ op_setlist ∷ op_close ∷ op_closure ∷ op_vararg ∷ []

unfoldable pub is_string : Option Constant → Bool
is_string (some (string s)) = true
is_string _ = false

-- `pt->p[b]->nups`
unfoldable pub nested_nups : Protos → ℕ → ℕ
nested_nups no_protos b = 0
nested_nups (protos (proto f ps) fs) zero = f.nups
nested_nups (protos f fs) (suc b) = nested_nups fs b

-- The `nup` words from `pc` on, which capture the upvalues of a closure.
unfoldable pub check_captures : Fields → ℕ → ℕ → Bool
check_captures f pc zero = true
check_captures f pc (suc nup) =
    (get_opcode (instr f pc) == code op_getupval || get_opcode (instr f pc) == code op_move)
    && check_captures f (pc + 1) nup

abbrev pub call_check : Fields → ℕ → Decoded → Bool
call_check f pc d = d.b == 0 || ltb (d.a + d.b - 1) f.maxstacksize

-- `c` is one more than the number of results; 0 is GAFQ_MULTRET.
abbrev pub results_check : Fields → ℕ → Decoded → Bool
results_check f pc d =
    if d.c == 0
    then checkopenop (instr f (pc + 1))
    else if d.c == 1
    then true
    else ltb (d.a + d.c - 2) f.maxstacksize

-- `switch (op)`: what is left to check of the instruction.
unfoldable pub check_op : Fields → Protos → OpCode → ℕ → Decoded → Bool
unfolding open_setlist checkopenop is_string nested_nups check_captures
check_op f ps op_loadbool pc d =
    d.c == 1 implies (ltb (pc + 2) (sizecode f) && not (open_setlist f (pc + 1)))
check_op f ps op_getupval pc d = ltb d.b f.nups
check_op f ps op_setupval pc d = ltb d.b f.nups
check_op f ps op_getglobal pc d = is_string (get_elem? f.k d.b)
check_op f ps op_setglobal pc d = is_string (get_elem? f.k d.b)
check_op f ps op_self pc d = ltb (d.a + 1) f.maxstacksize
check_op f ps op_concat pc d = ltb d.b d.c
check_op f ps op_tforloop pc d = leb 1 d.c && ltb (d.a + 2 + d.c) f.maxstacksize
check_op f ps op_forloop pc d = ltb (d.a + 3) f.maxstacksize
check_op f ps op_forprep pc d = ltb (d.a + 3) f.maxstacksize
check_op f ps op_call pc d = call_check f pc d && results_check f pc d
check_op f ps op_tailcall pc d = call_check f pc d && results_check f pc d
check_op f ps op_return pc d = ltb 1 d.b implies ltb (d.a + d.b - 2) f.maxstacksize
check_op f ps op_setlist pc d =
    (d.b == 0 || ltb (d.a + d.b) f.maxstacksize) && (d.c == 0 implies ltb (pc + 1) (sizecode f - 1))
check_op f ps op_closure pc d =
    ltb d.b (protos_size ps)
    && (ltb (pc + nested_nups ps d.b) (sizecode f)
        && check_captures f (pc + 1) (nested_nups ps d.b))
check_op f ps op_vararg pc d =
    (has_bit f.is_vararg vararg_isvararg && not (has_bit f.is_vararg vararg_needsarg))
    && ((d.b == 0 implies checkopenop (instr f (pc + 1))) && ltb (d.a + d.b - 2) f.maxstacksize)
check_op f ps _ pc d = true

-- Whether the instruction at `pc` passes all checks.
unfoldable pub check_instr : Fields → Protos → ℕ → Bool
unfolding decode check_operands check_skip check_op
check_instr f ps pc =
    let d = decode (instr f pc) pc in
    elim (get_elem? opcodes d.op) [
      | none ↦ false
      | some o ↦
          ltb d.a f.maxstacksize
          && (check_operands f d && (check_skip f d.op pc && check_op f ps o pc d))
    ]
