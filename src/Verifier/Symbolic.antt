-- ===== src/Verifier/Symbolic.antt =====
-- The loop of the symbolic execution: which instructions change the register in question, where the
-- loop goes on, and what it returns (`symbexec` and `gafqG_checkcode`, gdebug.c).
use gafq.Prelude.{
  ℕ, zero, suc, ◌+◌, ◌-◌, Bool, true, false, not, ◌&&◌, ◌||◌, Option, none, some, get_elem?, ltb,
  leb, ◌==◌, if◌then◌else◌,
}
use gafq.Prelude.Int.{ℤ, pos, negsuc}
use gafq.Opcodes.{Instruction, no_reg}
use gafq.Opcodes.Modes.{
  OpCode, test_a_mode, op_loadnil, op_self, op_jmp, op_call, op_tailcall, op_forloop, op_forprep,
  op_tforloop, op_setlist, op_closure,
}
use gafq.Chunk.{Fields, Proto, proto, Protos}
use gafq.Verifier.{instr, sizecode, precheck, Decoded, decode, nested_nups, check_instr, opcodes}

-- Where the cases of `switch (op)` set `last`.
unfoldable pub changes_op : OpCode → ℕ → Decoded → Bool
changes_op op_loadnil reg d = leb d.a reg && leb reg d.b
changes_op op_self reg d = reg == d.a + 1
changes_op op_tforloop reg d = leb (d.a + 2) reg
changes_op op_call reg d = leb d.a reg
changes_op op_tailcall reg d = leb d.a reg
changes_op _ reg d = false

-- Whether the instruction may change the register.
unfoldable pub changes : OpCode → ℕ → Decoded → Bool
unfolding changes_op
changes o reg d = test_a_mode d.op && d.a == reg || changes_op o reg d

-- A jump that is followed when a register is traced: forward, and not past `lastpc`.
unfoldable pub after_jump : ℕ → ℕ → ℕ → ℤ → ℕ
after_jump reg lastpc pc (negsuc n) = pc + 1
after_jump reg lastpc pc (pos dest) =
    if not (reg == no_reg) && (ltb pc dest && leb dest lastpc) then dest else pc + 1

-- The `pc` of the next round, the loop's own `pc++` included.
unfoldable pub next_pc : Protos → OpCode → ℕ → ℕ → ℕ → Decoded → ℕ
unfolding after_jump
next_pc ps op_jmp reg lastpc pc d = after_jump reg lastpc pc d.dest
next_pc ps op_forloop reg lastpc pc d = after_jump reg lastpc pc d.dest
next_pc ps op_forprep reg lastpc pc d = after_jump reg lastpc pc d.dest
next_pc ps op_setlist reg lastpc pc d = if d.c == 0 then pc + 2 else pc + 1
next_pc ps op_closure reg lastpc pc d =
    if reg == no_reg then pc + 1 else pc + nested_nups ps d.b + 1
next_pc ps _ reg lastpc pc d = pc + 1

-- The opcode of an instruction that passes its checks.
unfoldable pub checked : Fields → Protos → ℕ → Option OpCode
checked f ps pc =
    if check_instr f ps pc then get_elem? opcodes (decode (instr f pc) pc).op else none

-- A round that fails ends the loop with 0; one that passes goes on.
unfoldable pub after_check : (OpCode → Instruction) → Option OpCode → Instruction
after_check go none = 0
after_check go (some o) = go o

-- The loop from `pc` on, with the last change so far; each round moves `pc` ahead, so that `lastpc`
-- rounds are enough.
unfoldable pub symbexec_loop : Fields → Protos → ℕ → ℕ → ℕ → ℕ → ℕ → Instruction
unfolding changes next_pc checked after_check
symbexec_loop f ps lastpc reg zero pc last = instr f last
symbexec_loop f ps lastpc reg (suc n) pc last = elim (ltb pc lastpc) [
  | false ↦ instr f last
  | true ↦
      let d = decode (instr f pc) pc in
      after_check
        (λ o.
          symbexec_loop f ps lastpc reg n (next_pc ps o reg lastpc pc d)
            (if changes o reg d then pc else last))
        (checked f ps pc)
]

unfoldable pub symbexec : Proto → ℕ → ℕ → Instruction
unfolding symbexec_loop
symbexec (proto f ps) lastpc reg =
    if precheck f then symbexec_loop f ps lastpc reg lastpc 0 (sizecode f - 1) else 0

-- `gafqG_checkcode`
unfoldable pub checkcode : Proto → Bool
unfolding symbexec
checkcode (proto f ps) = not (symbexec (proto f ps) (sizecode f) no_reg == 0)
