-- ===== src/Verifier/Tests.antt =====
-- A function with a test, a SETLIST whose count looks like another one, and a closure with a captured
-- variable; and a LOADBOOL that the verifier lets skip out of the code.
use gafq.Prelude.{
  ℕ, zero, suc, ◌+◌, ◌*◌, ◌^◌, ◌%◌, ◌<◌, ◌≤◌, ◌≡◌, ◌↔◌, refl, sym, ap, true, false, none, some,
  List, [], ◌∷◌, ◌++◌, arith,
}
use gafq.Prelude.Bits.{every, every_holds}
use gafq.Prelude.Int.{pos}
use gafq.Prelude.Run.{ok}
use gafq.Opcodes.{
  get_opcode, getarg_a, getarg_b, getarg_c, getarg_bx, getarg_sbx, get_field, isk, indexk,
}
use gafq.Chunk.Dump.{protos_size}
use gafq.Opcodes.Modes.{
  get_op_mode, get_b_mode, get_c_mode, test_a_mode, test_t_mode, opmode, opmodes, opmodes_table,
  code, op_loadbool,
}
use gafq.Chunk.{Fields, Proto, proto, no_protos, protos}
use mathlib.Core.List.{append-nil}
use gafq.Zio.Stream.{ends, sends, Content}
use gafq.Zio.Buffer.{initbuffer}
use gafq.Chunk.Header.{x86_64}
use gafq.Chunk.Dump.{dump}
use gafq.Chunk.Undump.{LoadState, undump, maxccalls}
use gafq.Chunk.Prototypes.{Fits, ProtosFit, FieldsFit, depth, depth_protos, Passes, ProtosPass}
use gafq.Chunk.RoundTrip.{append_writer, Named, ProtosNamed, undump-dump_whole}
use gafq.Verifier.{
  instr, sizecode, opcodes, precheck, precheck_sizes, ends_in_return, check_instr, decode,
  check_operands, check_arg_mode, check_dest, setlist_run, open_setlist, check_skip, check_op,
  checkopenop, is_string, nested_nups, check_captures,
}
use gafq.Verifier.Symbolic.{
  checkcode, symbexec, symbexec_loop, after_check, checked, next_pc, after_jump, changes,
  changes_op,
}
use gafq.Verifier.Flow.{
  Visited, successors, successors_at, Reaches, entry, goes, Visited-setlist_run,
}
use gafq.Verifier.Accepted.{checked-checkcode}
use gafq.Verifier.Safety.{Reaches-checked, undump-Reaches}

abbrev fields : ℕ → ℕ → List ℕ → Fields
fields nups stack words = record {
  source = none;
  linedefined = 0;
  lastlinedefined = 0;
  nups = nups;
  numparams = 0;
  is_vararg = 0;
  maxstacksize = stack;
  code = words;
  k = [];
  lineinfo = [];
  locvars = [];
  upvalues = [];
}

abbrev inner : Proto
inner = proto (fields 1 2 (8388638 ∷ [])) no_protos

-- EQ 1 0 0; JMP 1; LOADNIL 0 0; SETLIST 0 1 0 and its count; CLOSURE 1 0 and its MOVE 0 0; RETURN 0 1
abbrev words : List ℕ
words = 87 ∷ 2147483670 ∷ 3 ∷ 8388642 ∷ 34 ∷ 100 ∷ 0 ∷ 8388638 ∷ []

abbrev outer : Fields
outer = fields 0 4 words

outer_accepted : checkcode (proto outer (protos inner no_protos)) ≡ true
unfolding checkcode symbexec symbexec_loop after_check checked next_pc after_jump changes changes_op
    opcodes precheck precheck_sizes ends_in_return check_instr decode check_operands check_arg_mode
    check_dest setlist_run open_setlist check_skip check_op checkopenop is_string nested_nups
    check_captures get_op_mode get_b_mode get_c_mode test_a_mode test_t_mode opmode opmodes
    opmodes_table get_opcode getarg_a getarg_b getarg_c getarg_bx getarg_sbx get_field isk indexk
    protos_size
outer_accepted = refl

-- A jump to the count is refused.
count_refused :
    checkcode
      (proto (fields 0 4 ((22 + 131073 * 2 ^ 14) ∷ 3 ∷ 8388642 ∷ 34 ∷ 8388638 ∷ [])) no_protos)
    ≡ false
unfolding checkcode symbexec symbexec_loop after_check checked next_pc after_jump changes changes_op
    opcodes precheck precheck_sizes ends_in_return check_instr decode check_operands check_arg_mode
    check_dest setlist_run open_setlist check_skip check_op checkopenop is_string nested_nups
    check_captures get_op_mode get_b_mode get_c_mode test_a_mode test_t_mode opmode opmodes
    opmodes_table get_opcode getarg_a getarg_b getarg_c getarg_bx getarg_sbx get_field isk indexk
    protos_size
count_refused = refl

-- More names of upvalues than upvalues, and line information for another number of instructions.
sizes_refused :
    (precheck (record outer { upvalues = none ∷ none ∷ [] }) ≡ false)
    × (precheck (record outer { lineinfo = 1 ∷ [] }) ≡ false)
unfolding precheck precheck_sizes ends_in_return get_opcode get_field
sizes_refused = (refl, refl)

-- The last change of register 1 is the closure; of register 3, none.
traced : symbexec (proto outer (protos inner no_protos)) 7 1 ≡ 100
unfolding symbexec symbexec_loop after_check checked next_pc after_jump changes changes_op opcodes
    precheck precheck_sizes ends_in_return check_instr decode check_operands check_arg_mode
    check_dest setlist_run open_setlist check_skip check_op checkopenop is_string nested_nups
    check_captures get_op_mode get_b_mode get_c_mode test_a_mode test_t_mode opmode opmodes
    opmodes_table get_opcode getarg_a getarg_b getarg_c getarg_bx getarg_sbx get_field isk indexk
    protos_size
traced = refl

untouched : symbexec (proto outer (protos inner no_protos)) 7 3 ≡ 8388638
unfolding symbexec symbexec_loop after_check checked next_pc after_jump changes changes_op opcodes
    precheck precheck_sizes ends_in_return check_instr decode check_operands check_arg_mode
    check_dest setlist_run open_setlist check_skip check_op checkopenop is_string nested_nups
    check_captures get_op_mode get_b_mode get_c_mode test_a_mode test_t_mode opmode opmodes
    opmodes_table get_opcode getarg_a getarg_b getarg_c getarg_bx getarg_sbx get_field isk indexk
    protos_size
untouched = refl

-- LOADBOOL 0 0 2 skips the last instruction.
loadbool_accepted : checkcode (proto (fields 0 2 (32770 ∷ 8388638 ∷ [])) no_protos) ≡ true
unfolding checkcode symbexec symbexec_loop after_check checked next_pc after_jump changes changes_op
    opcodes precheck precheck_sizes ends_in_return check_instr decode check_operands check_arg_mode
    check_dest setlist_run open_setlist check_skip check_op checkopenop is_string nested_nups
    check_captures get_op_mode get_b_mode get_c_mode test_a_mode test_t_mode opmode opmodes
    opmodes_table get_opcode getarg_a getarg_b getarg_c getarg_bx getarg_sbx get_field isk indexk
    protos_size
loadbool_accepted = refl

loadbool_outside : successors_at (fields 0 2 (32770 ∷ 8388638 ∷ [])) no_protos 0 ≡ pos 2 ∷ []
unfolding successors_at successors opcodes get_opcode getarg_c
loadbool_outside = refl

no_loadbool : (p : ℕ) → get_opcode (instr outer p) ≡ code op_loadbool → getarg_c (instr outer p) ≤ 1
unfolding get_opcode
no_loadbool zero e = absurd (omega arith)
no_loadbool (suc zero) e = absurd (omega arith)
no_loadbool (suc (suc zero)) e = absurd (omega arith)
no_loadbool (suc (suc (suc zero))) e = absurd (omega arith)
no_loadbool (suc (suc (suc (suc zero)))) e = absurd (omega arith)
no_loadbool (suc (suc (suc (suc (suc zero))))) e = absurd (omega arith)
no_loadbool (suc (suc (suc (suc (suc (suc zero)))))) e = absurd (omega arith)
no_loadbool (suc (suc (suc (suc (suc (suc (suc zero))))))) e = absurd (omega arith)
no_loadbool (suc (suc (suc (suc (suc (suc (suc (suc p)))))))) e = absurd (omega arith)

-- Over the test, over the count, and over the captured variable.
to_the_end : Reaches outer (protos inner no_protos) (pos 7)
unfolding successors_at successors opcodes get_opcode getarg_c getarg_bx getarg_sbx nested_nups
to_the_end = goes {p = 5} 0 (goes {p = 3} 0 (goes {p = 0} 1 entry refl) refl) refl

Reaches-checked_example :
    (q : ℕ) × (pos 7 ≡ pos q)
    × (q < sizecode outer)
    × (setlist_run outer q % 2 ≡ 0)
    × (check_instr outer (protos inner no_protos) q ≡ true)
Reaches-checked_example =
    Reaches-checked outer (protos inner no_protos) (pos 7) outer_accepted no_loadbool to_the_end

Visited-setlist_run_example : Visited outer 5 ↔ (setlist_run outer 5 % 2 ≡ 0)
Visited-setlist_run_example = Visited-setlist_run outer 5

all_pass : every 8 (λ p. check_instr outer (protos inner no_protos) p) ≡ true
unfolding every checkcode symbexec symbexec_loop after_check checked next_pc after_jump changes
    changes_op opcodes precheck precheck_sizes ends_in_return check_instr decode check_operands
    check_arg_mode check_dest setlist_run open_setlist check_skip check_op checkopenop is_string
    nested_nups check_captures get_op_mode get_b_mode get_c_mode test_a_mode test_t_mode opmode
    opmodes opmodes_table get_opcode getarg_a getarg_b getarg_c getarg_bx getarg_sbx get_field isk
    indexk protos_size
all_pass = refl

outer_prechecked : precheck outer ≡ true
unfolding precheck precheck_sizes ends_in_return get_opcode
outer_prechecked = refl

checked-checkcode_example : checkcode (proto outer (protos inner no_protos)) ≡ true
checked-checkcode_example =
    checked-checkcode outer (protos inner no_protos) outer_prechecked
      (λ p v h. every_holds 8 (λ q. check_instr outer (protos inner no_protos) q) all_pass p h)

-- A function that is saved and loaded: JMP 0; RETURN 0 1.
abbrev short : Fields
short = record (fields 0 2 (2147467286 ∷ 8388638 ∷ [])) { source = some (b'@' ∷ []) }

short-FieldsFit : FieldsFit short
short-FieldsFit = record {
  source = omega arith;
  linedefined = omega arith;
  lastlinedefined = omega arith;
  nups = omega arith;
  numparams = omega arith;
  is_vararg = omega arith;
  maxstacksize = omega arith;
  sizecode = omega arith;
  code = (omega arith, (omega arith, tt));
  sizek = omega arith;
  k = tt;
  sizelineinfo = omega arith;
  lineinfo = tt;
  sizelocvars = omega arith;
  locvars = tt;
  sizeupvalues = omega arith;
  upvalues = tt;
}

short-Fits : Fits (proto short no_protos)
unfolding Fits ProtosFit protos_size
short-Fits = (short-FieldsFit, omega arith, tt)

short-Named : Named (proto short no_protos)
unfolding Named ProtosNamed
short-Named = ((b'@' ∷ [], refl), tt)

short-Passes : Passes checkcode (proto short no_protos)
unfolding Passes ProtosPass checkcode symbexec symbexec_loop after_check checked next_pc after_jump
    changes changes_op opcodes precheck precheck_sizes ends_in_return check_instr decode
    check_operands check_arg_mode check_dest setlist_run open_setlist check_skip check_op
    checkopenop is_string nested_nups check_captures get_op_mode get_b_mode get_c_mode test_a_mode
    test_t_mode opmode opmodes opmodes_table get_opcode getarg_a getarg_b getarg_c getarg_bx
    getarg_sbx get_field isk indexk protos_size
short-Passes = (refl, tt)

short-depth : depth (proto short no_protos) + 0 ≤ maxccalls
unfolding depth depth_protos
short-depth = omega arith

abbrev chunk : List ℕ
chunk = (dump x86_64 (proto short no_protos) append_writer [] false).1

abbrev loading : List ℕ → LoadState (List ℕ)
loading bs = record {
  zio = record { n = 0; p = []; reader = λ cs. (cs, []); user = bs };
  b = initbuffer;
}

loading-Content : (bs : List ℕ) → Content (loading bs).zio bs
loading-Content [] = record { filled = refl; rest = []; delivers = ends refl refl; whole = refl }
loading-Content (c ∷ bs) = record {
  filled = refl;
  rest = c ∷ bs;
  delivers = sends c bs [] refl (ends refl refl) (ap (λ r. c ∷ r) (sym (append-nil bs)));
  whole = refl;
}

loaded :
    (s' : LoadState (List ℕ)) × (undump x86_64 checkcode 0 (loading (chunk ++ []))
      ≡ ok (proto short no_protos, s'))
    × Content s'.zio []
loaded =
    undump-dump_whole x86_64 checkcode (proto short no_protos) 0 (loading (chunk ++ [])) []
      short-Named short-Fits short-depth short-Passes (loading-Content (chunk ++ []))

short_no_loadbool :
    (p : ℕ) → get_opcode (instr short p) ≡ code op_loadbool → getarg_c (instr short p) ≤ 1
unfolding get_opcode
short_no_loadbool zero e = absurd (omega arith)
short_no_loadbool (suc zero) e = absurd (omega arith)
short_no_loadbool (suc (suc p)) e = absurd (omega arith)

short_jump : Reaches short no_protos (pos 1)
unfolding successors_at successors opcodes get_opcode getarg_sbx getarg_bx
short_jump = goes {p = 0} 0 entry refl

undump-Reaches_example :
    (q : ℕ) × (pos 1 ≡ pos q) × (q < sizecode short) × (check_instr short no_protos q ≡ true)
undump-Reaches_example =
    undump-Reaches x86_64 0 (loading (chunk ++ [])) loaded.0 short no_protos (pos 1) loaded.1
      short_no_loadbool short_jump
