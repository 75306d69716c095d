-- ===== src/Verifier/Accepted.antt =====
-- What it means that the verifier accepts a function (`gafqG_checkcode`, gdebug.c): the loop checks the
-- visited instructions, all of them, and no others.
use gafq.Prelude.{
  ℕ, zero, suc, ◌+◌, ◌-◌, ◌%◌, ◌<◌, ◌≤◌, ◌≡◌, ◌≢◌, refl, sym, ◌∙◌, true, ◌&&◌, none, some, ltb, leb,
  if◌then◌else◌, arith, inl, inr, Bool-cases,
}
use mathlib.Core.Path.{subst}
use gafq.Prelude.Int.{ℤ, pos, negsuc}
use gafq.Opcodes.{Instruction, get_opcode, getarg_a, no_reg}
use gafq.Opcodes.Modes.{
  OpCode, code, op_move, op_return, op_setlist, op_jmp, op_forloop, op_forprep, get_op_mode,
  test_a_mode,
}
use gafq.Codegen.Registers.{maxstack}
use gafq.Chunk.{Fields, proto, Protos}
use gafq.Verifier.{
  instr, sizecode, precheck, precheck_sizes, ends_in_return, Decoded, decode, check_instr,
  open_setlist, setlist_run,
}
use gafq.Verifier.Symbolic.{
  changes_op, changes, after_jump, next_pc, checked, symbexec_loop, symbexec, checkcode,
}
use gafq.Verifier.Flow.{following, Visited, start, step, Visited-even, run_open}
use gafq.Verifier.Checks.{
  opcode_of, and_parts, check_instr-Passed, lt_of, le_of, eq_of, ltb-true, ltb-false, ne_of, leb_le,
  compare_eq, Option-cases,
}

after_jump-no_reg : (lastpc p : ℕ) (dest : ℤ) → after_jump no_reg lastpc p dest ≡ p + 1
unfolding after_jump
after_jump-no_reg lastpc p (pos n) = refl
after_jump-no_reg lastpc p (negsuc n) = refl

-- With no register to trace, the loop goes on with the following instruction.
next_pc-following :
    (f : Fields) (ps : Protos) (p lastpc : ℕ) (o : OpCode)
    → get_opcode (instr f p) ≡ code o
    → next_pc ps o no_reg lastpc p (decode (instr f p) p) ≡ following f p
unfolding next_pc decode open_setlist get_op_mode
next_pc-following f ps p lastpc op_move e = rw e
next_pc-following f ps p lastpc op_setlist e = rw e refl
next_pc-following f ps p lastpc op_jmp e = rw (e, after_jump-no_reg) refl
next_pc-following f ps p lastpc op_forloop e = rw (e, after_jump-no_reg) refl
next_pc-following f ps p lastpc op_forprep e = rw (e, after_jump-no_reg) refl
next_pc-following f ps p lastpc _ e = rw e

skip-open : (f : Fields) (p q : ℕ) → Visited f p → Visited f q → p < q → following f p ≤ q
skip-open f p q vp vq h = elim (Bool-cases (open_setlist f p)) [
  | inl e ↦
      let odd = run_open f p e in
      let even = Visited-even f p vp in
      let other : suc p ≢ q = λ same.
        (let qe = subst (λ (x : ℕ). setlist_run f x % 2 ≡ 0) (sym same) (Visited-even f q vq) in
          omega (arith, odd, even, qe)) in
      rw e (omega (arith, other))
  | inr e ↦ rw e (omega arith)
]

following_ahead : (f : Fields) (p : ℕ) → p < following f p
following_ahead f p = elim (Bool-cases (open_setlist f p)) [
  | inl e ↦ rw e (omega arith)
  | inr e ↦ rw e (omega arith)
]

checked-some :
    (f : Fields) (ps : Protos) (p : ℕ) (o : OpCode)
    → checked f ps p ≡ some o
    → check_instr f ps p ≡ true
unfolding checked
checked-some f ps p o h = elim (Bool-cases (check_instr f ps p)) [
  | inl e ↦ e
  | inr e ↦ let no = rw e at h in cc
]

checked-opcode :
    (f : Fields) (ps : Protos) (p : ℕ) (o : OpCode)
    → checked f ps p ≡ some o
    → get_opcode (instr f p) ≡ code o
unfolding checked decode
checked-opcode f ps p o h = elim (Bool-cases (check_instr f ps p)) [
  | inl e ↦ opcode_of (get_opcode (instr f p)) o (rw e at h)
  | inr e ↦ let no = rw e at h in cc
]

check_instr-checked :
    (f : Fields) (ps : Protos) (p : ℕ)
    → check_instr f ps p ≡ true
    → (o : OpCode) × (checked f ps p ≡ some o)
unfolding checked decode
check_instr-checked f ps p h = let parts = check_instr-Passed f ps p h in (parts.0, rw h parts.1)

checked-register :
    (f : Fields) (ps : Protos) (p : ℕ) (o : OpCode)
    → checked f ps p ≡ some o
    → getarg_a (instr f p) < f.maxstacksize
unfolding decode
checked-register f ps p o h = (check_instr-Passed f ps p (checked-some f ps p o h)).2.1

register_a : (f : Fields) (p : ℕ) → (decode (instr f p) p).a ≡ no_reg → getarg_a (instr f p) ≡ 255
unfolding decode
register_a f p h = h

zero_opcode : (i : Instruction) → i ≡ 0 → get_opcode i ≡ 0
unfolding get_opcode
zero_opcode i e = rw e refl

move_unchanged : (o : OpCode) (d : Decoded) → code o ≡ 0 → changes o no_reg d ≡ true → d.a ≡ no_reg
unfolding changes changes_op
move_unchanged op_move d e h = elim (Bool-cases (test_a_mode d.op)) [
  | inl t ↦ ground arith
  | inr t ↦ let no = rw t at h in cc
]
move_unchanged _ d e h = absurd (omega arith)

-- Register 255 is none of the function's, so that a move, the only instruction that can be 0, does not
-- change it.
changed_nonzero :
    (f : Fields) (ps : Protos) (pc last : ℕ) (o : OpCode)
    → checked f ps pc ≡ some o
    → f.maxstacksize ≤ maxstack
    → instr f last ≢ 0
    → instr f (if changes o no_reg (decode (instr f pc) pc) then pc else last) ≢ 0
changed_nonzero f ps pc last o h small nz =
    elim (Bool-cases (changes o no_reg (decode (instr f pc) pc))) [
      | inr e ↦ rw e nz
      | inl e ↦ rw e (λ zero.
          let op = zero_opcode (instr f pc) zero in
          let same = checked-opcode f ps pc o h in
          let a = move_unchanged o (decode (instr f pc) pc) (omega arith) e in
          let reg = register_a f pc a in let bound = checked-register f ps pc o h in omega arith)
    ]

loop_done :
    (f : Fields) (ps : Protos) (lastpc n pc last : ℕ)
    → lastpc ≤ pc
    → symbexec_loop f ps lastpc no_reg n pc last ≡ instr f last
unfolding symbexec_loop
loop_done f ps lastpc zero pc last h = refl
loop_done f ps lastpc (suc n) pc last h = rw (symbexec_loop, ltb-false pc lastpc h) refl

loop_fails :
    (f : Fields) (ps : Protos) (lastpc n pc last : ℕ)
    → pc < lastpc
    → checked f ps pc ≡ none
    → symbexec_loop f ps lastpc no_reg (suc n) pc last ≡ 0
unfolding symbexec_loop
loop_fails f ps lastpc n pc last h e = rw (symbexec_loop, ltb-true pc lastpc h, e) refl

loop_goes :
    (f : Fields) (ps : Protos) (lastpc n pc last : ℕ) (o : OpCode)
    → pc < lastpc
    → checked f ps pc ≡ some o
    → symbexec_loop f ps lastpc no_reg (suc n) pc last
      ≡ symbexec_loop f ps lastpc no_reg n
          (following f pc)
          (if changes o no_reg (decode (instr f pc) pc) then pc else last)
unfolding symbexec_loop
loop_goes f ps lastpc n pc last o h e =
    rw
      (
        symbexec_loop,
        ltb-true pc lastpc h,
        e,
        next_pc-following f ps pc lastpc o (checked-opcode f ps pc o e),
      )
      refl

-- A loop that ends without a failure has checked every visited instruction from `pc` on.
loop_checked :
    (f : Fields) (ps : Protos) (lastpc n pc last p : ℕ)
    → symbexec_loop f ps lastpc no_reg n pc last ≢ 0
    → Visited f pc
    → Visited f p
    → pc ≤ p
    → p < lastpc
    → p < pc + n
    → check_instr f ps p ≡ true
loop_checked f ps lastpc zero pc last p ok vpc vp h below fuel = absurd (omega arith)
loop_checked f ps lastpc (suc n) pc last p ok vpc vp h below fuel =
    elim (Option-cases (checked f ps pc)) [
      | inl e ↦ absurd (ok (loop_fails f ps lastpc n pc last (omega arith) e))
      | inr x ↦ elim (compare_eq pc p) [
        | inl same ↦ rw same at (checked-some f ps pc x.0 x.1)
        | inr other ↦
            let far = skip-open f pc p vpc vp (omega (arith, other)) in
            let ahead = following_ahead f pc in
            loop_checked f ps lastpc n (following f pc)
              (if changes x.0 no_reg (decode (instr f pc) pc) then pc else last) p
              (λ e. ok (loop_goes f ps lastpc n pc last x.0 (omega arith) x.1 ∙ e)) (step vpc) vp
              far below (omega arith)
      ]
    ]

-- A loop that checks only instructions that pass ends with one that it remembers.
loop_passes :
    (f : Fields) (ps : Protos) (lastpc n pc last : ℕ)
    → ((p : ℕ) → Visited f p → p < lastpc → check_instr f ps p ≡ true)
    → f.maxstacksize ≤ maxstack
    → Visited f pc
    → lastpc ≤ pc + n
    → instr f last ≢ 0
    → symbexec_loop f ps lastpc no_reg n pc last ≢ 0
loop_passes f ps lastpc zero pc last all small v fuel nz =
    rw (loop_done f ps lastpc 0 pc last (omega arith)) nz
loop_passes f ps lastpc (suc n) pc last all small v fuel nz = elim (Bool-cases (ltb pc lastpc)) [
  | inr e ↦ rw (loop_done f ps lastpc (suc n) pc last (le_of pc lastpc e)) nz
  | inl e ↦
      let inside = lt_of pc lastpc e in
      let o = check_instr-checked f ps pc (all pc v inside) in
      let ahead = following_ahead f pc in
      rw (loop_goes f ps lastpc n pc last o.0 inside o.1) (
        loop_passes f ps lastpc n (following f pc)
          (if changes o.0 no_reg (decode (instr f pc) pc) then pc else last) all small (step v)
          (omega arith) (changed_nonzero f ps pc last o.0 o.1 small nz))
]

-- Accepted code passes the checks of the function and those of every visited instruction.
pub checkcode-checked :
    (f : Fields) (ps : Protos) (p : ℕ)
    → checkcode (proto f ps) ≡ true
    → Visited f p
    → p < sizecode f
    → check_instr f ps p ≡ true
unfolding checkcode symbexec
checkcode-checked f ps p h v below = elim (Bool-cases (precheck f)) [
  | inl e ↦
      loop_checked f ps (sizecode f) (sizecode f) 0 (sizecode f - 1) p
        (λ zero. let no = rw (e, zero) at h in cc) start v (omega arith) below (omega arith)
  | inr e ↦ let no = rw e at h in cc
]

pub checkcode-precheck :
    (f : Fields) (ps : Protos) → checkcode (proto f ps) ≡ true → precheck f ≡ true
unfolding checkcode symbexec
checkcode-precheck f ps h = elim (Bool-cases (precheck f)) [
  | inl e ↦ e
  | inr e ↦ let no = rw e at h in cc
]

pub precheck-return :
    (f : Fields)
    → precheck f ≡ true
    → (0 < sizecode f)
      × (get_opcode (instr f (sizecode f - 1)) ≡ code op_return)
      × (f.maxstacksize ≤ maxstack)
unfolding precheck ends_in_return
precheck-return f h =
    let parts =
      and_parts {a = leb f.maxstacksize maxstack} {b = precheck_sizes f && ends_in_return f} h in
    let ends = and_parts {a = ltb 0 (sizecode f)} (and_parts {a = precheck_sizes f} parts.1).1 in
    (
      lt_of 0 (sizecode f) ends.0,
      eq_of (get_opcode (instr f (sizecode f - 1))) 30 ends.1,
      leb_le f.maxstacksize maxstack parts.0,
    )

-- A function that passes the checks of its sizes and of its last instruction is accepted if each
-- instruction that the loop visits passes its own.
pub checked-checkcode :
    (f : Fields) (ps : Protos)
    → precheck f ≡ true
    → ((p : ℕ) → Visited f p → p < sizecode f → check_instr f ps p ≡ true)
    → checkcode (proto f ps) ≡ true
unfolding checkcode symbexec
checked-checkcode f ps pre all =
    let r = precheck-return f pre in
    let last : instr f (sizecode f - 1) ≢ 0 =
      λ e. (let z = zero_opcode (instr f (sizecode f - 1)) e in omega (arith, r.1)) in
    let nz =
      loop_passes f ps (sizecode f) (sizecode f) 0 (sizecode f - 1) all r.2 start (omega arith)
        last in
    rw pre (ne_of (symbexec_loop f ps (sizecode f) no_reg (sizecode f) 0 (sizecode f - 1)) nz)
