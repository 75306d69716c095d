-- ===== src/Verifier/Targets.antt =====
-- Where the targets of a checked instruction lie: jumps, tests and operand words (gdebug.c).
use gafq.Prelude.{
  ℕ, zero, suc, ◌+◌, ◌-◌, ◌%◌, ◌<◌, ◌≤◌, ◌≡◌, ◌≢◌, refl, sym, ◌∙◌, Bool, true, false, not, ◌||◌,
  some, get_elem?, ltb, ◌==◌, arith, inl, inr, Bool-cases, List, [], ◌∷◌,
}
use mathlib.Core.Path.{subst}
use gafq.Prelude.Int.{ℤ, pos, negsuc}
use gafq.Opcodes.{get_opcode, getarg_a, getarg_b, getarg_c, getarg_bx}
use gafq.Opcodes.Modes.{
  OpCode, code, op_move, op_return, op_loadbool, op_getupval, op_setlist, op_jmp, op_closure,
  get_op_mode, get_b_mode, test_t_mode,
}
use gafq.Chunk.{Fields, Protos}
use gafq.Verifier.{
  instr, sizecode, check_operands, check_dest, check_skip, check_op, check_captures, nested_nups,
  open_setlist, setlist_run, jump_dest, decode,
}
use gafq.Chunk.Dump.{protos_size}
use gafq.Verifier.Checks.{and_parts, lt_of, eq_of}
use gafq.Verifier.Flow.{Visited, even-Visited}

-- A position of the machine that the verifier answers for.
abbrev pub Inside : Fields → ℤ → Type 0
Inside f z = (q : ℕ) × (z ≡ pos q) × Visited f q × (q < sizecode f)

-- Each position of the list is one.
abbrev pub AllInside : Fields → List ℤ → Type 0
AllInside f [] = Unit
AllInside f (z ∷ zs) = Inside f z × AllInside f zs

pub some_path : {x z : ℤ} → some x ≡ some z → x ≡ z
some_path e = cc

pub AllInside-get_elem? :
    (f : Fields) (zs : List ℤ) (k : ℕ) (z : ℤ)
    → AllInside f zs
    → get_elem? zs k ≡ some z
    → Inside f z
AllInside-get_elem? f [] k z all e = cc
AllInside-get_elem? f (x ∷ xs) zero z all e = subst (λ y. Inside f y) (some_path e) all.0
AllInside-get_elem? f (x ∷ xs) (suc k) z all e = AllInside-get_elem? f xs k z all.1 e

pub other_code : (n : ℕ) → n ≢ 34 → (n == 34) ≡ false
other_code n h = ground arith

pub get_op_mode_jmp : get_op_mode (code op_jmp) ≡ 2
unfolding get_op_mode
get_op_mode_jmp = refl

pub get_b_mode_jmp : get_b_mode (code op_jmp) ≡ 2
unfolding get_b_mode
get_b_mode_jmp = refl

pub check_dest-Inside : (f : Fields) (z : ℤ) → check_dest f z ≡ true → Inside f z
unfolding check_dest
check_dest-Inside f (negsuc n) h = cc
check_dest-Inside f (pos d) h =
    let parts = and_parts h in
    (
      d,
      refl,
      even-Visited f d (eq_of (setlist_run f d % 2) 0 parts.1),
      lt_of d (sizecode f) parts.0,
    )

pub one_of : (n : ℕ) → (n == 0) ≡ false → n ≤ 1 → n ≡ 1
one_of n e h = ground arith

pub not-true : {b : Bool} → not b ≡ true → b ≡ false
not-true {b = true} h = cc
not-true {b = false} h = refl

pub pos_path : {x y : ℕ} → pos x ≡ pos y → x ≡ y
pos_path e = cc

pub Inside-Visited : (f : Fields) (q : ℕ) → Inside f (pos q) → Visited f q
Inside-Visited f q i = subst (λ (x : ℕ). Visited f x) (pos_path (sym i.1)) i.2

pub Inside-below : (f : Fields) (q : ℕ) → Inside f (pos q) → q < sizecode f
Inside-below f q i = let same = pos_path i.1 in omega (arith, same, i.3)

pub plain_code :
    (f : Fields) (p : ℕ) → get_opcode (instr f p) ≢ code op_setlist → open_setlist f p ≡ false
unfolding open_setlist
plain_code f p other = rw (other_code (get_opcode (instr f p)) other) refl

pub not_open :
    (f : Fields) (p : ℕ) (o : OpCode)
    → get_opcode (instr f p) ≡ code o
    → code o ≢ code op_setlist
    → open_setlist f p ≡ false
not_open f p o e other = plain_code f p (λ same. other (sym e ∙ same))

pub jump_checked :
    (f : Fields) (p : ℕ) (o : OpCode)
    → get_opcode (instr f p) ≡ code o
    → get_op_mode (code o) ≡ 2
    → get_b_mode (code o) ≡ 2
    → check_operands f (decode (instr f p) p) ≡ true
    → check_dest f (jump_dest (instr f p) p) ≡ true
unfolding check_operands decode
jump_checked f p o e m b h = rw (check_operands, e, m, b) at h

pub test_checked :
    (f : Fields) (p : ℕ) (o : OpCode)
    → get_opcode (instr f p) ≡ code o
    → test_t_mode (code o) ≡ true
    → check_skip f (decode (instr f p) p).op p ≡ true
    → (p + 2 < sizecode f) × (get_opcode (instr f (p + 1)) ≡ code op_jmp)
unfolding check_skip decode
test_checked f p o e t h =
    let parts = and_parts {a = ltb (p + 2) (sizecode f)} (rw (check_skip, e, t) at h) in
    (lt_of (p + 2) (sizecode f) parts.0, eq_of (get_opcode (instr f (p + 1))) 22 parts.1)

pub setlist_checked :
    (f : Fields) (ps : Protos) (p : ℕ)
    → get_opcode (instr f p) ≡ code op_setlist
    → check_op f ps op_setlist p (decode (instr f p) p) ≡ true
    → getarg_c (instr f p) ≡ 0
    → p + 2 < sizecode f
unfolding check_op decode get_op_mode
setlist_checked f ps p e h c =
    let i = instr f p in
    let count =
      (and_parts {a = getarg_b i == 0 || ltb (getarg_a i + getarg_b i) f.maxstacksize}
        (rw e at h)).1 in
    let inside = lt_of (p + 1) (sizecode f - 1) (rw c at count) in omega arith

pub loadbool_checked :
    (f : Fields) (ps : Protos) (p : ℕ)
    → get_opcode (instr f p) ≡ code op_loadbool
    → check_op f ps op_loadbool p (decode (instr f p) p) ≡ true
    → getarg_c (instr f p) ≡ 1
    → (p + 2 < sizecode f) × (open_setlist f (p + 1) ≡ false)
unfolding check_op decode get_op_mode
loadbool_checked f ps p e h c =
    let parts = and_parts {a = ltb (p + 2) (sizecode f)} (rw (e, c) at h) in
    (lt_of (p + 2) (sizecode f) parts.0, not-true parts.1)

pub closure_checked :
    (f : Fields) (ps : Protos) (p : ℕ)
    → get_opcode (instr f p) ≡ code op_closure
    → check_op f ps op_closure p (decode (instr f p) p) ≡ true
    → let nup = nested_nups ps (getarg_bx (instr f p)) in
      (p + nup < sizecode f) × (check_captures f (p + 1) nup ≡ true)
unfolding check_op decode get_op_mode
closure_checked f ps p e h =
    let nup = nested_nups ps (getarg_bx (instr f p)) in
    let parts =
      and_parts {a = ltb (p + nup) (sizecode f)}
        (and_parts {a = ltb (getarg_bx (instr f p)) (protos_size ps)} (rw e at h)).1 in
    (lt_of (p + nup) (sizecode f) parts.0, parts.1)

pub setlist_open :
    (f : Fields) (p : ℕ)
    → get_opcode (instr f p) ≡ code op_setlist
    → open_setlist f p ≡ (getarg_c (instr f p) == 0)
unfolding open_setlist
setlist_open f p e = rw e refl

pub capture_opcode :
    (n : ℕ)
    → (n == code op_getupval || n == code op_move) ≡ true
    → (n ≢ code op_return) × (n ≢ code op_setlist)
capture_opcode n h = elim (Bool-cases (n == 4)) [
  | inl e ↦ let same = eq_of n 4 e in (omega arith, omega arith)
  | inr e ↦ let same = eq_of n 0 (rw e at h) in (omega arith, omega arith)
]
