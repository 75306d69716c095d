-- ===== src/Verifier/Safety.antt =====
-- Accepted code keeps the virtual machine inside it (gdebug.c and gvm.c): wherever control may go, there
-- is an instruction that the verifier has checked, never a word that is an operand.
use gafq.Prelude.{
  ℕ, zero, suc, ◌+◌, ◌-◌, ◌%◌, ◌<◌, ◌≤◌, ◌≡◌, ◌≢◌, refl, sym, ◌∙◌, true, false, ◌||◌, ◌==◌, arith,
  inl, inr, Bool-cases, [], ◌∷◌, ap,
}
use mathlib.Core.Path.{subst}
use gafq.Prelude.Int.{ℤ, pos}
use gafq.Opcodes.{get_opcode, getarg_c, getarg_bx}
use gafq.Opcodes.Modes.{
  OpCode, code, op_move, op_return, op_loadbool, op_getupval, op_setlist, op_jmp, op_eq, op_lt,
  op_le, op_test, op_testset, op_forloop, op_forprep, op_tforloop, op_closure, get_op_mode,
  get_b_mode, test_t_mode,
}
use gafq.Chunk.{Fields, proto, Protos}
use gafq.Verifier.{
  instr, sizecode, check_instr, check_op, check_captures, nested_nups, open_setlist, setlist_run,
  jump_dest, decode,
}
use gafq.Verifier.Checks.{and_parts, eq_of, compare_eq, check_instr-Passed}
use gafq.Verifier.Flow.{
  Visited, start, following_open, following_plain, Visited-even, successors, successors_at, Reaches,
  entry, goes,
}
use gafq.Prelude.Run.{ok}
use gafq.Chunk.Header.{Platform}
use gafq.Chunk.Undump.{LoadState, undump}
use gafq.Chunk.Prototypes.{Passes}
use gafq.Chunk.Rejects.{undump_sound}
use gafq.Verifier.Symbolic.{checkcode}
use gafq.Verifier.Accepted.{checkcode-checked, checkcode-precheck, precheck-return}
use gafq.Verifier.Targets.{
  Inside, AllInside, AllInside-get_elem?, get_op_mode_jmp, get_b_mode_jmp, check_dest-Inside,
  one_of, Inside-Visited, Inside-below, plain_code, not_open, jump_checked, test_checked,
  setlist_checked, loadbool_checked, closure_checked, setlist_open, capture_opcode,
}

-- What the lemmas on the single opcodes share: a visited instruction of accepted code.
module _ (f : Fields) (ps : Protos) (accepted : checkcode (proto f ps) ≡ true) where
  not_last : (q : ℕ) → q < sizecode f → get_opcode (instr f q) ≢ code op_return → q + 1 < sizecode f
  not_last q h other = elim (compare_eq (q + 1) (sizecode f)) [
    | inr less ↦ omega arith
    | inl same ↦
        let place : sizecode f - 1 ≡ q = omega arith in
        let ends = (precheck-return f (checkcode-precheck f ps accepted)).1 in
        absurd (other (ap (λ (x : ℕ). get_opcode (instr f x)) (sym place) ∙ ends))
  ]

  one_on :
      (p : ℕ) (o : OpCode)
      → Visited f p
      → p < sizecode f
      → get_opcode (instr f p) ≡ code o
      → code o ≢ code op_return
      → open_setlist f p ≡ false
      → Inside f (pos (p + 1))
  one_on p o v h e other plain =
      (p + 1, refl, following_plain f p v plain, not_last p h (λ r. other (sym e ∙ r)))

  two_on :
      (p : ℕ)
      → Visited f p
      → p + 2 < sizecode f
      → open_setlist f p ≡ false
      → open_setlist f (p + 1) ≡ false
      → Inside f (pos (p + 2))
  two_on p v h plain next = (
    p + 2,
    refl,
    subst (λ (q : ℕ). Visited f q) (omega arith)
        (following_plain f (p + 1) (following_plain f p v plain) next),
    h,
  )

  jump_Inside :
      (p : ℕ) (o : OpCode)
      → Visited f p
      → p < sizecode f
      → get_opcode (instr f p) ≡ code o
      → get_op_mode (code o) ≡ 2
      → get_b_mode (code o) ≡ 2
      → Inside f (jump_dest (instr f p) p)
  jump_Inside p o v h e m b =
      let passed = check_instr-Passed f ps p (checkcode-checked f ps p accepted v h) in
      check_dest-Inside f (jump_dest (instr f p) p) (jump_checked f p o e m b passed.2.2)

  test_Inside :
      (p : ℕ) (o : OpCode)
      → Visited f p
      → p < sizecode f
      → get_opcode (instr f p) ≡ code o
      → test_t_mode (code o) ≡ true
      → code o ≢ code op_setlist
      → AllInside f (pos (p + 2) ∷ jump_dest (instr f (p + 1)) (p + 1) ∷ [])
  test_Inside p o v h e t other =
      let passed = check_instr-Passed f ps p (checkcode-checked f ps p accepted v h) in
      let skip = test_checked f p o e t passed.2.3 in
      let plain = not_open f p o e other in
      let next = not_open f (p + 1) op_jmp skip.1 (omega arith) in
      (
        two_on p v skip.0 plain next,
        (
          jump_Inside (p + 1) op_jmp (following_plain f p v plain) (omega arith) skip.1
              get_op_mode_jmp get_b_mode_jmp,
          tt,
        ),
      )

  captures_Inside :
      (n q : ℕ)
      → Inside f (pos q)
      → q + n ≤ sizecode f
      → check_captures f q n ≡ true
      → Inside f (pos (q + n))
  unfolding check_captures
  captures_Inside zero q at_q h c = subst (λ (x : ℕ). Inside f (pos x)) (omega arith) at_q
  captures_Inside (suc n) q at_q h c =
      let i = get_opcode (instr f q) in
      let parts = and_parts {a = i == code op_getupval || i == code op_move} c in
      let other = capture_opcode i parts.0 in
      let v = Inside-Visited f q at_q in
      let next : Inside f (pos (q + 1)) = (
        q + 1,
        refl,
        following_plain f q v (plain_code f q other.1),
        not_last q (omega arith) other.0,
      ) in
      subst (λ (x : ℕ). Inside f (pos x)) (omega arith)
        (captures_Inside n (q + 1) next (omega arith) parts.1)

  closure_Inside :
      (p : ℕ)
      → Visited f p
      → p < sizecode f
      → get_opcode (instr f p) ≡ code op_closure
      → check_op f ps op_closure p (decode (instr f p) p) ≡ true
      → Inside f (pos (p + nested_nups ps (getarg_bx (instr f p)) + 1))
  closure_Inside p v h e c =
      let nup = nested_nups ps (getarg_bx (instr f p)) in
      let parts = closure_checked f ps p e c in
      let next =
        one_on p op_closure v h e (omega arith) (not_open f p op_closure e (omega arith)) in
      subst (λ (x : ℕ). Inside f (pos x)) (omega arith)
        (captures_Inside nup (p + 1) next (omega (arith, parts.0)) parts.1)

  setlist_Inside :
      (p : ℕ)
      → Visited f p
      → p < sizecode f
      → get_opcode (instr f p) ≡ code op_setlist
      → check_op f ps op_setlist p (decode (instr f p) p) ≡ true
      → AllInside f (successors f ps op_setlist p)
  unfolding successors
  setlist_Inside p v h e c = elim (Bool-cases (getarg_c (instr f p) == 0)) [
    | inl zero_c ↦
        let z = eq_of (getarg_c (instr f p)) 0 zero_c in
        rw zero_c (
          (
            p + 2,
            refl,
            following_open f p v (setlist_open f p e ∙ zero_c),
            setlist_checked f ps p e c z,
          ),
          tt,
        )
    | inr some_c ↦
        rw some_c (one_on p op_setlist v h e (omega arith) (setlist_open f p e ∙ some_c), tt)
  ]

  loadbool_Inside :
      (p : ℕ)
      → Visited f p
      → p < sizecode f
      → get_opcode (instr f p) ≡ code op_loadbool
      → check_op f ps op_loadbool p (decode (instr f p) p) ≡ true
      → getarg_c (instr f p) ≤ 1
      → AllInside f (successors f ps op_loadbool p)
  unfolding successors
  loadbool_Inside p v h e c small =
      let plain = not_open f p op_loadbool e (omega arith) in
      elim (Bool-cases (getarg_c (instr f p) == 0)) [
        | inl zero_c ↦ rw zero_c (one_on p op_loadbool v h e (omega arith) plain, tt)
        | inr some_c ↦
            let parts = loadbool_checked f ps p e c (one_of (getarg_c (instr f p)) some_c small) in
            rw some_c (two_on p v parts.0 plain parts.1, tt)
      ]

  others_Inside :
      (p : ℕ) (o : OpCode)
      → Visited f p
      → p < sizecode f
      → get_opcode (instr f p) ≡ code o
      → code o ≢ code op_return
      → code o ≢ code op_setlist
      → Inside f (pos (p + 1)) × Unit {0}
  others_Inside p o v h e r l = (one_on p o v h e r (not_open f p o e l), tt)

  successors-Inside :
      (p : ℕ) (o : OpCode)
      → Visited f p
      → p < sizecode f
      → get_opcode (instr f p) ≡ code o
      → check_op f ps o p (decode (instr f p) p) ≡ true
      → (o ≡ op_loadbool → getarg_c (instr f p) ≤ 1)
      → AllInside f (successors f ps o p)
  unfolding successors get_op_mode get_b_mode test_t_mode
  successors-Inside p op_loadbool v h e c small = loadbool_Inside p v h e c (small refl)
  successors-Inside p op_setlist v h e c small = setlist_Inside p v h e c
  successors-Inside p op_closure v h e c small = (closure_Inside p v h e c, tt)
  successors-Inside p op_jmp v h e c small = (jump_Inside p op_jmp v h e refl refl, tt)
  successors-Inside p op_forprep v h e c small = (jump_Inside p op_forprep v h e refl refl, tt)
  successors-Inside p op_forloop v h e c small = (
    one_on p op_forloop v h e (omega arith) (not_open f p op_forloop e (omega arith)),
    (jump_Inside p op_forloop v h e refl refl, tt),
  )
  successors-Inside p op_eq v h e c small = test_Inside p op_eq v h e refl (omega arith)
  successors-Inside p op_lt v h e c small = test_Inside p op_lt v h e refl (omega arith)
  successors-Inside p op_le v h e c small = test_Inside p op_le v h e refl (omega arith)
  successors-Inside p op_test v h e c small = test_Inside p op_test v h e refl (omega arith)
  successors-Inside p op_testset v h e c small = test_Inside p op_testset v h e refl (omega arith)
  successors-Inside p op_tforloop v h e c small = test_Inside p op_tforloop v h e refl (omega arith)
  successors-Inside p op_return v h e c small = tt
  successors-Inside p o v h e c small = others_Inside p o v h e (omega arith) (omega arith)

  Reaches-Inside :
      ((p : ℕ) → get_opcode (instr f p) ≡ code op_loadbool → getarg_c (instr f p) ≤ 1)
      → (z : ℤ) → Reaches f ps z
      → Inside f z
  unfolding successors_at
  Reaches-Inside small z entry =
      (0, refl, start, (precheck-return f (checkcode-precheck f ps accepted)).0)
  Reaches-Inside small z (goes {p} k r e) =
      let here = Reaches-Inside small (pos p) r in
      let v = Inside-Visited f p here in
      let h = Inside-below f p here in
      let x = check_instr-Passed f ps p (checkcode-checked f ps p accepted v h) in
      AllInside-get_elem? f (successors f ps x.0 p) k z
        (successors-Inside p x.0 v h x.2.0 x.2.4 (λ same. small p (x.2.0 ∙ ap code same)))
        (rw (successors_at, x.1) at e)

-- In accepted code whose LOADBOOLs have a C of at most 1, the machine goes on only with instructions inside
-- the code that have passed the verifier's checks, never with the count of a SETLIST, and never outside.
pub Reaches-checked :
    (f : Fields) (ps : Protos) (z : ℤ)
    → checkcode (proto f ps) ≡ true
    → ((p : ℕ) → get_opcode (instr f p) ≡ code op_loadbool → getarg_c (instr f p) ≤ 1)
    → Reaches f ps z
    → (q : ℕ) × (z ≡ pos q)
      × (q < sizecode f)
      × (setlist_run f q % 2 ≡ 0)
      × (check_instr f ps q ≡ true)
Reaches-checked f ps z accepted small r =
    let i = Reaches-Inside f ps accepted small z r in
    (i.0, i.1, i.3, Visited-even f i.0 i.2, checkcode-checked f ps i.0 accepted i.2 i.3)

-- A chunk that is loaded with the verifier on runs inside its main function's code: the machine goes on
-- only with checked instructions, if the LOADBOOLs have a C of at most 1.
pub undump-Reaches :
    {D : Type 0} (host : Platform) (n_ccalls : ℕ) (s s' : LoadState D) (f : Fields) (ps : Protos)
    (z : ℤ)
    → undump host checkcode n_ccalls s ≡ ok (proto f ps, s')
    → ((p : ℕ) → get_opcode (instr f p) ≡ code op_loadbool → getarg_c (instr f p) ≤ 1)
    → Reaches f ps z
    → (q : ℕ) × (z ≡ pos q) × (q < sizecode f) × (check_instr f ps q ≡ true)
unfolding Passes
undump-Reaches host n_ccalls s s' f ps z h small r =
    let sound = undump_sound host checkcode n_ccalls s s' (proto f ps) h in
    let at = Reaches-checked f ps z sound.0.0 small r in (at.0, at.1, at.2, at.4)
