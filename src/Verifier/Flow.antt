-- ===== src/Verifier/Flow.antt =====
-- Where control may go: the positions that the verifier visits (gdebug.c), and those that the virtual
-- machine may go on with (gvm.c).
use gafq.Prelude.{
  ℕ, zero, suc, ◌+◌, ◌%◌, ◌≡◌, refl, true, false, List, [], ◌∷◌, none, some, get_elem?, ◌==◌,
  if◌then◌else◌, arith,
}
use gafq.Prelude.{◌↔◌, inl, inr, Bool-cases}
use mathlib.Core.Path.{subst}
use gafq.Prelude.Int.{ℤ, pos}
use gafq.Opcodes.{get_opcode, getarg_bx, getarg_c}
use gafq.Opcodes.Modes.{
  OpCode, op_loadbool, op_jmp, op_eq, op_lt, op_le, op_test, op_testset, op_return, op_forloop,
  op_forprep, op_tforloop, op_setlist, op_closure,
}
use gafq.Chunk.{Fields, Protos}
use gafq.Verifier.{instr, open_setlist, setlist_run, nested_nups, jump_dest, opcodes}

-- What the verifier looks at after `p` when it checks a whole function.
abbrev pub following : Fields → ℕ → ℕ
following f p = if open_setlist f p then p + 2 else p + 1

-- The positions that its loop comes to.
pub data Visited (f : Fields) : ℕ → Type 0 where
  start : Visited f 0
  step : {p : ℕ} → Visited f p → Visited f (following f p)

-- A position is visited, or it is the count of a visited SETLIST; the run before it tells which.
data Position (f : Fields) (d : ℕ) : Type 0 where
  visited : Visited f d → setlist_run f d % 2 ≡ 0 → Position f d
  count :
      (p : ℕ)
      → d ≡ suc p
      → Visited f p
      → open_setlist f p ≡ true
      → setlist_run f d % 2 ≡ 1
      → Position f d

pub following_open :
    (f : Fields) (p : ℕ) → Visited f p → open_setlist f p ≡ true → Visited f (p + 2)
following_open f p v e = subst (λ (q : ℕ). Visited f q) (rw e refl) (step v)

pub following_plain :
    (f : Fields) (p : ℕ) → Visited f p → open_setlist f p ≡ false → Visited f (p + 1)
following_plain f p v e = subst (λ (q : ℕ). Visited f q) (rw e refl) (step v)

pub run_open :
    (f : Fields) (d : ℕ) → open_setlist f d ≡ true → setlist_run f (suc d) ≡ suc (setlist_run f d)
unfolding setlist_run
run_open f d e = rw e refl

run_plain : (f : Fields) (d : ℕ) → open_setlist f d ≡ false → setlist_run f (suc d) ≡ 0
unfolding setlist_run
run_plain f d e = rw e refl

run_zero : (f : Fields) → setlist_run f 0 ≡ 0
unfolding setlist_run
run_zero f = refl

next_Position : (f : Fields) (d : ℕ) → Position f d → Position f (suc d)
next_Position f d (visited v even) = elim (Bool-cases (open_setlist f d)) [
  | inl e ↦ count d refl v e (omega (arith, run_open f d e))
  | inr e ↦
      visited (subst (λ (q : ℕ). Visited f q) (omega arith) (following_plain f d v e))
        (omega (arith, run_plain f d e))
]
next_Position f d (count p same v o odd) =
    let after : Visited f (suc d) =
      subst (λ (q : ℕ). Visited f q) (omega arith) (following_open f p v o) in
    elim (Bool-cases (open_setlist f d)) [
      | inl e ↦ visited after (omega (arith, run_open f d e))
      | inr e ↦ visited after (omega (arith, run_plain f d e))
    ]

Position-all : (f : Fields) (d : ℕ) → Position f d
Position-all f zero = visited start (omega (arith, run_zero f))
Position-all f (suc d) = next_Position f d (Position-all f d)

pub even-Visited : (f : Fields) (d : ℕ) → setlist_run f d % 2 ≡ 0 → Visited f d
even-Visited f d h = elim (Position-all f d) [
  | visited v even ↦ v
  | count p same v o odd ↦ absurd (omega arith)
]

-- The count of an open SETLIST has one word more before it.
open_even :
    (f : Fields) (p : ℕ)
    → setlist_run f p % 2 ≡ 0
    → open_setlist f p ≡ true
    → setlist_run f (p + 2) % 2 ≡ 0
open_even f p even e =
    let one = run_open f p e in
    let two : suc (suc p) ≡ p + 2 = omega arith in
    subst (λ (q : ℕ). setlist_run f q % 2 ≡ 0) two
      (elim (Bool-cases (open_setlist f (suc p))) [
        | inl o ↦ omega (arith, run_open f (suc p) o)
        | inr o ↦ omega (arith, run_plain f (suc p) o)
      ])

plain_even : (f : Fields) (p : ℕ) → open_setlist f p ≡ false → setlist_run f (p + 1) % 2 ≡ 0
plain_even f p e =
    let one : suc p ≡ p + 1 = omega arith in
    subst (λ (q : ℕ). setlist_run f q % 2 ≡ 0) one (omega (arith, run_plain f p e))

pub Visited-even : (f : Fields) (d : ℕ) → Visited f d → setlist_run f d % 2 ≡ 0
Visited-even f d start = omega (arith, run_zero f)
Visited-even f d (step {p} v) = elim (Bool-cases (open_setlist f p)) [
  | inl e ↦ rw e (open_even f p (Visited-even f p v) e)
  | inr e ↦ rw e (plain_even f p e)
]

-- Where `gafqV_execute` may go on after the instruction at `pc`: none after a return, the next
-- instruction, over the one behind a test, or to the target of the jump there.
unfoldable pub successors : Fields → Protos → OpCode → ℕ → List ℤ
unfolding nested_nups
successors f ps op_loadbool pc =
    if getarg_c (instr f pc) == 0 then pos (pc + 1) ∷ [] else pos (pc + 2) ∷ []
successors f ps op_jmp pc = jump_dest (instr f pc) pc ∷ []
successors f ps op_eq pc = pos (pc + 2) ∷ jump_dest (instr f (pc + 1)) (pc + 1) ∷ []
successors f ps op_lt pc = pos (pc + 2) ∷ jump_dest (instr f (pc + 1)) (pc + 1) ∷ []
successors f ps op_le pc = pos (pc + 2) ∷ jump_dest (instr f (pc + 1)) (pc + 1) ∷ []
successors f ps op_test pc = pos (pc + 2) ∷ jump_dest (instr f (pc + 1)) (pc + 1) ∷ []
successors f ps op_testset pc = pos (pc + 2) ∷ jump_dest (instr f (pc + 1)) (pc + 1) ∷ []
successors f ps op_tforloop pc = pos (pc + 2) ∷ jump_dest (instr f (pc + 1)) (pc + 1) ∷ []
successors f ps op_return pc = []
successors f ps op_forloop pc = pos (pc + 1) ∷ jump_dest (instr f pc) pc ∷ []
successors f ps op_forprep pc = jump_dest (instr f pc) pc ∷ []
successors f ps op_setlist pc =
    if getarg_c (instr f pc) == 0 then pos (pc + 2) ∷ [] else pos (pc + 1) ∷ []
successors f ps op_closure pc = pos (pc + nested_nups ps (getarg_bx (instr f pc)) + 1) ∷ []
successors f ps _ pc = pos (pc + 1) ∷ []

-- The machine ignores an opcode that it does not know.
unfoldable pub successors_at : Fields → Protos → ℕ → List ℤ
unfolding successors
successors_at f ps pc = elim (get_elem? opcodes (get_opcode (instr f pc))) [
  | none ↦ pos (pc + 1) ∷ []
  | some o ↦ successors f ps o pc
]

-- The positions that the machine can come to in a call of the function, on any data.
pub data Reaches (f : Fields) (ps : Protos) : ℤ → Type 0 where
  entry : Reaches f ps (pos 0)
  goes :
      {p : ℕ} {z : ℤ} (k : ℕ)
      → Reaches f ps (pos p)
      → get_elem? (successors_at f ps p) k ≡ some z
      → Reaches f ps z

-- An instruction is one that the verifier visits, and no operand, exactly if an even number of words that
-- look like a SETLIST without a count stands right before it.
pub Visited-setlist_run : (f : Fields) (d : ℕ) → Visited f d ↔ (setlist_run f d % 2 ≡ 0)
Visited-setlist_run f d = (Visited-even f d, even-Visited f d)
