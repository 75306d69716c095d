-- ===== src/Codegen/Expressions/Meaning.antt =====
-- What the operators compile to (codecomp, gafqK_posfix and constfolding in gcode.c).
use gafq.Prelude.{
  ℕ, ◌≡◌, ◌↔◌, ◌∙◌, refl, sym, ap, Bool, true, false, not, ◌&&◌, Bool-cases, inl, inr, Option, none,
  some, ◌==◌, if◌then◌else◌,
}
use gafq.Opcodes.Modes.{
  OpCode, code, op_add, op_sub, op_mul, op_div, op_mod, op_pow, op_unm, op_eq, op_lt, op_le,
}
use gafq.Prelude.Run.{ok, returning, ◌>>=◌, get}
use gafq.Opcodes.{create_abc}
use gafq.Codegen.{Jumps, FuncState, Gen}
use gafq.Codegen.Emit.{gen_code, jump, condjump, code_abc}
use gafq.Codegen.Registers.{Arithmetic}
use gafq.Codegen.Expressions.{ExpDesc, ExpKind, vknum, vjmp, same_jumps, freeexp, exp2rk}
use gafq.Codegen.Expressions.Operators.{
  BinOpr, opr_ne, opr_eq, opr_lt, opr_le, opr_gt, opr_ge, isnumeral, fold, not_nan, constfolding,
  comparison, codecomp, posfix, is_vknum, jump_position,
}

some_bool : {a b : Bool} → ◌≡◌ {A = Option Bool} (some a) (some b) → a ≡ b
some_bool e = cc

none-some : {a : Bool} → ◌≡◌ {A = Option Bool} none (some a) → ⊥
none-some e = cc

none_number : {a : ℕ} → ◌≡◌ {A = Option ℕ} none (some a) → ⊥
none_number e = cc

-- The three relations that the virtual machine tests.
pub record Relations : Type 0 where
  pub eq : ℕ → ℕ → Bool
  pub lt : ℕ → ℕ → Bool
  pub le : ℕ → ℕ → Bool

abbrev pub tested : Relations → OpCode → ℕ → ℕ → Bool
tested r op_eq x y = r.eq x y
tested r op_lt x y = r.lt x y
tested r _ x y = r.le x y

-- Whether the jump behind a comparison is taken: the machine skips it if the test differs from A.
abbrev pub jumps : Relations → OpCode → ℕ × ℕ × ℕ → Bool
jumps r op (c, a, b) = if c == 0 then not (tested r op a b) else tested r op a b

-- The meaning of a comparison in the language.
abbrev pub meaning : Relations → BinOpr → ℕ → ℕ → Option Bool
meaning r opr_eq x y = some (r.eq x y)
meaning r opr_ne x y = some (not (r.eq x y))
meaning r opr_lt x y = some (r.lt x y)
meaning r opr_le x y = some (r.le x y)
meaning r opr_gt x y = some (r.lt y x)
meaning r opr_ge x y = some (r.le y x)
meaning r _ x y = none

-- What a comparison emits after its operands: the instruction, and the jump behind it.
abbrev pub emits : Arithmetic → ℕ → ExpDesc → Gen ExpDesc
emits num word e = do
  fs ← get
  pc ← (gen_code word fs.lastline >>= λ i. jump)
  returning (record e { info = jump_position num pc; k = vjmp })

codecomp-emits :
    (num : Arithmetic) (op : OpCode) (cond : ℕ) (e1 e2 e1' e2' : ExpDesc) (o1 o2 : ℕ)
    (fs fs1 fs2 : FuncState)
    → exp2rk num e1 fs ≡ ok ((e1', o1), fs1)
    → exp2rk num e2 fs1 ≡ ok ((e2', o2), fs2)
    → let (c, a, b) = comparison num op cond o1 o2 in
      codecomp num op cond e1 e2 fs
      ≡ emits num (create_abc (code op) c a b) e1' (freeexp e1' (freeexp e2' fs2))
unfolding codecomp condjump code_abc
codecomp-emits num op cond e1 e2 e1' e2' o1 o2 fs fs1 fs2 h1 h2 = rw (h1, h2) refl

-- A comparison whose operands are made ready and freed is compiled to an instruction and a jump behind
-- it. The instruction has two operands in its B and C, in an order, after which the machine takes the
-- jump exactly if the comparison holds, whatever the values at the operands. The operators for which
-- `meaning` gives nothing are those that compare nothing.
pub posfix-meaning :
    (num : Arithmetic) (r : Relations) (opr : BinOpr) (e1 e2 e1' e2' : ExpDesc) (o1 o2 : ℕ)
    (fs fs1 fs2 : FuncState) (holds : ℕ → ℕ → Bool)
    → ((x y : ℕ) → meaning r opr x y ≡ some (holds x y))
    → exp2rk num e1 fs ≡ ok ((e1', o1), fs1)
    → exp2rk num e2 fs1 ≡ ok ((e2', o2), fs2)
    → (op : OpCode) × (c a b : ℕ) × (posfix num opr e1 e2 fs
        ≡ emits num (create_abc (code op) c a b) e1' (freeexp e1' (freeexp e2' fs2)))
      × (jumps r op (c, a, b) ≡ holds o1 o2)
unfolding posfix comparison
posfix-meaning num r opr_eq e1 e2 e1' e2' o1 o2 fs fs1 fs2 holds h h1 h2 = (
  op_eq,
  1,
  o1,
  o2,
  codecomp-emits num op_eq 1 e1 e2 e1' e2' o1 o2 fs fs1 fs2 h1 h2,
  some_bool (h o1 o2),
)
posfix-meaning num r opr_ne e1 e2 e1' e2' o1 o2 fs fs1 fs2 holds h h1 h2 = (
  op_eq,
  0,
  o1,
  o2,
  codecomp-emits num op_eq 0 e1 e2 e1' e2' o1 o2 fs fs1 fs2 h1 h2,
  some_bool (h o1 o2),
)
posfix-meaning num r opr_lt e1 e2 e1' e2' o1 o2 fs fs1 fs2 holds h h1 h2 = (
  op_lt,
  1,
  o1,
  o2,
  codecomp-emits num op_lt 1 e1 e2 e1' e2' o1 o2 fs fs1 fs2 h1 h2,
  some_bool (h o1 o2),
)
posfix-meaning num r opr_le e1 e2 e1' e2' o1 o2 fs fs1 fs2 holds h h1 h2 = (
  op_le,
  1,
  o1,
  o2,
  codecomp-emits num op_le 1 e1 e2 e1' e2' o1 o2 fs fs1 fs2 h1 h2,
  some_bool (h o1 o2),
)
posfix-meaning num r opr_gt e1 e2 e1' e2' o1 o2 fs fs1 fs2 holds h h1 h2 = (
  op_lt,
  1,
  o2,
  o1,
  codecomp-emits num op_lt 0 e1 e2 e1' e2' o1 o2 fs fs1 fs2 h1 h2,
  some_bool (h o1 o2),
)
posfix-meaning num r opr_ge e1 e2 e1' e2' o1 o2 fs fs1 fs2 holds h h1 h2 = (
  op_le,
  1,
  o2,
  o1,
  codecomp-emits num op_le 0 e1 e2 e1' e2' o1 o2 fs fs1 fs2 h1 h2,
  some_bool (h o1 o2),
)
posfix-meaning num r _ e1 e2 e1' e2' o1 o2 fs fs1 fs2 holds h h1 h2 = absurd (none-some (h 0 0))

-- The result of an arithmetic operator on two numbers, for those that are folded.
abbrev pub computed : Arithmetic → OpCode → ℕ → ℕ → Option ℕ
computed num op_add x y = some (num.numadd x y)
computed num op_sub x y = some (num.numsub x y)
computed num op_mul x y = some (num.nummul x y)
computed num op_div x y = some (num.numdiv x y)
computed num op_mod x y = some (num.nummod x y)
computed num op_pow x y = some (num.numpow x y)
computed num op_unm x y = some (num.numunm x)
computed num _ x y = none

abbrev pub divides_by_zero : Arithmetic → OpCode → ℕ → Bool
divides_by_zero num op_div y = num.numeq y 0
divides_by_zero num op_mod y = num.numeq y 0
divides_by_zero num _ y = false

fold-computed :
    (num : Arithmetic) (op : OpCode) (x y r : ℕ)
    → computed num op x y ≡ some r
    → fold num op x y ≡ (if divides_by_zero num op y then none else some r)
unfolding fold
fold-computed num op_add x y r h = h
fold-computed num op_sub x y r h = h
fold-computed num op_mul x y r h = h
fold-computed num op_div x y r h = rw h refl
fold-computed num op_mod x y r h = rw h refl
fold-computed num op_pow x y r h = h
fold-computed num op_unm x y r h = h
fold-computed num _ x y r h = absurd (none_number h)

-- A numeral that no jump leads to or from.
abbrev pub IsNumeral : ExpDesc → Type 0
IsNumeral e = (e.k ≡ vknum) × (e.t ≡ none) × (e.f ≡ none)

is_vknum-kind : (k : ExpKind) → is_vknum k ≡ true → k ≡ vknum
is_vknum-kind vknum h = refl
is_vknum-kind _ h = cc

same_jumps-none : (j : Jumps) → same_jumps j none ≡ true → j ≡ none
same_jumps-none none h = refl
same_jumps-none (some p) h = cc

both_true : (a b : Bool) → (a && b) ≡ true → (a ≡ true) × (b ≡ true)
both_true true b h = (refl, h)
both_true false b h = cc

isnumeral-IsNumeral : (e : ExpDesc) → isnumeral e ≡ true → IsNumeral e
unfolding isnumeral
isnumeral-IsNumeral e h =
    let kind = both_true (is_vknum e.k) (same_jumps e.t none && same_jumps e.f none) h in
    let lists = both_true (same_jumps e.t none) (same_jumps e.f none) kind.1 in
    (is_vknum-kind e.k kind.0, same_jumps-none e.t lists.0, same_jumps-none e.f lists.1)

IsNumeral-isnumeral : (e : ExpDesc) → IsNumeral e → isnumeral e ≡ true
unfolding isnumeral
IsNumeral-isnumeral e h =
    ap (λ k. is_vknum k && (same_jumps e.t none && same_jumps e.f none)) h.0
    ∙ ap (λ j. same_jumps j none && same_jumps e.f none) h.1
    ∙ ap (λ j. same_jumps j none) h.2

some_exp : {a b : ExpDesc} → ◌≡◌ {A = Option ExpDesc} (some a) (some b) → a ≡ b
some_exp e = cc

constfolding-tests :
    (num : Arithmetic) (op : OpCode) (e1 e2 e : ExpDesc) (r : ℕ)
    → computed num op e1.nval e2.nval ≡ some r
    → constfolding num op e1 e2 ≡ some e
    → IsNumeral e1
      × IsNumeral e2
      × (divides_by_zero num op e2.nval ≡ false)
      × (num.numisnan r ≡ false)
      × (e ≡ record e1 { nval = r })
unfolding constfolding not_nan
constfolding-tests num op e1 e2 e r h folded = elim (Bool-cases (isnumeral e1)) [
  | inr n1 ↦ let clash = rw n1 at folded in cc
  | inl y1 ↦ elim (Bool-cases (isnumeral e2)) [
    | inr n2 ↦ let clash = rw (y1, n2) at folded in cc
    | inl y2 ↦
        let f = fold-computed num op e1.nval e2.nval r h in
        elim (Bool-cases (divides_by_zero num op e2.nval)) [
          | inl z ↦ let clash = rw (y1, y2, f, z) at folded in cc
          | inr z ↦ elim (Bool-cases (num.numisnan r)) [
            | inl n ↦ let clash = rw (y1, y2, f, z, n) at folded in cc
            | inr n ↦ (
              isnumeral-IsNumeral e1 y1,
              isnumeral-IsNumeral e2 y2,
              z,
              n,
              sym (some_exp (rw (y1, y2, f, z, n) at folded)),
            )
          ]
        ]
  ]
]

-- An arithmetic operator is folded exactly if both operands are numerals that no jump leads to or from,
-- it does not divide by zero and its result is a number; then the first operand becomes the numeral for
-- the result, and is otherwise as it was.
pub constfolding-computed :
    (num : Arithmetic) (op : OpCode) (e1 e2 e : ExpDesc) (r : ℕ)
    → computed num op e1.nval e2.nval ≡ some r
    → (constfolding num op e1 e2 ≡ some e) ↔ (
        IsNumeral e1
        × IsNumeral e2
        × (divides_by_zero num op e2.nval ≡ false)
        × (num.numisnan r ≡ false)
        × (e ≡ record e1 { nval = r }))
unfolding constfolding not_nan
constfolding-computed num op e1 e2 e r h = (
  constfolding-tests num op e1 e2 e r h,
  λ x.
      (let y1 = IsNumeral-isnumeral e1 x.0 in
        let y2 = IsNumeral-isnumeral e2 x.1 in
        let f = fold-computed num op e1.nval e2.nval r h in
        rw (y1, y2, f, x.2, x.3) (ap (λ y. some y) (sym x.4))),
)
