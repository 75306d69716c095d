-- ===== src/Codegen/Expressions/Operators.antt =====
-- Unary and binary operators (gcode.c).
use gafq.Prelude.{
  ℕ, Bool, true, false, not, ◌&&◌, ◌||◌, Option, none, some, ltb, ◌==◌, if◌then◌else◌,
}
use gafq.Prelude.Run.{returning, ◌>>=◌, ◌>>◌, get, modify}
use gafq.Opcodes.{get_opcode, setarg_b}
use gafq.Opcodes.Modes.{
  OpCode, code, op_add, op_sub, op_mul, op_div, op_mod, op_pow, op_unm, op_len, op_concat, op_eq,
  op_lt, op_le,
}
use gafq.Codegen.{Jumps, FuncState, Gen}
use gafq.Codegen.Jumps.{concat}
use gafq.Codegen.Emit.{code_abc, condjump}
use gafq.Codegen.Registers.{Arithmetic}
use gafq.Codegen.Expressions.{
  ExpKind, vknum, vjmp, vrelocable, ExpDesc, same_jumps, is_vrelocable, freeexp, relocable,
  dischargevars, patch_code, exp2anyreg, exp2nextreg, exp2val, exp2rk,
}
use gafq.Codegen.Expressions.Conditions.{goiftrue, goiffalse, codenot}

-- The operators of the parser but for the two that stand for none.
pub data BinOpr : Type 0 where
  opr_add opr_sub opr_mul opr_div opr_mod opr_pow opr_concat : BinOpr
  opr_ne opr_eq opr_lt opr_le opr_gt opr_ge opr_and opr_or : BinOpr

pub data UnOpr : Type 0 where
  opr_minus opr_not opr_len : UnOpr

abbrev pub is_vknum : ExpKind → Bool
is_vknum vknum = true
is_vknum _ = false

unfoldable pub isnumeral : ExpDesc → Bool
isnumeral e = is_vknum e.k && (same_jumps e.t none && same_jumps e.f none)

module _ (num : Arithmetic) where
  -- The `switch` of `constfolding`: the result, or none where nothing is folded. The image of 0 is 0.
  unfoldable pub fold : OpCode → ℕ → ℕ → Option ℕ
  fold op_add v1 v2 = some (num.numadd v1 v2)
  fold op_sub v1 v2 = some (num.numsub v1 v2)
  fold op_mul v1 v2 = some (num.nummul v1 v2)
  fold op_div v1 v2 = if num.numeq v2 0 then none else some (num.numdiv v1 v2)
  fold op_mod v1 v2 = if num.numeq v2 0 then none else some (num.nummod v1 v2)
  fold op_pow v1 v2 = some (num.numpow v1 v2)
  fold op_unm v1 v2 = some (num.numunm v1)
  fold op_len v1 v2 = none
  fold _ v1 v2 = some 0

  unfoldable pub not_nan : Option ℕ → Option ℕ
  not_nan none = none
  not_nan (some r) = if num.numisnan r then none else some r

  unfoldable pub constfolding : OpCode → ExpDesc → ExpDesc → Option ExpDesc
  unfolding fold not_nan
  constfolding op e1 e2 =
      if not (isnumeral e1) || not (isnumeral e2)
      then none
      else elim (not_nan (fold op e1.nval e2.nval)) [
        | none ↦ none
        | some r ↦ some (record e1 { nval = r })
      ]

  -- `op != OP_UNM && op != OP_LEN`
  unfoldable pub is_binary : OpCode → Bool
  is_binary op_unm = false
  is_binary op_len = false
  is_binary _ = true

  -- The operands' registers are freed from the higher one on.
  unfoldable pub free_operands : ExpDesc → ℕ → ExpDesc → ℕ → FuncState → FuncState
  free_operands e1 o1 e2 o2 fs =
      if ltb o2 o1 then freeexp e2 (freeexp e1 fs) else freeexp e1 (freeexp e2 fs)

  -- `codearith` for operands that cannot be folded.
  unfoldable pub emit_arith : OpCode → ExpDesc → ExpDesc → Gen ExpDesc
  emit_arith op e1 e2 = do
    (e2', o2) ← if is_binary op then exp2rk num e2 else returning (e2, 0)
    (e1', o1) ← exp2rk num e1
    modify (free_operands e1' o1 e2' o2)
    pc ← code_abc op 0 o1 o2
    returning (relocable e1' pc)

  unfoldable pub codearith : OpCode → ExpDesc → ExpDesc → Gen ExpDesc
  codearith op e1 e2 = elim (constfolding op e1 e2) [
    | some e ↦ returning e
    | none ↦ emit_arith op e1 e2
  ]

  -- The operator and the operands in the order that `codecomp` emits, which turns `>` and `>=` into
  -- `<` and `<=`.
  unfoldable pub comparison : OpCode → ℕ → ℕ → ℕ → ℕ × ℕ × ℕ
  comparison op_eq cond o1 o2 = (cond, o1, o2)
  comparison _ cond o1 o2 = if cond == 0 then (1, o2, o1) else (cond, o1, o2)

  -- The result of `condjump` is a position.
  abbrev pub jump_position : Jumps → ℕ
  jump_position none = 0
  jump_position (some pc) = pc

  unfoldable pub codecomp : OpCode → ℕ → ExpDesc → ExpDesc → Gen ExpDesc
  unfolding comparison
  codecomp op cond e1 e2 = do
    (e1', o1) ← exp2rk num e1
    (e2', o2) ← exp2rk num e2
    modify (freeexp e2')
    modify (freeexp e1')
    let (c, a, b) = comparison op cond o1 o2
    pc ← condjump op c a b
    returning (record e1' { info = jump_position pc; k = vjmp })

  -- The second operand of a unary operator.
  abbrev pub zero_operand : ExpDesc
  zero_operand = record { k = vknum; info = 0; aux = 0; nval = 0; t = none; f = none }

  -- `gafqK_prefix`
  unfoldable pub prefix : UnOpr → ExpDesc → Gen ExpDesc
  prefix opr_minus e = do
    e1 ← if isnumeral e then returning e else exp2anyreg num e
    codearith op_unm e1 zero_operand
  prefix opr_not e = codenot num e
  prefix opr_len e = do e1 ← exp2anyreg num e; codearith op_len e1 zero_operand

  -- The first operand of a comparison is made ready before the second one is read.
  abbrev compared_operand : ExpDesc → Gen ExpDesc
  compared_operand v = do (v', operand) ← exp2rk num v; returning v'

  -- So is that of an arithmetic operator, unless it may be folded.
  abbrev arith_operand : ExpDesc → Gen ExpDesc
  arith_operand v = if isnumeral v then returning v else compared_operand v

  -- `gafqK_infix`, after the first operand.
  unfoldable pub infix_operand : BinOpr → ExpDesc → Gen ExpDesc
  infix_operand opr_and v = goiftrue num v
  infix_operand opr_or v = goiffalse num v
  infix_operand opr_concat v = exp2nextreg num v
  infix_operand opr_add v = arith_operand v
  infix_operand opr_sub v = arith_operand v
  infix_operand opr_mul v = arith_operand v
  infix_operand opr_div v = arith_operand v
  infix_operand opr_mod v = arith_operand v
  infix_operand opr_pow v = arith_operand v
  infix_operand _ v = compared_operand v

  -- `..` joins a concatenation on its right into one instruction.
  unfoldable pub join_concat : ExpDesc → ExpDesc → Gen ExpDesc
  join_concat e1 e2 = do
    e2' ← exp2val num e2
    fs ← get
    if is_vrelocable e2'.k && (get_opcode (fs.code_at e2'.info) == code op_concat)
        then (do
          modify (freeexp e1)
          modify (patch_code setarg_b e2' e1.info)
          returning (record e1 { k = vrelocable; info = e2'.info }))
        else (do e3 ← exp2nextreg num e2'; codearith op_concat e1 e3)

  -- `gafqK_posfix`, after the second operand; the result is the new `*e1`.
  unfoldable pub posfix : BinOpr → ExpDesc → ExpDesc → Gen ExpDesc
  posfix opr_and e1 e2 = do
    e2' ← dischargevars e2
    f ← concat e2'.f e1.f
    returning (record e2' { f = f })
  posfix opr_or e1 e2 = do
    e2' ← dischargevars e2
    t ← concat e2'.t e1.t
    returning (record e2' { t = t })
  posfix opr_concat e1 e2 = join_concat e1 e2
  posfix opr_add e1 e2 = codearith op_add e1 e2
  posfix opr_sub e1 e2 = codearith op_sub e1 e2
  posfix opr_mul e1 e2 = codearith op_mul e1 e2
  posfix opr_div e1 e2 = codearith op_div e1 e2
  posfix opr_mod e1 e2 = codearith op_mod e1 e2
  posfix opr_pow e1 e2 = codearith op_pow e1 e2
  posfix opr_eq e1 e2 = codecomp op_eq 1 e1 e2
  posfix opr_ne e1 e2 = codecomp op_eq 0 e1 e2
  posfix opr_lt e1 e2 = codecomp op_lt 1 e1 e2
  posfix opr_le e1 e2 = codecomp op_le 1 e1 e2
  posfix opr_gt e1 e2 = codecomp op_lt 0 e1 e2
  posfix opr_ge e1 e2 = codecomp op_le 0 e1 e2
