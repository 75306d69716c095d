-- ===== src/Codegen/Expressions/Conditions.antt =====
-- Expressions as conditions (gcode.c).
use gafq.Prelude.{ℕ, ◌-◌, none, some, ◌==◌, if◌then◌else◌}
use gafq.Prelude.Run.{returning, ◌>>=◌, ◌>>◌, get, modify}
use gafq.Opcodes.{get_opcode, getarg_a, setarg_a, getarg_b, no_reg}
use gafq.Opcodes.Modes.{code, op_not, op_test, op_testset}
use gafq.Codegen.{Jumps, FuncState, Gen, set_code}
use gafq.Codegen.Jumps.{getjumpcontrol, concat, patchtohere, removevalues}
use gafq.Codegen.Emit.{code_abc, condjump}
use gafq.Codegen.Registers.{Arithmetic}
use gafq.Codegen.Expressions.{
  vnil, vtrue, vfalse, vk, vknum, vjmp, vrelocable, vnonreloc, ExpDesc, freeexp, dischargevars,
  discharge2anyreg, relocable, is_vrelocable,
}

-- `!x` of a C integer.
abbrev pub c_not : ℕ → ℕ
c_not x = if x == 0 then 1 else 0

unfoldable pub invertjump : ExpDesc → FuncState → FuncState
unfolding set_code
invertjump e fs =
    let at = getjumpcontrol fs e.info in
    set_code at (setarg_a (fs.code_at at) (c_not (getarg_a (fs.code_at at)))) fs

module _ (num : Arithmetic) where
  -- The rest of `jumponcond`, for an expression that is not the result of an OP_NOT.
  unfoldable pub jump_on_value : ExpDesc → ℕ → Gen Jumps
  jump_on_value e cond = do
    e1 ← discharge2anyreg num e
    modify (freeexp e1)
    condjump op_testset no_reg e1.info cond

  unfoldable pub jumponcond : ExpDesc → ℕ → Gen Jumps
  jumponcond e cond = do
    fs ← get
    let ie = fs.code_at e.info
    if is_vrelocable e.k
        then (if get_opcode ie == code op_not
            then (do
              modify (λ fs. record fs { pc = fs.pc - 1 })
              condjump op_test (getarg_b ie) 0 (c_not cond))
            else jump_on_value e cond)
        else jump_on_value e cond

  -- `gafqK_goiftrue`
  unfoldable pub goiftrue : ExpDesc → Gen ExpDesc
  goiftrue e = do
    e1 ← dischargevars e
    pc ← elim e1.k [
      | vk ↦ returning none
      | vknum ↦ returning none
      | vtrue ↦ returning none
      | vjmp ↦ (do modify (invertjump e1); returning (some e1.info))
      | _ ↦ jumponcond e1 0
    ]
    f ← concat e1.f pc
    patchtohere e1.t
    returning (record e1 { f = f; t = none })

  -- `gafqK_goiffalse`
  unfoldable pub goiffalse : ExpDesc → Gen ExpDesc
  goiffalse e = do
    e1 ← dischargevars e
    pc ← elim e1.k [
      | vnil ↦ returning none
      | vfalse ↦ returning none
      | vjmp ↦ returning (some e1.info)
      | _ ↦ jumponcond e1 1
    ]
    t ← concat e1.t pc
    patchtohere e1.f
    returning (record e1 { t = t; f = none })

  -- The `switch` of `codenot`.
  unfoldable pub negated : ExpDesc → Gen ExpDesc
  negated e = elim e.k [
    | vnil ↦ returning (record e { k = vtrue })
    | vfalse ↦ returning (record e { k = vtrue })
    | vk ↦ returning (record e { k = vfalse })
    | vknum ↦ returning (record e { k = vfalse })
    | vtrue ↦ returning (record e { k = vfalse })
    | vjmp ↦ (do modify (invertjump e); returning e)
    | vrelocable ↦ not_register e
    | vnonreloc ↦ not_register e
    | _ ↦ returning e
  ]
    where
      not_register : ExpDesc → Gen ExpDesc
      not_register e = do
        e1 ← discharge2anyreg num e
        modify (freeexp e1)
        pc ← code_abc op_not 0 e1.info 0
        returning (relocable e1 pc)

  unfoldable pub codenot : ExpDesc → Gen ExpDesc
  codenot e = do
    e1 ← dischargevars e
    e2 ← negated e1
    let e3 = record e2 { t = e2.f; f = e2.t }
    removevalues e3.f
    removevalues e3.t
    returning e3
