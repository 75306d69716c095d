-- ===== src/Codegen/Expressions.antt =====
-- Expression descriptors (gparser.h), and bringing their values into registers (gcode.c).
pub mod Conditions
pub mod Operators
pub mod Meaning
use gafq.Prelude.{
  ℕ, zero, suc, ◌+◌, ◌-◌, Bool, true, false, not, ◌&&◌, ◌||◌, Option, none, some, List, [], ◌∷◌,
  ltb, leb, ◌==◌, if◌then◌else◌,
}
use gafq.Prelude.Int.{ℤ, pos, negsuc}
use gafq.Prelude.Run.{Run, ok, error, returning, failing, bind, ◌>>=◌, ◌>>◌, get, modify}
use gafq.Opcodes.{Instruction, getarg_a, setarg_a, setarg_b, setarg_c, maxindexrk, rkask}
use gafq.Opcodes.Modes.{
  OpCode, op_getupval, op_getglobal, op_gettable, op_loadbool, op_loadk, op_move, op_setupval,
  op_setglobal, op_settable, op_self,
}
use gafq.Codegen.{Jumps, FuncState, Gen, set_code, nk}
use gafq.Codegen.Jumps.{concat, getlabel, patchlistaux, patchtohere, need_value}
use gafq.Codegen.Emit.{code_abc, code_abx, jump, code_label, gen_nil, one_more}
use gafq.Codegen.Registers.{Arithmetic, reserveregs, freereg, number_k, nil_k, bool_k}

pub data ExpKind : Type 0 where
  vvoid vnil vtrue vfalse vk vknum vlocal vupval vglobal vindexed : ExpKind
  vjmp vrelocable vnonreloc vcall vvararg : ExpKind

-- `expdesc`; the members of the union `u` are fields of their own, of which only the kind's is read.
pub record ExpDesc : Type 0 where
  pub k : ExpKind
  pub info : ℕ
  pub aux : ℕ
  pub nval : ℕ
  pub t : Jumps
  pub f : Jumps

abbrev pub is_vjmp : ExpKind → Bool
is_vjmp vjmp = true
is_vjmp _ = false

abbrev pub is_vnonreloc : ExpKind → Bool
is_vnonreloc vnonreloc = true
is_vnonreloc _ = false

abbrev pub is_vrelocable : ExpKind → Bool
is_vrelocable vrelocable = true
is_vrelocable _ = false

abbrev pub same_jumps : Jumps → Jumps → Bool
same_jumps none none = true
same_jumps (some a) (some b) = a == b
same_jumps _ _ = false

unfoldable pub hasjumps : ExpDesc → Bool
hasjumps e = not (same_jumps e.t e.f)

-- An assignment to a field of `getcode(fs,e)`.
unfoldable pub patch_code : (Instruction → ℕ → Instruction) → ExpDesc → ℕ → FuncState → FuncState
unfolding set_code
patch_code setarg e u fs = set_code e.info (setarg (fs.code_at e.info) u) fs

unfoldable pub freeexp : ExpDesc → FuncState → FuncState
freeexp e fs = if is_vnonreloc e.k then freereg e.info fs else fs

-- `gafqK_setreturns`
unfoldable pub setreturns : ExpDesc → ℤ → Gen (Unit {0})
setreturns e nresults = elim e.k [
  | vcall ↦ modify (patch_code setarg_c e (one_more nresults))
  | vvararg ↦ (do
    modify (patch_code setarg_b e (one_more nresults))
    fs ← get
    modify (patch_code setarg_a e fs.freereg)
    reserveregs 1)
  | _ ↦ returning tt
]

-- `gafqK_setoneret`
unfoldable pub setoneret : ExpDesc → Gen ExpDesc
setoneret e = elim e.k [
  | vcall ↦ (do
    fs ← get
    returning (record e { k = vnonreloc; info = getarg_a (fs.code_at e.info) }))
  | vvararg ↦ (do modify (patch_code setarg_b e 2); returning (record e { k = vrelocable }))
  | _ ↦ returning e
]

-- The expression is now computed by the instruction at `pc`, whose register is still open.
abbrev pub relocable : ExpDesc → ℕ → ExpDesc
relocable e pc = record e { k = vrelocable; info = pc }

-- `gafqK_dischargevars`
unfoldable pub dischargevars : ExpDesc → Gen ExpDesc
dischargevars e = elim e.k [
  | vlocal ↦ returning (record e { k = vnonreloc })
  | vupval ↦ (do pc ← code_abc op_getupval 0 e.info 0; returning (relocable e pc))
  | vglobal ↦ (do pc ← code_abx op_getglobal 0 e.info; returning (relocable e pc))
  | vindexed ↦ (do
    modify (freereg e.aux)
    modify (freereg e.info)
    pc ← code_abc op_gettable 0 e.info e.aux
    returning (relocable e pc))
  | vvararg ↦ setoneret e
  | vcall ↦ setoneret e
  | _ ↦ returning e
]

-- The expression's value is in a register.
abbrev pub in_register : ExpDesc → ℕ → ExpDesc
in_register e reg = record e { k = vnonreloc; info = reg }

module _ (num : Arithmetic) where
  -- The `switch` of `discharge2reg`.
  unfoldable pub load_value : ExpDesc → ℕ → Gen ExpDesc
  load_value e reg = elim e.k [
    | vnil ↦ (do gen_nil reg 1; returning (in_register e reg))
    | vfalse ↦ (do pc ← code_abc op_loadbool reg 0 0; returning (in_register e reg))
    | vtrue ↦ (do pc ← code_abc op_loadbool reg 1 0; returning (in_register e reg))
    | vk ↦ (do pc ← code_abx op_loadk reg e.info; returning (in_register e reg))
    | vknum ↦ (do
      i ← number_k num e.nval
      pc ← code_abx op_loadk reg i
      returning (in_register e reg))
    | vrelocable ↦ (do modify (patch_code setarg_a e reg); returning (in_register e reg))
    | vnonreloc ↦
        if reg == e.info
        then returning (in_register e reg)
        else (do pc ← code_abc op_move reg e.info 0; returning (in_register e reg))
    | _ ↦ returning e
  ]

  unfoldable pub discharge2reg : ExpDesc → ℕ → Gen ExpDesc
  discharge2reg e reg = do e1 ← dischargevars e; load_value e1 reg

  unfoldable pub discharge2anyreg : ExpDesc → Gen ExpDesc
  discharge2anyreg e =
      if is_vnonreloc e.k
      then returning e
      else (do reserveregs 1; fs ← get; discharge2reg e (fs.freereg - 1))

  -- The part of `exp2reg` for an expression with jumps out of it: the instructions that load `false`
  -- and `true`, if a jump needs them, and the positions of the two.
  unfoldable pub load_bools : ExpDesc → ℕ → Gen (Jumps × Jumps)
  load_bools e reg = do
    fs ← get
    if need_value fs e.t || need_value fs e.f
        then (do
          fj ← if is_vjmp e.k then returning none else jump
          p_f ← code_label reg 0 1
          p_t ← code_label reg 1 0
          patchtohere fj
          returning (some p_f, some p_t))
        else returning (none, none)

  unfoldable pub close_jumps : ExpDesc → ℕ → Gen (Unit {0})
  close_jumps e reg = do
    (p_f, p_t) ← load_bools e reg
    final ← getlabel
    patchlistaux e.f (some final) reg p_f
    patchlistaux e.t (some final) reg p_t

  unfoldable pub exp2reg : ExpDesc → ℕ → Gen ExpDesc
  exp2reg e reg = do
    e1 ← discharge2reg e reg
    t ← if is_vjmp e1.k then concat e1.t (some e1.info) else returning e1.t
    let e2 = record e1 { t = t }
    closed ← if hasjumps e2 then close_jumps e2 reg else returning tt
    returning (record e2 { f = none; t = none; info = reg; k = vnonreloc })

  -- `gafqK_exp2nextreg`
  unfoldable pub exp2nextreg : ExpDesc → Gen ExpDesc
  exp2nextreg e = do
    e1 ← dischargevars e
    modify (freeexp e1)
    reserveregs 1
    fs ← get
    exp2reg e1 (fs.freereg - 1)

  -- `gafqK_exp2anyreg`; the register is the `info` of the result.
  unfoldable pub exp2anyreg : ExpDesc → Gen ExpDesc
  exp2anyreg e = do
    e1 ← dischargevars e
    fs ← get
    if is_vnonreloc e1.k && not (hasjumps e1)
        then returning e1
        else if is_vnonreloc e1.k && leb fs.nactvar e1.info
        then exp2reg e1 e1.info
        else exp2nextreg e1

  -- `gafqK_exp2val`
  unfoldable pub exp2val : ExpDesc → Gen ExpDesc
  exp2val e = if hasjumps e then exp2anyreg e else dischargevars e

  -- An operand in a register.
  unfoldable pub register_operand : ExpDesc → Gen (ExpDesc × ℕ)
  register_operand e = do e1 ← exp2anyreg e; returning (e1, e1.info)

  -- A constant as an operand, if its index is small enough when it is made.
  unfoldable pub constant_operand : Gen ℕ → ExpDesc → Gen (ExpDesc × ℕ)
  constant_operand make e = do
    fs ← get
    if leb (nk fs) maxindexrk
        then (do i ← make; returning (record e { k = vk; info = i }, rkask i))
        else register_operand e

  -- `gafqK_exp2RK`, with the operand that it returns.
  unfoldable pub exp2rk : ExpDesc → Gen (ExpDesc × ℕ)
  exp2rk e = do
    e1 ← exp2val e
    elim e1.k [
      | vnil ↦ constant_operand (nil_k num) e1
      | vknum ↦ constant_operand (number_k num e1.nval) e1
      | vtrue ↦ constant_operand (bool_k num true) e1
      | vfalse ↦ constant_operand (bool_k num false) e1
      | vk ↦ if leb e1.info maxindexrk then returning (e1, rkask e1.info) else register_operand e1
      | _ ↦ register_operand e1
    ]

  -- `gafqK_storevar`
  unfoldable pub storevar : ExpDesc → ExpDesc → Gen (Unit {0})
  storevar var ex = elim var.k [
    | vlocal ↦ (do modify (freeexp ex); e ← exp2reg ex var.info; returning tt)
    | vupval ↦ (do
      e ← exp2anyreg ex
      pc ← code_abc op_setupval e.info var.info 0
      modify (freeexp e))
    | vglobal ↦ (do
      e ← exp2anyreg ex
      pc ← code_abx op_setglobal e.info var.info
      modify (freeexp e))
    | vindexed ↦ (do
      (e, operand) ← exp2rk ex
      pc ← code_abc op_settable var.info var.aux operand
      modify (freeexp e))
    | _ ↦ modify (freeexp ex)
  ]

  -- `gafqK_self`
  unfoldable pub self : ExpDesc → ExpDesc → Gen ExpDesc
  self e key = do
    e1 ← exp2anyreg e
    modify (freeexp e1)
    fs ← get
    let func = fs.freereg
    reserveregs 2
    (key1, operand) ← exp2rk key
    pc ← code_abc op_self func e1.info operand
    modify (freeexp key1)
    returning (record e1 { info = func; k = vnonreloc })

  -- `gafqK_indexed`
  unfoldable pub indexed : ExpDesc → ExpDesc → Gen ExpDesc
  indexed t k = do (k1, operand) ← exp2rk k; returning (record t { aux = operand; k = vindexed })
