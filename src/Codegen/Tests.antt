-- ===== src/Codegen/Tests.antt =====
-- The code generator at work on a function with one local variable in register 0.
use gafq.Prelude.{
  ℕ, zero, suc, ◌+◌, ◌-◌, ◌*◌, ◌^◌, ◌<◌, ◌≤◌, ◌≡◌, ◌≢◌, ◌↔◌, refl, arith, max, true, false, ◌⊎◌,
  none, some, [], ◌∷◌, ◌++◌, ltb, leb, ◌==◌,
}
use gafq.Prelude.Run.{ok, error}
use gafq.Prelude.Distinct.{NotIn}
use gafq.Opcodes.{no_reg, rkask, create_abc, get_opcode, getarg_bx, getarg_sbx, get_field}
use gafq.Opcodes.Modes.{OpCode, code, test_t_mode, opmodes, opmodes_table, opmode, op_add}
use gafq.Chunk.{nil, number}
use gafq.Codegen.{CodeError, index_is_nan, too_complex, value, table_itself, FuncState, nk, grow}
use gafq.Codegen.Jumps.{getjumpcontrol, getjump, concat, patchlistaux}
use gafq.Codegen.Emit.{gen_code}
use gafq.Codegen.Registers.{
  maxstack, reserveregs, Arithmetic, find_key, addk, refused_key, number_k, new_constant,
}
use gafq.Codegen.Links.{IsJump, Chain, last, concat-Chain}
use gafq.Codegen.Patching.{keeps_value}
use gafq.Codegen.Landing.{AllReach, Landed, patchlistaux-Landed, AllLead}
use gafq.Codegen.Coding.{HasRoom, gen_code-lands}
use gafq.Codegen.Allocation.{
  RegistersFit, reserveregs_fit, ConstantsFit, IsTaken, IsRefused, Added, addk_fit,
}
use gafq.Codegen.Expressions.{
  ExpDesc, vknum, vlocal, vnonreloc, vk, freeexp, exp2rk, exp2val, hasjumps, dischargevars,
  register_operand, exp2anyreg, constant_operand,
}
use gafq.Codegen.Expressions.Operators.{opr_gt, constfolding, posfix}
use gafq.Codegen.Expressions.Meaning.{
  Relations, jumps, emits, IsNumeral, posfix-meaning, divides_by_zero, constfolding-computed,
}

-- Natural numbers in place of the images of the type `double`.
abbrev naturals : Arithmetic
naturals = record {
  numadd = λ x y. x + y;
  numsub = λ x y. x - y;
  nummul = λ x y. x;
  numdiv = λ x y. x;
  nummod = λ x y. x;
  numpow = λ x y. x;
  numunm = λ x. x;
  numeq = λ x y. x == y;
  numisnan = λ x. false;
}

-- Three jumps: those at 0 and 2 are linked, the one at 1 is alone. An offset of -1 is written 131070.
abbrev three_jumps : ℕ → ℕ
three_jumps zero = 22 + 131072 * 2 ^ 14
three_jumps (suc n) = 22 + 131070 * 2 ^ 14

abbrev state : FuncState
state = record {
  code_at = three_jumps;
  lineinfo = λ n. 1;
  sizecode = 4;
  sizelineinfo = 4;
  k = number 7 ∷ [];
  sizek = 4;
  h = (value (number 7), 0) ∷ [];
  pc = 3;
  lasttarget = none;
  jpc = some 0;
  freereg = 1;
  nactvar = 1;
  maxstacksize = 2;
  lastline = 5;
}

first_list : Chain state (some 0) (0 ∷ 2 ∷ [])
unfolding getjump getarg_sbx getarg_bx get_field get_opcode
first_list = (refl, (refl, omega arith), (refl, (refl, omega arith), refl))

second_list : Chain state (some 1) (1 ∷ [])
unfolding getjump getarg_sbx getarg_bx get_field get_opcode
second_list = (refl, (refl, omega arith), refl)

first_link : getjump state 0 ≡ some 2
unfolding getjump getarg_sbx getarg_bx get_field
first_link = refl

concat-Chain_example :
    (fs' : FuncState) × (concat (some 0) (some 1) state ≡ ok (some 0, fs'))
    × Chain fs' (some 0) ((0 ∷ 2 ∷ []) ++ (1 ∷ []))
    × ((j : ℕ) → j ≢ last 0 (2 ∷ []) → fs'.code_at j ≡ state.code_at j)
concat-Chain_example =
    concat-Chain state 0 1 (2 ∷ []) (1 ∷ []) first_list second_list
      (((λ e. omega (arith, e)), tt), (tt, tt)) (omega arith, (omega arith, tt))
      (((λ e. omega (arith, e)), tt), (((λ e. omega (arith, e)), tt), tt))
      ((λ e. omega (arith, e)), omega arith, omega arith)

list_reaches : AllReach state (some 3) (some 3) (0 ∷ 2 ∷ [])
unfolding keeps_value getjumpcontrol get_opcode get_field test_t_mode opmodes opmodes_table opmode
list_reaches = (
  (3, refl, ((λ e. omega (arith, e)), omega arith, omega arith)),
  ((3, refl, ((λ e. omega (arith, e)), omega arith, omega arith)), tt),
)

patchlistaux-Landed_example :
    (fs' : FuncState) × (patchlistaux (some 0) (some 3) no_reg (some 3) state ≡ ok (tt, fs'))
    × Landed state fs' (some 3) (some 3) (0 ∷ 2 ∷ [])
patchlistaux-Landed_example =
    patchlistaux-Landed state (some 0) (some 3) no_reg (some 3) (0 ∷ 2 ∷ []) first_list
      (((λ e. omega (arith, e)), tt), (tt, tt)) (omega arith, (omega arith, tt)) list_reaches

state-HasRoom : HasRoom state
state-HasRoom = record {
  code = omega arith;
  code_limit = omega arith;
  lines = omega arith;
  lines_limit = omega arith;
}

gen_code-lands_example :
    (fs' : FuncState) × (gen_code 30 5 state ≡ ok (3, fs'))
    × (fs'.pc ≡ 3 + 1)
    × (fs'.code_at 3 ≡ 30)
    × (fs'.lineinfo 3 ≡ 5)
    × (fs'.jpc ≡ none)
    × AllLead fs' 3 (0 ∷ 2 ∷ [])
    × ((m : ℕ) → m < 3 → NotIn m (0 ∷ 2 ∷ []) → IsJump state m → fs'.code_at m ≡ state.code_at m)
    × HasRoom fs'
gen_code-lands_example =
    gen_code-lands 30 5 state (0 ∷ 2 ∷ []) state-HasRoom (omega arith) first_list
      (((λ e. omega (arith, e)), tt), (tt, tt)) (omega arith, (omega arith, tt))
      (
        ((λ e. omega (arith, e)), omega arith, omega arith),
        (((λ e. omega (arith, e)), omega arith, omega arith), tt),
      )

reserveregs_fit_example :
    ((fs' : FuncState) × (reserveregs 3 state ≡ ok (tt, fs'))
      × (fs'.freereg ≡ 1 + 3)
      × (fs'.maxstacksize ≡ max 2 (1 + 3))
      × RegistersFit fs')
    ⊎ ((reserveregs 3 state ≡ error too_complex) × (maxstack ≤ 1 + 3))
reserveregs_fit_example = reserveregs_fit 3 state (omega arith, omega arith)

state-ConstantsFit : ConstantsFit state
unfolding nk
state-ConstantsFit = ((refl, tt), omega arith, omega arith)

addk_fit_example :
    (IsTaken naturals table_itself × Added naturals table_itself state)
    ⊎ ((e : CodeError) × IsRefused naturals table_itself e
        × (addk naturals table_itself nil state ≡ error e))
addk_fit_example = addk_fit naturals table_itself state state-ConstantsFit

-- A number that is none is refused.
nan_refused :
    addk (record naturals { numisnan = λ x. true }) (value (number 7)) (number 7) state
    ≡ error index_is_nan
unfolding addk refused_key
nan_refused = refl

abbrev local_variable : ExpDesc
local_variable = record { k = vlocal; info = 0; aux = 0; nval = 0; t = none; f = none }

abbrev two : ExpDesc
two = record { k = vknum; info = 0; aux = 0; nval = 2; t = none; f = none }

abbrev orders : Relations
orders = record { eq = λ x y. x == y; lt = λ x y. ltb x y; le = λ x y. leb x y }

-- Before and after the operands: the number 2 becomes the second constant.
abbrev quiet : FuncState
quiet = record state { jpc = none }

abbrev with_two : FuncState
with_two = record quiet { k = number 7 ∷ number 2 ∷ []; h = (value (number 2), 1) ∷ quiet.h }

abbrev in_register_0 : ExpDesc
in_register_0 = record local_variable { k = vnonreloc }

abbrev constant_1 : ExpDesc
constant_1 = record two { k = vk; info = 1 }

first_operand : exp2rk naturals local_variable quiet ≡ ok ((in_register_0, 0), quiet)
unfolding exp2rk exp2val hasjumps dischargevars register_operand exp2anyreg
first_operand = refl

second_operand : exp2rk naturals two quiet ≡ ok ((constant_1, 257), with_two)
unfolding exp2rk exp2val hasjumps dischargevars constant_operand nk number_k addk find_key grow
    new_constant rkask
second_operand = refl

posfix-meaning_example :
    (op : OpCode) × (c a b : ℕ) × (posfix naturals opr_gt local_variable two quiet
      ≡ emits naturals
          (create_abc (code op) c a b)
          in_register_0
          (freeexp in_register_0 (freeexp constant_1 with_two)))
    × (jumps orders op (c, a, b) ≡ ltb 257 0)
posfix-meaning_example =
    posfix-meaning naturals orders opr_gt local_variable two in_register_0 constant_1 0 257 quiet
      quiet with_two (λ x y. ltb y x) (λ x y. refl) first_operand second_operand

constfolding-computed_example :
    (constfolding naturals op_add two two ≡ some (record two { nval = 4 })) ↔ (
      IsNumeral two
      × IsNumeral two
      × (divides_by_zero naturals op_add 2 ≡ false)
      × (naturals.numisnan 4 ≡ false)
      × (record two { nval = 4 } ≡ record two { nval = 4 }))
constfolding-computed_example =
    constfolding-computed naturals op_add two two (record two { nval = 4 }) 4 refl
