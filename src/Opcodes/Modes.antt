-- ===== src/Opcodes/Modes.antt =====
-- The table of instruction properties (gopcodes.c) and its readers (gopcodes.h).
pub mod Table
use gafq.Prelude.{ℕ, ◌+◌, ◌*◌, ◌/◌, ◌^◌, Bool, not, List, [], ◌∷◌, bit_and, bit_or, ◌==◌, get_or}

-- `enum OpCode`, in the source's order; an instruction holds the number.
pub data OpCode : Type 0 where
  op_move op_loadk op_loadbool op_loadnil op_getupval op_getglobal : OpCode
  op_gettable op_setglobal op_setupval op_settable op_newtable op_self : OpCode
  op_add op_sub op_mul op_div op_mod op_pow : OpCode
  op_unm op_not op_len op_concat op_jmp op_eq : OpCode
  op_lt op_le op_test op_testset op_call op_tailcall : OpCode
  op_return op_forloop op_forprep op_tforloop op_setlist op_close : OpCode
  op_closure op_vararg : OpCode

abbrev pub code : OpCode → ℕ
code op_move = 0
code op_loadk = 1
code op_loadbool = 2
code op_loadnil = 3
code op_getupval = 4
code op_getglobal = 5
code op_gettable = 6
code op_setglobal = 7
code op_setupval = 8
code op_settable = 9
code op_newtable = 10
code op_self = 11
code op_add = 12
code op_sub = 13
code op_mul = 14
code op_div = 15
code op_mod = 16
code op_pow = 17
code op_unm = 18
code op_not = 19
code op_len = 20
code op_concat = 21
code op_jmp = 22
code op_eq = 23
code op_lt = 24
code op_le = 25
code op_test = 26
code op_testset = 27
code op_call = 28
code op_tailcall = 29
code op_return = 30
code op_forloop = 31
code op_forprep = 32
code op_tforloop = 33
code op_setlist = 34
code op_close = 35
code op_closure = 36
code op_vararg = 37

abbrev pub num_opcodes : ℕ
num_opcodes = code op_vararg + 1

-- `enum OpMode`: the three formats.
abbrev pub iabc : ℕ
iabc = 0

abbrev pub iabx : ℕ
iabx = 1

abbrev pub iasbx : ℕ
iasbx = 2

-- `enum OpArgMask`: not used, used, a register or jump offset, a constant or register.
abbrev pub arg_n : ℕ
arg_n = 0

abbrev pub arg_u : ℕ
arg_u = 1

abbrev pub arg_r : ℕ
arg_r = 2

abbrev pub arg_k : ℕ
arg_k = 3

-- `(((t)<<7) | ((a)<<6) | ((b)<<4) | ((c)<<2) | (m))`
unfoldable pub opmode : ℕ → ℕ → ℕ → ℕ → ℕ → ℕ
opmode t a b c m =
    bit_or (bit_or (bit_or (bit_or (t * 2 ^ 7) (a * 2 ^ 6)) (b * 2 ^ 4)) (c * 2 ^ 2)) m

-- `gafqP_opmodes`: whether it is a test, whether it sets register A, the modes of B and C, the format.
unfoldable pub opmodes_table : List ℕ
unfolding opmode
opmodes_table =
    opmode 0 1 arg_r arg_n iabc
    ∷ opmode 0 1 arg_k arg_n iabx
    ∷ opmode 0 1 arg_u arg_u iabc
    ∷ opmode 0 1 arg_r arg_n iabc
    ∷ opmode 0 1 arg_u arg_n iabc
    ∷ opmode 0 1 arg_k arg_n iabx
    ∷ opmode 0 1 arg_r arg_k iabc
    ∷ opmode 0 0 arg_k arg_n iabx
    ∷ opmode 0 0 arg_u arg_n iabc
    ∷ opmode 0 0 arg_k arg_k iabc
    ∷ opmode 0 1 arg_u arg_u iabc
    ∷ opmode 0 1 arg_r arg_k iabc
    ∷ opmode 0 1 arg_k arg_k iabc
    ∷ opmode 0 1 arg_k arg_k iabc
    ∷ opmode 0 1 arg_k arg_k iabc
    ∷ opmode 0 1 arg_k arg_k iabc
    ∷ opmode 0 1 arg_k arg_k iabc
    ∷ opmode 0 1 arg_k arg_k iabc
    ∷ opmode 0 1 arg_r arg_n iabc
    ∷ opmode 0 1 arg_r arg_n iabc
    ∷ opmode 0 1 arg_r arg_n iabc
    ∷ opmode 0 1 arg_r arg_r iabc
    ∷ opmode 0 0 arg_r arg_n iasbx
    ∷ opmode 1 0 arg_k arg_k iabc
    ∷ opmode 1 0 arg_k arg_k iabc
    ∷ opmode 1 0 arg_k arg_k iabc
    ∷ opmode 1 1 arg_r arg_u iabc
    ∷ opmode 1 1 arg_r arg_u iabc
    ∷ opmode 0 1 arg_u arg_u iabc
    ∷ opmode 0 1 arg_u arg_u iabc
    ∷ opmode 0 0 arg_u arg_n iabc
    ∷ opmode 0 1 arg_r arg_n iasbx
    ∷ opmode 0 1 arg_r arg_n iasbx
    ∷ opmode 1 0 arg_n arg_u iabc
    ∷ opmode 0 0 arg_u arg_u iabc
    ∷ opmode 0 0 arg_n arg_n iabc
    ∷ opmode 0 1 arg_u arg_n iabx
    ∷ opmode 0 1 arg_u arg_n iabc
    ∷ []

-- A read past the table is undefined in C; the callers pass the opcode of a valid instruction.
unfoldable pub opmodes : ℕ → ℕ
unfolding opmodes_table
opmodes m = get_or opmodes_table m 0

unfoldable pub get_op_mode : ℕ → ℕ
unfolding opmodes
get_op_mode m = bit_and (opmodes m) 3

unfoldable pub get_b_mode : ℕ → ℕ
unfolding opmodes
get_b_mode m = bit_and (opmodes m / 2 ^ 4) 3

unfoldable pub get_c_mode : ℕ → ℕ
unfolding opmodes
get_c_mode m = bit_and (opmodes m / 2 ^ 2) 3

unfoldable pub test_a_mode : ℕ → Bool
unfolding opmodes
test_a_mode m = not (bit_and (opmodes m) (2 ^ 6) == 0)

unfoldable pub test_t_mode : ℕ → Bool
unfolding opmodes
test_t_mode m = not (bit_and (opmodes m) (2 ^ 7) == 0)
