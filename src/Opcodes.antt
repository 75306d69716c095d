-- ===== src/Opcodes.antt =====
-- Instructions of the virtual machine (gopcodes.h): a 32-bit word with an opcode and its arguments.
-- `<<` is a product modulo 2 ^ 32, `>>` a quotient, `&` and `|` the operations on binary digits; the
-- complement `~m` of a word is `2 ^ 32 - 1 - m`.
pub mod Modes
mod Tests
pub mod Fields
pub mod Layout
use gafq.Prelude.{ℕ, ◌+◌, ◌-◌, ◌*◌, ◌/◌, ◌%◌, ◌^◌, Bool, not, bit_and, bit_or, ◌==◌}
use gafq.Prelude.Int.{ℤ, sub_ℕ, pos_part, neg_part}

-- An `Instruction` is an unsigned 32-bit word.
abbrev pub Instruction : Type 0
Instruction = ℕ

abbrev pub size_c : ℕ
size_c = 9

abbrev pub size_b : ℕ
size_b = 9

abbrev pub size_bx : ℕ
size_bx = size_c + size_b

abbrev pub size_a : ℕ
size_a = 8

abbrev pub size_op : ℕ
size_op = 6

abbrev pub pos_op : ℕ
pos_op = 0

abbrev pub pos_a : ℕ
pos_a = pos_op + size_op

abbrev pub pos_c : ℕ
pos_c = pos_a + size_a

abbrev pub pos_b : ℕ
pos_b = pos_c + size_c

abbrev pub pos_bx : ℕ
pos_bx = pos_c

-- The limits of the arguments: the largest value of a field.
abbrev pub maxarg_bx : ℕ
maxarg_bx = 2 ^ size_bx - 1

abbrev pub maxarg_sbx : ℕ
maxarg_sbx = maxarg_bx / 2

abbrev pub maxarg_a : ℕ
maxarg_a = 2 ^ size_a - 1

abbrev pub maxarg_b : ℕ
maxarg_b = 2 ^ size_b - 1

abbrev pub maxarg_c : ℕ
maxarg_c = 2 ^ size_c - 1

-- `(~((~(Instruction)0)<<n))<<p`
abbrev pub mask1 : ℕ → ℕ → ℕ
mask1 n p = (2 ^ 32 - 1 - (2 ^ 32 - 1) * 2 ^ n % 2 ^ 32) * 2 ^ p % 2 ^ 32

abbrev pub mask0 : ℕ → ℕ → ℕ
mask0 n p = 2 ^ 32 - 1 - mask1 n p

-- `((i)>>pos) & MASK1(size,0)`
unfoldable pub get_field : ℕ → ℕ → Instruction → ℕ
get_field n p i = bit_and (i / 2 ^ p) (mask1 n 0)

-- `((i)&MASK0(size,pos)) | ((cast(Instruction, u)<<pos)&MASK1(size,pos))`
unfoldable pub set_field : ℕ → ℕ → Instruction → ℕ → Instruction
set_field n p i u = bit_or (bit_and i (mask0 n p)) (bit_and (u * 2 ^ p % 2 ^ 32) (mask1 n p))

unfoldable pub get_opcode : Instruction → ℕ
unfolding get_field
get_opcode i = get_field size_op pos_op i

unfoldable pub set_opcode : Instruction → ℕ → Instruction
unfolding set_field
set_opcode i o = set_field size_op pos_op i o

unfoldable pub getarg_a : Instruction → ℕ
unfolding get_field
getarg_a i = get_field size_a pos_a i

unfoldable pub setarg_a : Instruction → ℕ → Instruction
unfolding set_field
setarg_a i u = set_field size_a pos_a i u

unfoldable pub getarg_b : Instruction → ℕ
unfolding get_field
getarg_b i = get_field size_b pos_b i

unfoldable pub setarg_b : Instruction → ℕ → Instruction
unfolding set_field
setarg_b i u = set_field size_b pos_b i u

unfoldable pub getarg_c : Instruction → ℕ
unfolding get_field
getarg_c i = get_field size_c pos_c i

unfoldable pub setarg_c : Instruction → ℕ → Instruction
unfolding set_field
setarg_c i u = set_field size_c pos_c i u

unfoldable pub getarg_bx : Instruction → ℕ
unfolding get_field
getarg_bx i = get_field size_bx pos_bx i

unfoldable pub setarg_bx : Instruction → ℕ → Instruction
unfolding set_field
setarg_bx i u = set_field size_bx pos_bx i u

-- The signed argument is kept in excess `MAXARG_sBx`.
unfoldable pub getarg_sbx : Instruction → ℤ
getarg_sbx i = sub_ℕ (getarg_bx i) maxarg_sbx

-- `cast(unsigned int, (b)+MAXARG_sBx)`, with the wrap of a negative sum.
unfoldable pub setarg_sbx : Instruction → ℤ → Instruction
setarg_sbx i b = setarg_bx i ((pos_part b + maxarg_sbx + 2 ^ 32 - neg_part b) % 2 ^ 32)

-- The operands of `|` are words: each is shifted out of the 32 bits on the left.
unfoldable pub create_abc : ℕ → ℕ → ℕ → ℕ → Instruction
create_abc o a b c =
    bit_or
      (bit_or (bit_or (o * 2 ^ pos_op % 2 ^ 32) (a * 2 ^ pos_a % 2 ^ 32)) (b * 2 ^ pos_b % 2 ^ 32))
      (c * 2 ^ pos_c % 2 ^ 32)

unfoldable pub create_abx : ℕ → ℕ → ℕ → Instruction
create_abx o a bc =
    bit_or (bit_or (o * 2 ^ pos_op % 2 ^ 32) (a * 2 ^ pos_a % 2 ^ 32)) (bc * 2 ^ pos_bx % 2 ^ 32)

-- Bit 8 of an RK operand says that it is a constant.
abbrev pub bitrk : ℕ
bitrk = 2 ^ (size_b - 1)

unfoldable pub isk : ℕ → Bool
isk x = not (bit_and x bitrk == 0)

-- `(int)(r) & ~BITRK`; an operand is a field of at most 31 bits.
unfoldable pub indexk : ℕ → ℕ
indexk r = bit_and r (2 ^ 31 - 1 - bitrk)

abbrev pub maxindexrk : ℕ
maxindexrk = bitrk - 1

unfoldable pub rkask : ℕ → ℕ
rkask x = bit_or x bitrk

abbrev pub no_reg : ℕ
no_reg = maxarg_a

abbrev pub lfields_per_flush : ℕ
lfields_per_flush = 50
