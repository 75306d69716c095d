-- ===== src/Object/Numbers.antt =====
-- The integer helpers of gobject.c: floating point bytes and base-2 logarithms.
use gafq.Prelude.{
  ℕ, zero, suc, ◌+◌, ◌-◌, ◌*◌, ◌/◌, ◌%◌, ◌^◌, List, [], ◌∷◌, bit_and, bit_or, ltb, leb, ◌==◌,
  if◌then◌else◌, get_or,
}
use gafq.Prelude.Int.{ℤ, sub_ℕ}

-- `while (x >= 16) { x = (x+1) >> 1; e++; }` on an unsigned 32-bit `x`; a round more than halves a
-- number above 16, so 32 rounds are enough (Object.FloatByte).
unfoldable pub shrink : ℕ → ℕ → ℕ → ℕ × ℕ
shrink zero x e = (x, e)
shrink (suc fuel) x e =
    let rest = shrink fuel ((x + 1) % 2 ^ 32 / 2) (e + 1) in if leb 16 x then rest else (x, e)

-- The byte of a mantissa and an exponent.
unfoldable pub float_byte : ℕ → ℕ → ℕ
float_byte x e = if ltb x 8 then x else bit_or ((e + 1) * 2 ^ 3) (x - 8)

-- `gafqO_int2fb`
unfoldable pub int2fb : ℕ → ℕ
int2fb x = let (m, e) = shrink 32 x 0 in float_byte m e

-- `gafqO_fb2int`; the `int` is its 32-bit pattern.
unfoldable pub fb2int : ℕ → ℕ
fb2int x =
    let e = bit_and (x / 2 ^ 3) 31 in if e == 0 then x else (bit_and x 7 + 8) * 2 ^ (e - 1) % 2 ^ 32

unfoldable pub log_2 : List ℕ
log_2 =
    0 ∷ 1 ∷ 2 ∷ 2 ∷ 3 ∷ 3 ∷ 3 ∷ 3 ∷ 4 ∷ 4 ∷ 4 ∷ 4 ∷ 4 ∷ 4 ∷ 4 ∷ 4 ∷ 5 ∷ 5 ∷ 5 ∷ 5 ∷ 5 ∷ 5 ∷ 5 ∷ 5
    ∷ 5 ∷ 5 ∷ 5 ∷ 5 ∷ 5 ∷ 5 ∷ 5 ∷ 5 ∷ 6 ∷ 6 ∷ 6 ∷ 6 ∷ 6 ∷ 6 ∷ 6 ∷ 6 ∷ 6 ∷ 6 ∷ 6 ∷ 6 ∷ 6 ∷ 6 ∷ 6 ∷ 6
    ∷ 6 ∷ 6 ∷ 6 ∷ 6 ∷ 6 ∷ 6 ∷ 6 ∷ 6 ∷ 6 ∷ 6 ∷ 6 ∷ 6 ∷ 6 ∷ 6 ∷ 6 ∷ 6 ∷ 7 ∷ 7 ∷ 7 ∷ 7 ∷ 7 ∷ 7 ∷ 7 ∷ 7
    ∷ 7 ∷ 7 ∷ 7 ∷ 7 ∷ 7 ∷ 7 ∷ 7 ∷ 7 ∷ 7 ∷ 7 ∷ 7 ∷ 7 ∷ 7 ∷ 7 ∷ 7 ∷ 7 ∷ 7 ∷ 7 ∷ 7 ∷ 7 ∷ 7 ∷ 7 ∷ 7 ∷ 7
    ∷ 7 ∷ 7 ∷ 7 ∷ 7 ∷ 7 ∷ 7 ∷ 7 ∷ 7 ∷ 7 ∷ 7 ∷ 7 ∷ 7 ∷ 7 ∷ 7 ∷ 7 ∷ 7 ∷ 7 ∷ 7 ∷ 7 ∷ 7 ∷ 7 ∷ 7 ∷ 7 ∷ 7
    ∷ 7 ∷ 7 ∷ 7 ∷ 7 ∷ 7 ∷ 7 ∷ 7 ∷ 7 ∷ 8 ∷ 8 ∷ 8 ∷ 8 ∷ 8 ∷ 8 ∷ 8 ∷ 8 ∷ 8 ∷ 8 ∷ 8 ∷ 8 ∷ 8 ∷ 8 ∷ 8 ∷ 8
    ∷ 8 ∷ 8 ∷ 8 ∷ 8 ∷ 8 ∷ 8 ∷ 8 ∷ 8 ∷ 8 ∷ 8 ∷ 8 ∷ 8 ∷ 8 ∷ 8 ∷ 8 ∷ 8 ∷ 8 ∷ 8 ∷ 8 ∷ 8 ∷ 8 ∷ 8 ∷ 8 ∷ 8
    ∷ 8 ∷ 8 ∷ 8 ∷ 8 ∷ 8 ∷ 8 ∷ 8 ∷ 8 ∷ 8 ∷ 8 ∷ 8 ∷ 8 ∷ 8 ∷ 8 ∷ 8 ∷ 8 ∷ 8 ∷ 8 ∷ 8 ∷ 8 ∷ 8 ∷ 8 ∷ 8 ∷ 8
    ∷ 8 ∷ 8 ∷ 8 ∷ 8 ∷ 8 ∷ 8 ∷ 8 ∷ 8 ∷ 8 ∷ 8 ∷ 8 ∷ 8 ∷ 8 ∷ 8 ∷ 8 ∷ 8 ∷ 8 ∷ 8 ∷ 8 ∷ 8 ∷ 8 ∷ 8 ∷ 8 ∷ 8
    ∷ 8 ∷ 8 ∷ 8 ∷ 8 ∷ 8 ∷ 8 ∷ 8 ∷ 8 ∷ 8 ∷ 8 ∷ 8 ∷ 8 ∷ 8 ∷ 8 ∷ 8 ∷ 8 ∷ 8 ∷ 8 ∷ 8 ∷ 8 ∷ 8 ∷ 8 ∷ 8 ∷ 8
    ∷ 8 ∷ 8 ∷ 8 ∷ 8 ∷ 8 ∷ 8 ∷ 8 ∷ 8 ∷ 8 ∷ 8 ∷ 8 ∷ 8 ∷ 8 ∷ 8 ∷ 8 ∷ 8 ∷ []

-- `while (x >= 256) { l += 8; x >>= 8; }`, with `l` one more than the source's, which starts at -1.
unfoldable pub log2_loop : ℕ → ℕ → ℕ → ℕ × ℕ
log2_loop zero l x = (l, x)
log2_loop (suc fuel) l x =
    let rest = log2_loop fuel (l + 8) (x / 2 ^ 8) in if leb 256 x then rest else (l, x)

-- `gafqO_log2`: -1 for 0. Four rounds are enough for 32 bits.
unfoldable pub log2 : ℕ → ℤ
log2 x = let (l, x') = log2_loop 4 0 x in sub_ℕ (l + get_or log_2 x' 0) 1

-- `ceillog2(x)`: `gafqO_log2((x)-1) + 1`, for a positive `x`.
unfoldable pub ceillog2 : ℕ → ℕ
ceillog2 x = let (l, x') = log2_loop 4 0 ((x + 2 ^ 32 - 1) % 2 ^ 32) in l + get_or log_2 x' 0
