-- ===== src/Chunk/Header.antt =====
-- The header of a precompiled chunk (gafqU_header in gundump.c, gundump.h).
use gafq.Prelude.{
  ℕ, ◌+◌, ◌≡◌, refl, List, [], ◌∷◌, ◌++◌, length, take, Bool, true, false, ◌&&◌, ◌==◌,
}

-- What the header says of the compiler that built the program: `sizeof` of four types, the byte
-- order (1 for lowest first) and whether a `gafq_Number` is integral.
pub record Platform : Type 0 where
  pub endianness : ℕ
  pub int_size : ℕ
  pub size_t_size : ℕ
  pub instruction_size : ℕ
  pub number_size : ℕ
  pub integral : ℕ

abbrev pub x86_64 : Platform
x86_64 = record {
  endianness = 1;
  int_size = 4;
  size_t_size = 8;
  instruction_size = 4;
  number_size = 8;
  integral = 0;
}

-- `GAFQ_SIGNATURE`, "\033Gafq".
abbrev pub signature : List ℕ
signature = 27 ∷ b'G' ∷ b'a' ∷ b'f' ∷ b'q' ∷ []

abbrev pub version : ℕ
version = 0x51

abbrev pub format : ℕ
format = 0

-- `GAFQC_HEADERSIZE`, the length of the arrays that the callers pass.
abbrev pub headersize : ℕ
headersize = 12

-- `gafqU_header`: all the bytes that it writes from `h` on.
unfoldable pub header_writes : Platform → List ℕ
header_writes p =
    signature
    ++ version ∷ format ∷ p.endianness ∷ p.int_size ∷ p.size_t_size ∷ p.instruction_size
      ∷ p.number_size ∷ p.integral ∷ []

-- What the caller's array `char h[GAFQC_HEADERSIZE]` holds of them.
unfoldable pub header : Platform → List ℕ
unfolding header_writes
header p = take headersize (header_writes p)

-- `memcmp(h,s,n)==0`
unfoldable pub same_bytes : List ℕ → List ℕ → Bool
same_bytes [] [] = true
same_bytes [] (t ∷ ts) = false
same_bytes (s ∷ ss) [] = false
same_bytes (s ∷ ss) (t ∷ ts) = s == t && same_bytes ss ts

-- On every platform the header's bytes are one more than its callers' arrays hold: the last write is
-- out of bounds. What a chunk keeps is the header without the flag for integral numbers, so that two
-- platforms that differ in this flag alone have the same header.
pub header_overflow :
    (p : Platform) (flag : ℕ)
    → (length (header_writes p) ≡ headersize + 1)
      × (length (header p) ≡ headersize)
      × (header (record p { integral = flag }) ≡ header p)
unfolding header
header_overflow p flag = (refl, refl, refl)
