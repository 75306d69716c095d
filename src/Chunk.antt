-- ===== src/Chunk.antt =====
-- Function prototypes (gobject.h) and their image in a precompiled chunk. The sizes are those of
-- x86-64: an `int` and an `Instruction` have 4 bytes, a `size_t` and a `gafq_Number` 8, lowest first.
pub mod Header
pub mod Dump
pub mod Undump
pub mod Bytes
pub mod Image
pub mod Writing
pub mod Loads
pub mod Values
pub mod Prototypes
pub mod RoundTrip
pub mod Rejects
mod Tests
use gafq.Prelude.{
  ℕ, zero, suc, ◌+◌, ◌*◌, ◌/◌, ◌%◌, Bool, Option, none, some, List, [], ◌∷◌, ◌++◌, take, drop,
}

-- A `TString` by its bytes: strings are interned, so that one address means one text. `none` is NULL.
abbrev pub TString : Type 0
TString = List ℕ

-- The values that the constant table of a function can hold. A number is the image of a `double`.
pub data Constant : Type 0 where
  nil : Constant
  boolean : Bool → Constant
  number : ℕ → Constant
  string : Option TString → Constant

-- The type tags of `gafq.h`.
abbrev pub tnil : ℕ
tnil = 0

abbrev pub tboolean : ℕ
tboolean = 1

abbrev pub tnumber : ℕ
tnumber = 3

abbrev pub tstring : ℕ
tstring = 4

pub record LocVar : Type 0 where
  pub varname : Option TString
  pub startpc : ℕ
  pub endpc : ℕ

-- The fields of `struct Proto` but for the nested prototypes. The arrays carry their sizes; an `int`
-- is its 32-bit pattern and a `lu_byte` is below 256.
pub record Fields : Type 0 where
  pub source : Option TString
  pub linedefined : ℕ
  pub lastlinedefined : ℕ
  pub nups : ℕ
  pub numparams : ℕ
  pub is_vararg : ℕ
  pub maxstacksize : ℕ
  pub code : List ℕ
  pub k : List Constant
  pub lineinfo : List ℕ
  pub locvars : List LocVar
  pub upvalues : List (Option TString)

mutual
  pub data Proto : Type 0 where
    proto : Fields → Protos → Proto

  -- The array `p` of the nested prototypes.
  pub data Protos : Type 0 where
    no_protos : Protos
    protos : Proto → Protos → Protos

-- The bytes of a value of `k` bytes in memory, and the value of such bytes.
unfoldable pub to_bytes : ℕ → ℕ → List ℕ
to_bytes zero n = []
to_bytes (suc k) n = (n % 256) ∷ to_bytes k (n / 256)

unfoldable pub of_bytes : List ℕ → ℕ
of_bytes [] = 0
of_bytes (b ∷ bs) = b + 256 * of_bytes bs

-- An array of 4-byte values in memory.
unfoldable pub words_bytes : List ℕ → List ℕ
words_bytes [] = []
words_bytes (w ∷ ws) = to_bytes 4 w ++ words_bytes ws

unfoldable pub bytes_words : ℕ → List ℕ → List ℕ
bytes_words zero bs = []
bytes_words (suc n) bs = of_bytes (take 4 bs) ∷ bytes_words n (drop 4 bs)
