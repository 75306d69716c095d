-- ===== src/Zio.antt =====
-- Buffered streams (gzio.c, gzio.h) over a reader that the host supplies.
pub mod Stream
pub mod Reading
pub mod Buffer
mod Tests
use gafq.Prelude.{
  ℕ, zero, suc, ◌+◌, ◌-◌, ◌%◌, ◌^◌, min, Option, none, some, List, [], ◌∷◌, ◌++◌, ltb, ◌==◌,
  if◌then◌else◌, take, drop, length,
}

-- A `gafq_Reader` returns the next block of bytes, none at the end, and changes its own data.
abbrev pub Reader : Type 0 → Type 0
Reader D = D → List ℕ × D

-- `struct Zio`; `p` is the memory from the current position to the end of the block.
pub record Zio (D : Type 0) : Type 0 where
  pub n : ℕ
  pub p : List ℕ
  pub reader : Reader D
  pub user : D

-- `EOZ` is `none`; a byte is `some`.
abbrev pub Byte : Type 0
Byte = Option ℕ

-- `*p`, and what a block holds from its first byte on; a read past the block has no meaning.
unfoldable pub first : List ℕ → Byte
first [] = none
first (c ∷ cs) = some c

module _ {D : Type 0} where
  -- The block that the reader returned becomes the buffer, less its first byte.
  unfoldable pub fill_with : Zio D → List ℕ → D → Byte × Zio D
  fill_with z [] d = (none, record z { user = d })
  fill_with z (c ∷ buff) d = (some c, record z { n = length buff; p = buff; user = d })

  -- `gafqZ_fill`
  unfoldable pub fill : Zio D → Byte × Zio D
  unfolding fill_with
  fill z = let (buff, d) = z.reader z.user in fill_with z buff d

  -- `z->n++; z->p--` after `gafqZ_fill` took the byte `c`.
  unfoldable pub put_back : Byte × Zio D → Byte × Zio D
  put_back (none, z) = (none, z)
  put_back (some c, z) = (some c, record z { n = z.n + 1; p = c ∷ z.p })

  -- `gafqZ_lookahead`
  unfoldable pub lookahead : Zio D → Byte × Zio D
  unfolding put_back first
  lookahead z = if z.n == 0 then put_back (fill z) else (first z.p, z)

  -- `zgetc`; the decrement of an empty buffer's `n`, a `size_t`, wraps.
  unfoldable pub zgetc : Zio D → Byte × Zio D
  unfolding first
  zgetc z =
      if ltb 0 z.n
      then (first z.p, record z { n = z.n - 1; p = drop 1 z.p })
      else fill (record z { n = (z.n + 2 ^ 64 - 1) % 2 ^ 64 })

  -- `gafqZ_init`
  unfoldable pub init : Reader D → D → Zio D
  init reader d = record { n = 0; p = []; reader = reader; user = d }

  -- The body of the loop of `gafqZ_read` after the lookahead, with the loop to go on with.
  unfoldable pub read_next :
      (Zio D → List ℕ → ℕ → ℕ × List ℕ × Zio D) → List ℕ → ℕ → Byte × Zio D → ℕ × List ℕ × Zio D
  read_next go_on b n (none, z) = (n, b, z)
  read_next go_on b n (some _, z) =
      let m = min n z.n in
      go_on (record z { n = z.n - m; p = drop m z.p }) (b ++ take m z.p) (n - m)

  -- The loop of `gafqZ_read`: the bytes still missing, those copied to `b`, and the stream. A round
  -- takes at least one byte, so that `n` rounds are enough.
  unfoldable pub read_loop : ℕ → Zio D → List ℕ → ℕ → ℕ × List ℕ × Zio D
  unfolding read_next
  read_loop zero z b n = (n, b, z)
  read_loop (suc fuel) z b zero = (0, b, z)
  read_loop (suc fuel) z b (suc k) = read_next (read_loop fuel) b (suc k) (lookahead z)

  -- `gafqZ_read`
  unfoldable pub read : Zio D → ℕ → ℕ × List ℕ × Zio D
  read z n = read_loop n z [] n
