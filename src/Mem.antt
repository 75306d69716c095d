-- ===== src/Mem.antt =====
-- The memory manager (gmem.c, gmem.h) over the host's allocation function.
pub mod Growth
mod Tests
use gafq.Prelude.{
  ℕ, suc, ◌+◌, ◌-◌, ◌*◌, ◌/◌, ◌%◌, ◌^◌, ◌&&◌, not, Bool, true, false, Option, none, some, ltb, leb,
  if◌then◌else◌,
}
use gafq.Prelude.Run.{Run, ok, error, returning, failing, bind, ◌>>=◌, ◌>>◌, fail_if}

-- A `gafq_Alloc` with its own data: from the old and the new size of a block, whether it returns one.
abbrev pub Alloc : Type 0 → Type 0
Alloc U = U → ℕ → ℕ → Bool × U

-- What `global_State` keeps for the memory manager.
pub record Heap (U : Type 0) : Type 0 where
  pub frealloc : Alloc U
  pub ud : U
  pub totalbytes : ℕ

-- GAFQ_ERRMEM, and the run-time errors for a block and for an array beyond its limit.
pub data MemError : Type 0 where
  err_mem block_too_big array_too_long : MemError

abbrev pub minsizearray : ℕ
minsizearray = 4

abbrev pub max_sizet : ℕ
max_sizet = 2 ^ 64 - 1 - 2

abbrev pub max_int : ℕ
max_int = 2 ^ 31 - 1 - 2

-- The size that `gafqM_growaux_` gives an array, or none at the limit.
unfoldable pub grown_size : ℕ → ℕ → Option ℕ
grown_size size limit =
    if leb (limit / 2) size
    then (if leb limit size then none else some limit)
    else some (if ltb (size * 2) minsizearray then minsizearray else size * 2)

module _ {U : Type 0} where
  -- `gafqM_realloc_`; the counter of bytes is a `size_t`.
  unfoldable pub realloc : ℕ → ℕ → Run MemError (Heap U) (Unit {0})
  realloc osize nsize g =
      let (block, ud) = g.frealloc g.ud osize nsize in
      if not block && ltb 0 nsize
      then error err_mem
      else ok (
        tt,
        record g {
          ud = ud;
          totalbytes = ((g.totalbytes + 2 ^ 64 - osize) % 2 ^ 64 + nsize) % 2 ^ 64;
        },
      )

  -- `gafqM_reallocv` for elements of `e` bytes.
  unfoldable pub reallocv : ℕ → ℕ → ℕ → Run MemError (Heap U) (Unit {0})
  reallocv oldn n e =
      if leb (n + 1) (max_sizet / e) then realloc (oldn * e) (n * e) else failing block_too_big

  -- `gafqM_growaux_` returns the new size of the array.
  unfoldable pub growaux_to : ℕ → ℕ → Option ℕ → Run MemError (Heap U) ℕ
  growaux_to size size_elems none = failing array_too_long
  growaux_to size size_elems (some newsize) = do reallocv size newsize size_elems; returning newsize

  unfoldable pub growaux : ℕ → ℕ → ℕ → Run MemError (Heap U) ℕ
  growaux size size_elems limit = growaux_to size size_elems (grown_size size limit)

  -- `gafqM_growvector`
  unfoldable pub growvector : ℕ → ℕ → ℕ → ℕ → Run MemError (Heap U) ℕ
  growvector nelems size size_elems limit =
      if ltb size (nelems + 1) then growaux size size_elems limit else returning size
