-- ===== src/Mem/Growth.antt =====
-- The growth of arrays (gafqM_growaux_) and the count of the bytes in use (gafqM_realloc_).
use gafq.Prelude.{
  ℕ, Bool, ◌+◌, ◌-◌, ◌*◌, ◌/◌, ◌%◌, ◌^◌, ◌≤◌, ◌<◌, ◌≡◌, refl, arith, ◌⊎◌, inl, inr, Bool-cases,
  ◌&&◌, not, true, false, none, some, ltb, leb, if◌then◌else◌,
}
use gafq.Prelude.Run.{ok, error}
use gafq.Mem.{Heap, err_mem, grown_size, realloc}

pub grown_size_lem :
    (size limit : ℕ)
    → size < limit
    → 4 ≤ limit
    → (n : ℕ) × (grown_size size limit ≡ some n) × (size < n) × (n ≤ limit)
unfolding grown_size
grown_size_lem size limit h h4 =
    let n = if leb (limit / 2) size then limit else if ltb (size * 2) 4 then 4 else size * 2 in
    (n, ground arith, ground arith, ground arith)

pub grown_size-full : (size limit : ℕ) → limit ≤ size → grown_size size limit ≡ none
unfolding grown_size
grown_size-full size limit h = ground arith

module _ {U : Type 0} where
  -- As long as the sum stays a `size_t`: where the allocator returns a block, or the new size is 0,
  -- `gafqM_realloc_` succeeds and the count of the bytes in use follows the block from `osize` to
  -- `nsize`; where it returns none for a size above 0, that is an error of memory.
  pub realloc_accounts :
      (g : Heap U) (osize nsize others : ℕ)
      → g.totalbytes ≡ others + osize
      → others + osize < 2 ^ 64
      → others + nsize < 2 ^ 64
      → ((g' : Heap U) × (realloc osize nsize g ≡ ok (tt, g'))
          × (g'.totalbytes ≡ others + nsize)
          × (((g.frealloc g.ud osize nsize).0 ≡ true) ⊎ (nsize ≡ 0)))
        ⊎ ((realloc osize nsize g ≡ error err_mem)
            × (0 < nsize)
            × ((g.frealloc g.ud osize nsize).0 ≡ false))
  unfolding realloc
  realloc_accounts g osize nsize others e h1 h2 =
      let block = (g.frealloc g.ud osize nsize).0 in
      elim (Bool-cases (not block && ltb 0 nsize)) [
        | inl fail ↦ inr (rw fail refl, ground arith, ground arith)
        | inr good ↦ inl (
          record g {
            ud = (g.frealloc g.ud osize nsize).1;
            totalbytes = ((g.totalbytes + 2 ^ 64 - osize) % 2 ^ 64 + nsize) % 2 ^ 64;
          },
          rw good refl,
          omega arith,
          given block nsize good,
        )
      ]
    where
      given : (b : Bool) (n : ℕ) → (not b && ltb 0 n) ≡ false → (b ≡ true) ⊎ (n ≡ 0)
      given true n h = inl refl
      given false n h = inr (ground arith)

  -- The allocator returns a block whenever one is asked for.
  abbrev pub Generous : Heap U → Type 0
  Generous g = (u : U) (osize nsize : ℕ) → 0 < nsize → (g.frealloc u osize nsize).0 ≡ true
