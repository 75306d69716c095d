-- ===== src/Mem/Tests.antt =====
-- The memory manager over an allocator that never runs out of memory.
use gafq.Prelude.{ltb, ℕ, ◌+◌, ◌<◌, ◌≡◌, refl, arith, ◌⊎◌, true, false}
use gafq.Prelude.Run.{ok, error}
use gafq.Mem.{Alloc, Heap, err_mem, realloc}
use gafq.Mem.Growth.{realloc_accounts}

abbrev malloc : Alloc ℕ
malloc calls osize nsize = (ltb 0 nsize, calls + 1)

abbrev heap : Heap ℕ
heap = record { frealloc = malloc; ud = 0; totalbytes = 1000 }

realloc_accounts_example :
    ((g' : Heap ℕ) × (realloc 40 100 heap ≡ ok (tt, g'))
      × (g'.totalbytes ≡ 960 + 100)
      × (((heap.frealloc heap.ud 40 100).0 ≡ true) ⊎ (◌≡◌ {A = ℕ} 100 0)))
    ⊎ ((realloc 40 100 heap ≡ error err_mem)
        × (0 < 100)
        × ((heap.frealloc heap.ud 40 100).0 ≡ false))
realloc_accounts_example = realloc_accounts heap 40 100 960 refl (omega arith) (omega arith)
