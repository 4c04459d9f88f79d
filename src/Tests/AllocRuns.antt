-- ===== src/Tests/AllocRuns.antt =====
-- Allocation by all processors together, on heaps that hand out one address after the other.
use cluster_stm.Common.{ℕ, ◌+◌, ◌-◌, ◌^◌, ◌*◌, ◌≡◌, List, [], ◌∷◌, refl, arith}
use cluster_stm.Common.Words.{handlerarg}
use cluster_stm.Grt.Memory.{grt_word, grt_word_lo, grt_word_hi}
use cluster_stm.Grt.Alloc.{
  Umalloc, Allocs, grt_alloc_local, alloc_handler, grt_alloc, get_alloc_handler,
  grt_get_last_allocation, before_barrier, arrive, grt_all_alloc,
}
use cluster_stm.Grt.Alloc.Barrier.{grt_all_alloc-same}

abbrev bump : Umalloc
bump = record { Heap = ℕ; ucalloc = λ heap size num. (heap + size * num, heap) }

-- The heap of processor `p` starts at `1000 + 100 * p`.
abbrev fresh_heaps : ℕ → Allocs bump
fresh_heaps p = record { grt_heap = 1000 + 100 * p; grt_last_alloc = 0 }

abbrev arrivals : List ℕ
arrivals = 2 ∷ 0 ∷ 1 ∷ []

second_address : (grt_alloc 0 1 24 (grt_alloc 2 1 16 fresh_heaps).0).1 ≡ 1116
unfolding grt_alloc alloc_handler grt_alloc_local handlerarg grt_word grt_word_lo grt_word_hi
second_address = refl

seen_from_two : (grt_all_alloc 2 1 16 arrivals fresh_heaps).1 ≡ 1100
unfolding grt_all_alloc arrive before_barrier grt_get_last_allocation get_alloc_handler
    grt_alloc_local grt_word grt_word_lo grt_word_hi
seen_from_two = refl

-- From another processor, a size of 2^31 bytes arrives as 2^64 - 2^31.
large_size :
    ((grt_alloc 1 1 2147483648 fresh_heaps).0 1).grt_heap + (2 ^ 64 - 2 ^ 32)
    ≡ ((grt_alloc 0 1 2147483648 fresh_heaps).0 1).grt_heap
unfolding grt_alloc alloc_handler grt_alloc_local handlerarg grt_word grt_word_lo grt_word_hi
large_size = refl

grt_all_alloc-same_example :
    ((grt_all_alloc 2 1 16 arrivals fresh_heaps).1 ≡ 1100)
    × ((grt_alloc 0 1 16 fresh_heaps).1 ≡ 1100)
    × ((r : ℕ)
        → (grt_all_alloc 2 1 16 arrivals fresh_heaps).0 r ≡ (grt_alloc 0 1 16 fresh_heaps).0 r)
grt_all_alloc-same_example =
    grt_all_alloc-same 1 16 arrivals fresh_heaps refl (omega arith) (omega arith) 2 0
