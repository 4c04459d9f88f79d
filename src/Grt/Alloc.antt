-- ===== src/Grt/Alloc.antt =====
-- grt_alloc, grt_get_last_allocation and grt_all_alloc of Implementation/grt/grt.c, with umalloc as
-- a parameter.
pub mod Barrier
use cluster_stm.Common.{ℕ, ◌==◌, if◌then◌else◌, List, [], ◌∷◌}
use cluster_stm.Common.Family.{update}
use cluster_stm.Common.Words.{handlerarg}
use cluster_stm.Grt.Memory.{grt_word, grt_word_lo, grt_word_hi, sent}

-- `umalloc_heap_t` and `ucalloc`, which gives the heap that is left and an address.
pub record Umalloc : Type 1 where
  pub Heap : Type 0
  pub ucalloc : Heap → (size num : ℕ) → Heap × ℕ

-- `grt_heap` and `grt_last_alloc` of one processor
pub record Allocs (u : Umalloc) : Type 0 where
  pub grt_heap : u.Heap
  pub grt_last_alloc : ℕ

module _ {u : Umalloc} where
  -- What a call does while it has `alloc_lock`; its result is `grt_last_alloc`.
  unfoldable pub grt_alloc_local : (nbytes : ℕ) → Allocs u → Allocs u
  grt_alloc_local nbytes s =
      let r = u.ucalloc s.grt_heap nbytes 1 in record { grt_heap = r.0; grt_last_alloc = r.1 }

  -- `alloc_handler` on `proc`, and its reply. The size is an argument of the handler.
  unfoldable pub alloc_handler : (proc nbytes : ℕ) → (ℕ → Allocs u) → (ℕ → Allocs u) × ℕ
  unfolding grt_alloc_local grt_word grt_word_lo grt_word_hi
  alloc_handler proc nbytes s =
      let a = grt_alloc_local (handlerarg nbytes) (s proc) in
      (update s proc a, sent a.grt_last_alloc)

  unfoldable pub grt_alloc : (grt_id proc nbytes : ℕ) → (ℕ → Allocs u) → (ℕ → Allocs u) × ℕ
  unfolding grt_alloc_local alloc_handler
  grt_alloc grt_id proc nbytes s =
      let a = grt_alloc_local nbytes (s proc) in
      if proc == grt_id then (update s proc a, a.grt_last_alloc) else alloc_handler proc nbytes s

  -- `get_alloc_handler` on `proc`, and its reply
  unfoldable pub get_alloc_handler : (proc : ℕ) → (ℕ → Allocs u) → ℕ
  unfolding grt_word grt_word_lo grt_word_hi
  get_alloc_handler proc s = sent (s proc).grt_last_alloc

  unfoldable pub grt_get_last_allocation : (grt_id proc : ℕ) → (ℕ → Allocs u) → ℕ
  unfolding get_alloc_handler
  grt_get_last_allocation grt_id proc s =
      if proc == grt_id then (s proc).grt_last_alloc else get_alloc_handler proc s

  -- What `grt_all_alloc` does on the processor `grt_id` before its first barrier.
  unfoldable pub before_barrier : (proc nbytes grt_id : ℕ) → (ℕ → Allocs u) → ℕ → Allocs u
  unfolding grt_alloc_local
  before_barrier proc nbytes grt_id s =
      if proc == grt_id then update s proc (grt_alloc_local nbytes (s proc)) else s

  -- The processors of `ps` come to the first barrier, in this order.
  unfoldable pub arrive : (proc nbytes : ℕ) → (ps : List ℕ) → (ℕ → Allocs u) → ℕ → Allocs u
  unfolding before_barrier
  arrive proc nbytes [] s = s
  arrive proc nbytes (p ∷ ps) s = arrive proc nbytes ps (before_barrier proc nbytes p s)

  -- `grt_all_alloc`, and what it returns on `grt_id`. No processor passes the first barrier before
  -- all are there, and none allocates again before all have passed the second one.
  unfoldable pub grt_all_alloc :
      (grt_id proc nbytes : ℕ) (ps : List ℕ) → (ℕ → Allocs u) → (ℕ → Allocs u) × ℕ
  unfolding arrive grt_get_last_allocation
  grt_all_alloc grt_id proc nbytes ps s =
      let s' = arrive proc nbytes ps s in (s', grt_get_last_allocation grt_id proc s')
