-- ===== src/Tests/GrtRuns.antt =====
-- The runtime on concrete values.
use cluster_stm.Common.{ℕ, ◌+◌, ◌≡◌, refl, arith, true, ◌⊎◌, [], ◌∷◌}
use cluster_stm.Stm.Types.{read, write}
use cluster_stm.Grt.List.{GrtList, grt_list_create, grt_list_append, grt_list_start, visit}
use cluster_stm.Grt.Map.{grt_map_create, grt_map_insert, grt_map_find}
use cluster_stm.Grt.Map.Laws.{find-insert}
use cluster_stm.Grt.Memory.{Words, grt_word, grt_word_lo, grt_word_hi, grt_read, grt_write, grt_cas}
use cluster_stm.Grt.Lock.{
  free, write_held, Waiter, LockSystem, free, held, waiting, lock_local, unlock_local, grt_lock,
  grt_unlock, lock_alloc_local,
}
use cluster_stm.Grt.Lock.Handoff.{
  Holding, unheld, Turns, start, next, request, release_one, requested, released, held-exclusively,
}
use cluster_stm.Grt.Lock.Grants.{grt_unlock-wakes}

program : Unit {0}
unfolding grt_list_create grt_list_append grt_list_start visit grt_map_create grt_map_insert
    grt_map_find grt_word grt_word_lo grt_word_hi grt_read grt_write grt_cas lock_local unlock_local
    grt_lock grt_unlock lock_alloc_local write_held
program = tt

listed :
    visit {A = ℕ} 5 (grt_list_start (grt_list_append (grt_list_append grt_list_create 7) 8))
    ≡ 7 ∷ 8 ∷ []
unfolding program
listed = refl

-- The keys 5 and 105 share a bucket.
find-insert_example :
    grt_map_find (grt_map_insert (grt_map_insert grt_map_create 5 50).0 105 60).0 5 0 ≡ (true, 50)
unfolding program
find-insert_example = find-insert (grt_map_insert grt_map_create 5 50).0 105 60 5 0

abbrev zeros : Words
zeros p a = 0

-- Processor 0 writes to processor 1, and processor 2 reads it.
read_back : grt_read 2 (grt_write 0 zeros 1 77 16) 1 16 ≡ 77
unfolding program
read_back = refl

-- A reader holds the lock, and a writer waits for it.
abbrev queued : Holding
queued = requested (requested unheld 0 8 read) 1 16 write

queued-Turns : Turns unheld queued
unfolding program
queued-Turns =
    next (next start (request 0 8 read (λ e. omega (arith, e)) (omega arith) (omega arith)))
      (request 1 16 write (λ e. omega (arith, e)) (omega arith) (omega arith))

-- The reader releases it.
abbrev handed_over : Holding
handed_over = released queued read

held-exclusively_example :
    ((handed_over.writers ≡ 0) ⊎ ((handed_over.writers ≡ 1) × (handed_over.readers ≡ 0)))
    × (handed_over.lock.num_holders ≡ handed_over.readers + handed_over.writers)
    × (handed_over.readers + handed_over.writers ≡ 0 → handed_over.lock.waiters.nodes ≡ [])
unfolding program
held-exclusively_example =
    held-exclusively {h = handed_over} (next queued-Turns (release_one read (omega arith)))

handed_over_writes : (handed_over.writers ≡ 1) × (handed_over.readers ≡ 0)
unfolding program
handed_over_writes = (refl, refl)

abbrev writer : Waiter
writer = record { proc = 1; state = 16; type = write }

abbrev lock_system : LockSystem
lock_system = record { lock = lock_alloc_local; states = λ p a. free }

abbrev queued_system : LockSystem
queued_system = record { lock = queued.lock; states = λ p a. waiting }

-- The state at 20 was WAITING too.
neighbour_freed : (grt_unlock queued_system).states 1 20 ≡ free
unfolding program
neighbour_freed = refl

grt_unlock-wakes_example : (grt_unlock queued_system).states 1 16 ≡ held
unfolding program
grt_unlock-wakes_example =
    grt_unlock-wakes queued_system writer [] 1 16 refl (omega arith) (λ e. omega (arith, e)) refl

abbrev one : GrtList ℕ
one = grt_list_append grt_list_create 7
