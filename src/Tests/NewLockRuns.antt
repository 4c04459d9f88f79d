-- ===== src/Tests/NewLockRuns.antt =====
-- The second kind of locks, with a Boolean for each handler-safe lock of GASNet.
use cluster_stm.Common.{ℕ, ◌+◌, ◌≡◌, ◌⊎◌, Bool, true, false, some, refl, arith, inl}
use cluster_stm.Stm.Types.{read, write}
use cluster_stm.Grt.List.{grt_list_create}
use cluster_stm.Grt.Lock.{lock_local}
use cluster_stm.Grt.Lock.Handoff.{Holding, IsServing}
use cluster_stm.Grt.NewLock.{
  Hsl, NewLock, new_lock_alloc_local, new_trylock_local, new_lock_local, new_unlock_local,
  grt_new_lock,
}
use cluster_stm.Grt.NewLock.Holders.{IsHeldBy, granted}
use cluster_stm.Grt.NewLock.Calls.{
  NewHolding, Calls, start, next, lock_call, trylock_call, unlock_call, new_unheld,
  new_lock-exclusive, holding,
}
use cluster_stm.Grt.NewLock.Requests.{grt_new_lock-anywhere, new_trylock-lock_local}

abbrev mutex : Hsl
mutex = record {
  State = Bool;
  init = false;
  is_taken = λ s. s;
  take = λ s. true;
  unlock = λ s. false;
  is_taken-init = refl;
  is_taken-take = λ s. refl;
  is_taken-unlock = λ s. refl;
}

abbrev new_lock_state : ℕ → Bool → NewLock mutex
new_lock_state n taken = record {
  num_readers = n;
  type = read;
  read_hsl = false;
  write_hsl = taken;
}

-- Two readers enter, a writer tries in vain, and both readers leave.
abbrev gone : NewHolding mutex
gone = holding (new_lock_state 0 false) (0, 0)

two_readers_gone : Calls (new_unheld mutex) gone
unfolding new_lock_alloc_local new_lock_local new_trylock_local new_unlock_local
two_readers_gone =
    next
      (next
        (next
          (next (next start (lock_call read (omega arith) refl))
            (lock_call read (omega arith) refl))
          (trylock_call write (omega arith)))
        (unlock_call read (omega arith) refl))
      (unlock_call read (omega arith) refl)

new_lock-exclusive_example :
    ((gone.writers ≡ 0) ⊎ ((gone.writers ≡ 1) × (gone.readers ≡ 0)))
    × (gone.readers + gone.writers ≡ 0
        → (gone.lock.read_hsl ≡ false) × (gone.lock.write_hsl ≡ false))
new_lock-exclusive_example = new_lock-exclusive two_readers_gone

one_reader-IsHeldBy : IsHeldBy (new_lock_state 1 true) 1 0
one_reader-IsHeldBy = record {
  counted = refl;
  few = omega arith;
  alone = inl refl;
  read_type = λ k. refl;
  write_type = λ k. absurd (omega (arith, k));
  taken = refl;
  outside = refl;
}

grt_new_lock-anywhere_example :
    grt_new_lock 0 3 (new_lock_state 1 true) read ≡ some (granted read (new_lock_state 1 true))
grt_new_lock-anywhere_example =
    grt_new_lock-anywhere (new_lock_state 1 true) 1 0 one_reader-IsHeldBy read 0 3

abbrev one_queued_reader : Holding
one_queued_reader = record {
  lock = record { num_holders = 1; type = read; waiters = grt_list_create };
  readers = 1;
  writers = 0;
}

one_queued_reader-IsServing : IsServing one_queued_reader
unfolding grt_list_create
one_queued_reader-IsServing = ground arith

new_trylock-lock_local_example :
    (new_trylock_local (new_lock_state 1 true) write).1
    ≡ (lock_local 2 one_queued_reader.lock write 5).1
new_trylock-lock_local_example =
    new_trylock-lock_local (new_lock_state 1 true) one_queued_reader one_reader-IsHeldBy
      one_queued_reader-IsServing 2 5 write
