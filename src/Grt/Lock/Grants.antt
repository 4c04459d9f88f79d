-- ===== src/Grt/Lock/Grants.antt =====
-- What the requesters of a queued lock see.
use cluster_stm.Common.{
  ◌+◌, ℕ, ◌<◌, ◌≡◌, ◌≢◌, true, not, ◌||◌, List, ◌∷◌, ◌==◌, if◌then◌else◌, arith, inl, inr,
  Bool-cases, ==_ne,
}
use cluster_stm.Stm.Types.{LockType, is_write}
use cluster_stm.Grt.Lock.{
  Lock, Waiter, free, held, waiting, write_held, LockSystem, lock_local, lock_handler, grt_lock,
  grt_unlock, has_succeeded,
}
use cluster_stm.Grt.Lock.Handoff.{unlock-first}

-- The processor and address of a request do not decide whether it is granted.
lock_local-status :
    (p q : ℕ) (lock : Lock) (t : LockType) (a b : ℕ)
    → (lock_local p lock t a).1 ≡ (lock_local q lock t b).1
unfolding lock_local
lock_local-status p q lock t a b = ground arith

-- Before it waits, `grt_lock` leaves its own state HELD if the lock was granted, and WAITING if the
-- request was queued, whether the lock is on this processor or on another one.
pub grt_lock-state :
    (grt_id proc : ℕ) (s : LockSystem) (t : LockType) (state : ℕ)
    → (grt_lock grt_id s proc t state).states grt_id state
      ≡ (if has_succeeded (lock_local grt_id s.lock t state).1 then held else waiting)
unfolding grt_lock lock_handler
grt_lock-state grt_id proc s t state =
    elim (Bool-cases (has_succeeded (lock_local grt_id s.lock t state).1)) [
      | inl e ↦ ground (arith, lock_local-status proc grt_id s.lock t state state)
      | inr e ↦ ground (arith, lock_local-status proc grt_id s.lock t state state)
    ]

-- When the first waiter can take over a released lock, `grt_unlock` sets its state, on its
-- processor, to HELD, and overwrites the state in the four bytes behind it with FREE. No other state
-- changes.
pub grt_unlock-wakes :
    (s : LockSystem) (v : Waiter) (vs : List Waiter) (q b : ℕ)
    → s.lock.waiters.nodes ≡ v ∷ vs
    → 0 < s.lock.waiters.size
    → v.state ≢ 0
    → (s.lock.num_holders == 1 || not (is_write v.type)) ≡ true
    → (grt_unlock s).states q b ≡ (
        if v.proc == q
        then (if b == v.state then held else (if b == v.state + 4 then free else s.states q b))
        else s.states q b)
unfolding grt_unlock write_held
grt_unlock-wakes s v vs q b nodes busy ne takes =
    rw (grt_unlock, unlock-first s.lock v vs nodes busy ne, takes, ==_ne v.state 0 ne)
      (ground arith)
