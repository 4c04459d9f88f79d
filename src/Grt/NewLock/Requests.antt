-- ===== src/Grt/NewLock/Requests.antt =====
-- Where a request for a `grt_new_lock_t` comes from does not matter, and the two kinds of locks
-- answer alike.
use cluster_stm.Common.{
  ℕ, ◌≡◌, ◌∙◌, sym, ap, refl, inl, inr, none, some, ◌==◌, if◌then◌else◌, arith, Bool-cases,
}
use cluster_stm.Stm.Types.{LockType, read, write, Status, succeed, fail}
use cluster_stm.Grt.Lock.{lock_local}
use cluster_stm.Grt.Lock.Handoff.{Holding, IsServing}
use cluster_stm.Grt.NewLock.{Hsl, NewLock, new_trylock_local, new_lock_handler, grt_new_lock}
use cluster_stm.Grt.NewLock.Holders.{
  IsHeldBy, admits, granted, new_lock_local-eq, new_trylock_local-eq, new_trylock_local_refused,
}

module _ {g : Hsl} (lock : NewLock g) (r w : ℕ) (h : IsHeldBy lock r w) (t : LockType) where
  handler-eq : new_lock_handler lock t ≡ (if admits t (r, w) then some (granted t lock) else none)
  unfolding new_lock_handler
  handler-eq = elim (Bool-cases (admits t (r, w))) [
    | inl free ↦
        rw (new_lock_handler, new_trylock_local-eq lock r w h t free, free)
          (ap (λ (x : NewLock g × Status). some x.0) (new_trylock_local-eq lock r w h t free))
    | inr busy ↦
        let (lost, kept) = new_trylock_local_refused lock r w h t busy in
        rw (new_lock_handler, lost, new_lock_local-eq (new_trylock_local lock t).0 r w kept t, busy)
          refl
  ]

  -- `grt_new_lock` of a lock that is held by `r` readers and `w` writers, with no thread inside a
  -- call, has the same outcome on the lock's processor and from any other one: it is granted at
  -- once if no holder stands in its way, and waits otherwise.
  pub grt_new_lock-anywhere :
      (grt_id proc : ℕ)
      → grt_new_lock grt_id proc lock t ≡ (if admits t (r, w) then some (granted t lock) else none)
  unfolding grt_new_lock
  grt_new_lock-anywhere grt_id proc = elim (Bool-cases (grt_id == proc)) [
    | inl here ↦ rw here (new_lock_local-eq lock r w h t)
    | inr there ↦ rw there handler-eq
  ]

lock_local-admits :
    (h : Holding) (s : IsServing h) (proc state : ℕ) (t : LockType)
    → (lock_local proc h.lock t state).1
      ≡ (if admits t (h.readers, h.writers) then succeed else fail)
unfolding lock_local
lock_local-admits h s proc state read = ground (arith, s.counted, s.alone, s.typed)
lock_local-admits h s proc state write = ground (arith, s.counted, s.alone, s.typed)

-- The two kinds of locks answer alike: with the same numbers of readers and writers,
-- `new_trylock_local` grants a request exactly when `lock_local` grants it at once.
pub new_trylock-lock_local :
    {g : Hsl} (lock : NewLock g) (h : Holding)
    → IsHeldBy lock h.readers h.writers
    → IsServing h
    → (proc state : ℕ) (t : LockType)
    → (new_trylock_local lock t).1 ≡ (lock_local proc h.lock t state).1
new_trylock-lock_local lock h held s proc state t =
    elim (Bool-cases (admits t (h.readers, h.writers))) [
      | inl free ↦
          ap (λ (x : NewLock _ × Status). x.1)
            (new_trylock_local-eq lock h.readers h.writers held t free)
          ∙ sym (lock_local-admits h s proc state t ∙ rw free refl)
      | inr busy ↦
          (new_trylock_local_refused lock h.readers h.writers held t busy).0
          ∙ sym (lock_local-admits h s proc state t ∙ rw busy refl)
    ]
