-- ===== src/Grt/NewLock/Calls.antt =====
-- Requests, tries and releases of a `grt_new_lock_t` in any sequence.
use mathlib.Core.Path.{subst}
use cluster_stm.Common.{
  ℕ, ◌+◌, ◌^◌, ◌<◌, ◌≡◌, ◌∙◌, sym, ◌⊎◌, inl, inr, false, some, arith, Bool-cases,
}
use cluster_stm.Stm.Types.{LockType}
use cluster_stm.Grt.NewLock.{
  Hsl, NewLock, new_lock_alloc_local, new_trylock_local, new_lock_local, new_unlock_local,
}
use cluster_stm.Grt.NewLock.Holders.{
  IsHeldBy, more, fewer, Holds, admits, after, new_lock_local-eq, new_unlock_local-eq,
  granted-IsHeldBy, let_go-IsHeldBy, new_trylock_local-IsHeldBy,
}

-- A lock with its holders.
pub record NewHolding (g : Hsl) : Type 0 where
  pub lock : NewLock g
  pub readers : ℕ
  pub writers : ℕ

abbrev pub holding : {g : Hsl} → NewLock g → ℕ × ℕ → NewHolding g
holding lock (r, w) = record { lock = lock; readers = r; writers = w }

abbrev pub holders : {g : Hsl} → NewHolding g → ℕ × ℕ
holders h = (h.readers, h.writers)

-- A request that is granted, a try, or a release by a holder.
pub data Call {g : Hsl} (h : NewHolding g) : NewHolding g → Type 0 where
  lock_call :
      {lock : NewLock g} (t : LockType)
      → h.readers + 1 < 2 ^ 64
      → new_lock_local h.lock t ≡ some lock
      → Call h (holding lock (more t (holders h)))
  trylock_call :
      (t : LockType)
      → h.readers + 1 < 2 ^ 64
      → Call h (
          holding
            (new_trylock_local h.lock t).0
            (after t (new_trylock_local h.lock t).1 (holders h)))
  unlock_call :
      {lock : NewLock g} (t : LockType)
      → Holds t (holders h)
      → new_unlock_local h.lock ≡ some lock
      → Call h (holding lock (fewer t (holders h)))

pub data Calls {g : Hsl} (h : NewHolding g) : NewHolding g → Type 0 where
  start : Calls h h
  next : {h' h'' : NewHolding g} → Calls h h' → Call h' h'' → Calls h h''

abbrev IsHeldRight : {g : Hsl} → NewHolding g → Type 0
IsHeldRight h = IsHeldBy h.lock h.readers h.writers

some-injective : {g : Hsl} {a b : NewLock g} → some a ≡ some b → a ≡ b
some-injective e = cc

Call-IsHeldRight : {g : Hsl} {h h' : NewHolding g} → IsHeldRight h → Call h h' → IsHeldRight h'
Call-IsHeldRight {h = h} s (lock_call {lock} t fits e) =
    let eq = new_lock_local-eq h.lock h.readers h.writers s t in
    elim (Bool-cases (admits t (holders h))) [
      | inl free ↦
          subst (λ k. IsHeldBy k (more t (holders h)).0 (more t (holders h)).1)
            (some-injective (sym (rw free at eq) ∙ e))
            (granted-IsHeldBy h.lock h.readers h.writers s t fits free)
      | inr busy ↦ absurd (cc (rw busy at eq, e))
    ]
Call-IsHeldRight {h = h} s (trylock_call t fits) =
    new_trylock_local-IsHeldBy h.lock h.readers h.writers s t fits
Call-IsHeldRight {h = h} s (unlock_call t have e) =
    subst (λ k. IsHeldBy k (fewer t (holders h)).0 (fewer t (holders h)).1)
      (some-injective (sym (new_unlock_local-eq h.lock h.readers h.writers s t have) ∙ e))
      (let_go-IsHeldBy h.lock h.readers h.writers s t have)

pub Calls-IsHeldRight :
    {g : Hsl} {h h' : NewHolding g} → IsHeldRight h → Calls h h' → IsHeldRight h'
Calls-IsHeldRight s start = s
Calls-IsHeldRight s (next before c) = Call-IsHeldRight (Calls-IsHeldRight s before) c

abbrev pub new_unheld : (g : Hsl) → NewHolding g
new_unheld g = holding new_lock_alloc_local (0, 0)

new_unheld-IsHeldRight : (g : Hsl) → IsHeldRight (new_unheld g)
unfolding new_lock_alloc_local
new_unheld-IsHeldRight g = ground (arith, g.is_taken-init)

-- After any sequence of granted requests, tries and releases by holders from a lock that was just
-- allocated, a writer holds it alone, and when every holder has released it, both of its
-- handler-safe locks are free. (Fewer than `2 ^ 64` readers hold it at a time.)
pub new_lock-exclusive :
    {g : Hsl} {h : NewHolding g}
    → Calls (new_unheld g) h
    → ((h.writers ≡ 0) ⊎ ((h.writers ≡ 1) × (h.readers ≡ 0)))
      × (h.readers + h.writers ≡ 0
          → (g.is_taken h.lock.read_hsl ≡ false) × (g.is_taken h.lock.write_hsl ≡ false))
new_lock-exclusive {g} calls =
    let s = Calls-IsHeldRight (new_unheld-IsHeldRight g) calls in
    (s.alone, λ none_holds. (s.outside, s.taken ∙ ground (arith, none_holds)))
