-- ===== src/Grt/NewLock/Holders.antt =====
-- Who holds a `grt_new_lock_t`, in any sequence of calls.
use cluster_stm.Common.{
  ℕ, ◌+◌, ◌-◌, ◌%◌, ◌^◌, ◌<◌, ◌≡◌, refl, ◌⊎◌, inl, inr, Bool, true, false, none, some, ◌==◌, ltb,
  if◌then◌else◌, arith, Bool-cases,
}
use cluster_stm.Stm.Types.{LockType, read, write, Status, succeed, fail}
use cluster_stm.Grt.NewLock.{
  Hsl, NewLock, admit_reader, new_trylock_local, new_lock_local, new_unlock_local,
}

-- A lock that `readers` and `writers` hold, while no thread is inside a call.
pub record IsHeldBy {g : Hsl} (lock : NewLock g) (readers writers : ℕ) : Type 0 where
  pub counted : lock.num_readers ≡ readers
  pub few : readers < 2 ^ 64
  pub alone : (writers ≡ 0) ⊎ ((writers ≡ 1) × (readers ≡ 0))
  pub read_type : 0 < readers → lock.type ≡ read
  pub write_type : 0 < writers → lock.type ≡ write
  pub taken : g.is_taken lock.write_hsl ≡ ltb 0 (readers + writers)
  pub outside : g.is_taken lock.read_hsl ≡ false

-- One holder more, or one fewer, of the type.
abbrev pub more : LockType → ℕ × ℕ → ℕ × ℕ
more read (r, w) = (r + 1, w)
more write (r, w) = (r, w + 1)

abbrev pub fewer : LockType → ℕ × ℕ → ℕ × ℕ
fewer read (r, w) = (r - 1, w)
fewer write (r, w) = (r, w - 1)

abbrev pub Holds : LockType → ℕ × ℕ → Type 0
Holds read (r, w) = 0 < r
Holds write (r, w) = 0 < w

-- No holder stands in the way of a request.
abbrev pub admits : LockType → ℕ × ℕ → Bool
admits read (r, w) = w == 0
admits write (r, w) = r + w == 0

-- The lock after a request of the type was granted.
abbrev pub granted : {g : Hsl} → LockType → NewLock g → NewLock g
granted {g} read lock = admit_reader (record lock {
  read_hsl = g.take lock.read_hsl;
  write_hsl = if lock.num_readers == 0 then g.take lock.write_hsl else lock.write_hsl;
})
granted {g} write lock = record lock { write_hsl = g.take lock.write_hsl; type = write }

-- The lock after a holder of the type released it.
abbrev pub let_go : {g : Hsl} → LockType → NewLock g → NewLock g
let_go {g} read lock =
    let n = (lock.num_readers + (2 ^ 64 - 1)) % 2 ^ 64 in
    record lock {
      num_readers = n;
      write_hsl = if n == 0 then g.unlock lock.write_hsl else lock.write_hsl;
      read_hsl = g.unlock (g.take lock.read_hsl);
    }
let_go {g} write lock = record lock { write_hsl = g.unlock lock.write_hsl }

-- The holders after a try.
abbrev pub after : LockType → Status → ℕ × ℕ → ℕ × ℕ
after t succeed h = more t h
after t fail h = h

module _ {g : Hsl} (lock : NewLock g) (r w : ℕ) (h : IsHeldBy lock r w) where
  pub new_lock_local-eq :
      (t : LockType)
      → new_lock_local lock t ≡ (if admits t (r, w) then some (granted t lock) else none)
  unfolding new_lock_local
  new_lock_local-eq read = ground (arith, h.outside, h.taken, h.counted, h.alone)
  new_lock_local-eq write = ground (arith, h.taken)

  pub new_trylock_local-eq :
      (t : LockType) → admits t (r, w) ≡ true → new_trylock_local lock t ≡ (granted t lock, succeed)
  unfolding new_trylock_local
  new_trylock_local-eq read a = ground (arith, h.outside, h.taken, h.counted, h.alone)
  new_trylock_local-eq write a = ground (arith, h.taken)

  pub new_trylock_local_refused :
      (t : LockType)
      → admits t (r, w) ≡ false
      → ((new_trylock_local lock t).1 ≡ fail) × IsHeldBy (new_trylock_local lock t).0 r w
  unfolding new_trylock_local
  new_trylock_local_refused read a =
      let idle : lock.num_readers ≡ 0 = ground (arith, h) in
      let busy : g.is_taken lock.write_hsl ≡ true = ground (arith, h) in
      let run : new_trylock_local lock read
          ≡ (record lock { read_hsl = g.unlock (g.take lock.read_hsl) }, fail) =
        ground (arith, h.outside, idle, busy) in
      rw run (
        refl,
        record {
          counted = h.counted;
          few = h.few;
          alone = h.alone;
          read_type = h.read_type;
          write_type = h.write_type;
          taken = h.taken;
          outside = g.is_taken-unlock _;
        },
      )
  new_trylock_local_refused write a =
      let busy : g.is_taken lock.write_hsl ≡ true = ground (arith, h) in
      let run : new_trylock_local lock write ≡ (lock, fail) = rw (new_trylock_local, busy) refl in
      rw run (refl, h)

  pub granted-IsHeldBy :
      (t : LockType)
      → r + 1 < 2 ^ 64
      → admits t (r, w) ≡ true
      → IsHeldBy (granted t lock) (more t (r, w)).0 (more t (r, w)).1
  granted-IsHeldBy read fits a =
      ground (arith, h, g.is_taken-unlock (g.take lock.read_hsl), g.is_taken-take lock.write_hsl)
  granted-IsHeldBy write fits a =
      ground (arith, h, g.is_taken-unlock (g.take lock.read_hsl), g.is_taken-take lock.write_hsl)

  pub new_unlock_local-eq :
      (t : LockType) → Holds t (r, w) → new_unlock_local lock ≡ some (let_go t lock)
  unfolding new_unlock_local
  new_unlock_local-eq read have = rw (h.read_type have) (ground (arith, h.outside))
  new_unlock_local-eq write have = rw (h.write_type have) refl

  pub let_go-IsHeldBy :
      (t : LockType)
      → Holds t (r, w)
      → IsHeldBy (let_go t lock) (fewer t (r, w)).0 (fewer t (r, w)).1
  let_go-IsHeldBy read have =
      ground (arith, h, g.is_taken-unlock (g.take lock.read_hsl), g.is_taken-unlock lock.write_hsl)
  let_go-IsHeldBy write have = ground (arith, h, g.is_taken-unlock lock.write_hsl)

  pub new_trylock_local-IsHeldBy :
      (t : LockType)
      → r + 1 < 2 ^ 64
      → IsHeldBy
          (new_trylock_local lock t).0
          (after t (new_trylock_local lock t).1 (r, w)).0
          (after t (new_trylock_local lock t).1 (r, w)).1
  new_trylock_local-IsHeldBy t fits = elim (Bool-cases (admits t (r, w))) [
    | inl free ↦ rw (new_trylock_local-eq t free) (granted-IsHeldBy t fits free)
    | inr busy ↦ let (lost, kept) = new_trylock_local_refused t busy in rw lost kept
  ]
