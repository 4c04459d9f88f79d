-- ===== src/Grt/NewLock.antt =====
-- The second kind of locks of Implementation/grt/grt.c: `grt_new_lock_t`, two handler-safe locks of
-- GASNet and the number of readers. A call that would wait is `none`.
pub mod Holders
pub mod Calls
pub mod Requests
use cluster_stm.Common.{
  ◌≡◌, ℕ, ◌+◌, ◌-◌, ◌%◌, ◌^◌, Bool, true, false, Option, none, some, ◌==◌, if◌then◌else◌,
}
use cluster_stm.Stm.Types.{LockType, read, write, is_write, Status, succeed, fail}

-- GASNet's `gasnet_hsl_t`, which is not part of the repository.
pub record Hsl : Type 1 where
  pub State : Type 0
  -- `gasnet_hsl_init`
  pub init : State
  pub is_taken : State → Bool
  -- What `gasnet_hsl_lock` leaves when it returns, and `gasnet_hsl_trylock` when it succeeds.
  pub take : State → State
  -- `gasnet_hsl_unlock`
  pub unlock : State → State
  pub is_taken-init : is_taken init ≡ false
  pub is_taken-take : (s : State) → is_taken (take s) ≡ true
  pub is_taken-unlock : (s : State) → is_taken (unlock s) ≡ false

-- `grt_new_lock_t`
pub record NewLock (g : Hsl) : Type 0 where
  pub num_readers : ℕ
  pub type : LockType
  pub read_hsl : g.State
  pub write_hsl : g.State

-- `gasnet_hsl_lock` waits, and `gasnet_hsl_trylock` fails, while another thread has the lock.
abbrev pub hsl_lock : (g : Hsl) → g.State → Option g.State
hsl_lock g s = if g.is_taken s then none else some (g.take s)

module _ {g : Hsl} where
  -- One lock of `new_lock_alloc_local`; the memory was cleared, and `type` is the first constant.
  unfoldable pub new_lock_alloc_local : NewLock g
  new_lock_alloc_local = record {
    num_readers = 0;
    type = read;
    read_hsl = g.init;
    write_hsl = g.init;
  }

  -- `++lock->num_readers`, the type, and `read_hsl` is let go.
  abbrev pub admit_reader : NewLock g → NewLock g
  admit_reader lock = record lock {
    num_readers = (lock.num_readers + 1) % 2 ^ 64;
    type = read;
    read_hsl = g.unlock lock.read_hsl;
  }

  unfoldable pub new_trylock_local : NewLock g → LockType → NewLock g × Status
  new_trylock_local lock read = elim (hsl_lock g lock.read_hsl) [
    | none ↦ (lock, fail)
    | some r ↦
        let inside = record lock { read_hsl = r } in
        if lock.num_readers == 0
        then (elim (hsl_lock g lock.write_hsl) [
          | none ↦ (record inside { read_hsl = g.unlock r }, fail)
          | some w ↦ (admit_reader (record inside { write_hsl = w }), succeed)
        ])
        else (admit_reader inside, succeed)
  ]
  new_trylock_local lock write = elim (hsl_lock g lock.write_hsl) [
    | none ↦ (lock, fail)
    | some w ↦ (record lock { write_hsl = w; type = write }, succeed)
  ]

  unfoldable pub new_lock_local : NewLock g → LockType → Option (NewLock g)
  new_lock_local lock read = elim (hsl_lock g lock.read_hsl) [
    | none ↦ none
    | some r ↦
        let inside = record lock { read_hsl = r } in
        if lock.num_readers == 0
        then (elim (hsl_lock g lock.write_hsl) [
          | none ↦ none
          | some w ↦ some (admit_reader (record inside { write_hsl = w }))
        ])
        else some (admit_reader inside)
  ]
  new_lock_local lock write = elim (hsl_lock g lock.write_hsl) [
    | none ↦ none
    | some w ↦ some (record lock { write_hsl = w; type = write })
  ]

  unfoldable pub new_unlock_local : NewLock g → Option (NewLock g)
  new_unlock_local lock = elim lock.type [
    | read ↦ elim (hsl_lock g lock.read_hsl) [
      | none ↦ none
      | some r ↦
          let n = (lock.num_readers + (2 ^ 64 - 1)) % 2 ^ 64 in
          some (record lock {
            num_readers = n;
            write_hsl = if n == 0 then g.unlock lock.write_hsl else lock.write_hsl;
            read_hsl = g.unlock r;
          })
    ]
    | write ↦ some (record lock { write_hsl = g.unlock lock.write_hsl })
  ]

  -- `new_lock_handler`: the request is tried where the handler runs, and left to a thread, which
  -- may wait, if that fails.
  unfoldable pub new_lock_handler : NewLock g → LockType → Option (NewLock g)
  unfolding new_trylock_local new_lock_local
  new_lock_handler lock type =
      let (lock', status) = new_trylock_local lock type in
      elim status [ succeed ↦ some lock' | fail ↦ new_lock_local lock' type ]

  unfoldable pub grt_new_lock : (grt_id proc : ℕ) → NewLock g → LockType → Option (NewLock g)
  unfolding new_lock_handler new_lock_local
  grt_new_lock grt_id proc lock type =
      if grt_id == proc then new_lock_local lock type else new_lock_handler lock type

  -- `grt_new_unlock`: `new_unlock_handler` on the other processor makes the same call.
  unfoldable pub grt_new_unlock : (grt_id proc : ℕ) → NewLock g → Option (NewLock g)
  unfolding new_unlock_local
  grt_new_unlock grt_id proc lock =
      if proc == grt_id then new_unlock_local lock else new_unlock_local lock
