-- ===== src/Grt/Lock.antt =====
-- The queued lock of Implementation/grt/grt.c: `lock_local`, `unlock_local`, and what `grt_lock` and
-- `grt_unlock` do with the states of the requesters. `lock_lock` is held throughout each local call.
pub mod Handoff
pub mod Grants
pub mod Waiting
use cluster_stm.Common.{
  ℕ, ◌+◌, ◌-◌, ◌%◌, ◌^◌, Bool, true, false, not, ◌&&◌, ◌||◌, Option, none, some, List, [], ◌∷◌,
  ◌==◌, ltb, if◌then◌else◌,
}
use cluster_stm.Common.Family.{update}
use cluster_stm.Stm.Types.{LockType, read, write, is_write, Status, succeed, fail}
use cluster_stm.Grt.List.{
  GrtList, grt_list_create, grt_list_append, grt_list_remove, grt_list_start, grt_list_get_next,
}

-- `grt_lock_state_t`
pub data LockState : Type 0 where
  free held waiting : LockState

-- `grt_lock_waiter_t`: `state` is an address on `proc`.
pub record Waiter : Type 0 where
  pub proc : ℕ
  pub state : ℕ
  pub type : LockType

-- `grt_lock_t`
pub record Lock : Type 0 where
  pub num_holders : ℕ
  pub type : LockType
  pub waiters : GrtList Waiter

-- A lock as `lock_alloc_local` leaves it, in memory that was cleared.
unfoldable pub lock_alloc_local : Lock
unfolding grt_list_create
lock_alloc_local = record { num_holders = 0; type = read; waiters = grt_list_create }

unfoldable pub lock_local : (proc : ℕ) → Lock → LockType → (state : ℕ) → Lock × Status
unfolding grt_list_append
lock_local proc lock type state =
    let waiter : Waiter = record { proc = proc; state = state; type = type } in
    if lock.num_holders == 0
    then (record lock { type = type; num_holders = 1 }, succeed)
    else (if not (is_write lock.type) && not (is_write type)
        then (record lock { num_holders = (lock.num_holders + 1) % 2 ^ 32 }, succeed)
        else (record lock { waiters = grt_list_append lock.waiters waiter }, fail))

-- The lock, its waiter removed, for the waiter that receives it.
abbrev hand_over : Lock → Waiter → Lock
hand_over lock waiter = elim (grt_list_remove lock.waiters) [
  | none ↦ record lock { type = waiter.type }
  | some r ↦ record lock { waiters = r.0; type = waiter.type }
]

-- `--lock->num_holders`
abbrev pub release : Lock → Lock
release lock = record lock { num_holders = (lock.num_holders + (2 ^ 32 - 1)) % 2 ^ 32 }

-- The lock, `*receiving_proc` and `*receiving_state` afterwards; the callers set both to 0 before.
unfoldable pub unlock_local : Lock → Lock × (ℕ × ℕ)
unfolding grt_list_start grt_list_get_next grt_list_remove
unlock_local lock =
    let (moved, front) = grt_list_get_next (grt_list_start lock.waiters) in
    let lock' = record lock { waiters = moved } in
    if ltb 0 lock.waiters.size
    then (elim front [
      | none ↦ (release lock', (0, 0))
      | some waiter ↦
          let handed = hand_over lock' waiter in
          if lock.num_holders == 1 || not (is_write waiter.type)
          then (if waiter.state == 0 then release handed else handed, (waiter.proc, waiter.state))
          else (release lock', (0, 0))
    ])
    else (release lock, (0, 0))

-- A lock and the states that its requesters wait on, which have four bytes, by their addresses on
-- each processor.
pub record LockSystem : Type 0 where
  pub lock : Lock
  pub states : (proc state : ℕ) → LockState

-- `*state = s` on processor `proc`.
abbrev pub set_state : LockSystem → (proc state : ℕ) → LockState → LockSystem
set_state s proc state v = record s {
  states = update s.states proc (update (s.states proc) state v);
}

abbrev pub has_succeeded : Status → Bool
has_succeeded succeed = true
has_succeeded fail = false

-- `lock_handler` for `proc`, and the `lock_reply_handler` that its reply runs there.
unfoldable pub lock_handler : LockSystem → (proc : ℕ) → LockType → (state : ℕ) → LockSystem
unfolding lock_local
lock_handler s proc type state =
    let (lock', status) = lock_local proc s.lock type state in
    let s' = record s { lock = lock' } in
    if has_succeeded status then set_state s' proc state held else s'

-- `grt_lock` on processor `grt_id`, for a lock on `proc`, up to the wait at its end.
unfoldable pub grt_lock :
    (grt_id : ℕ) → LockSystem → (proc : ℕ) → LockType → (state : ℕ) → LockSystem
unfolding lock_local lock_handler
grt_lock grt_id s proc type state =
    let asked = set_state s grt_id state waiting in
    let (lock', status) = lock_local proc s.lock type state in
    let local = record asked { lock = lock' } in
    if proc == grt_id
    then (if has_succeeded status then set_state local grt_id state held else local)
    else lock_handler asked grt_id type state

-- `grt_write` of HELD to a state: a state is half as long as the word that is written, and the
-- upper half, which is zero, goes to the state behind it.
unfoldable pub write_held : LockSystem → (proc state : ℕ) → LockSystem
write_held s proc state = set_state (set_state s proc state held) proc (state + 4) free

-- `grt_unlock`: locally or by `unlock_handler` and `unlock_reply_handler`, the lock is released and
-- the receiver's state is set with `grt_write`.
unfoldable pub grt_unlock : LockSystem → LockSystem
unfolding unlock_local write_held
grt_unlock s =
    let (lock', (receiving_proc, receiving_state)) = unlock_local s.lock in
    let s' = record s { lock = lock' } in
    if receiving_state == 0 then s' else write_held s' receiving_proc receiving_state
