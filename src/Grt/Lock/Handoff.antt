-- ===== src/Grt/Lock/Handoff.antt =====
-- Who holds a queued lock, in any sequence of requests and releases.
use cluster_stm.Common.{
  ℕ, ◌+◌, ◌-◌, ◌%◌, ◌^◌, ◌<◌, ◌≡◌, ◌≢◌, ◌∙◌, refl, ◌⊎◌, inl, inr, true, false, not, ◌||◌, Option,
  none, some, List, [], ◌∷◌, ◌++◌, ◌==◌, if◌then◌else◌, arith, length, length-append, Bool-cases,
  ==_ne,
}
use cluster_stm.Stm.Types.{LockType, read, write, is_write, Status, succeed, fail}
use cluster_stm.Grt.List.{
  grt_list_create, grt_list_append, grt_list_remove, grt_list_start, grt_list_get_next,
}
use cluster_stm.Grt.Lock.{
  Lock, Waiter, lock_local, unlock_local, lock_alloc_local, release, release,
}

-- A lock with the number of its readers and of its writers.
pub record Holding : Type 0 where
  pub lock : Lock
  pub readers : ℕ
  pub writers : ℕ

-- Holders of one more request, and of one fewer.
abbrev pub joined : LockType → Holding → Lock → Holding
joined read h lock = record { lock = lock; readers = h.readers + 1; writers = h.writers }
joined write h lock = record { lock = lock; readers = h.readers; writers = h.writers + 1 }

abbrev pub granted : LockType → Status → Holding → Lock → Holding
granted t succeed h lock = joined t h lock
granted t fail h lock = record h { lock = lock }

-- The holders after one of type `t` released the lock and `front` received it.
abbrev pub left : LockType → Holding → Holding
left read h = record h { readers = h.readers - 1 }
left write h = record h { writers = h.writers - 1 }

abbrev pub number_of : LockType → Holding → ℕ
number_of read h = h.readers
number_of write h = h.writers

abbrev pub received : Option Waiter → ℕ → Holding → Lock → Holding
received none state h lock = record h { lock = lock }
received (some w) state h lock =
    if state == 0 then record h { lock = lock } else joined w.type h lock

abbrev pub front : List Waiter → Option Waiter
front [] = none
front (w ∷ ws) = some w

-- The states that waiters wait on are not null.
abbrev pub Addressed : List Waiter → Type 0
Addressed [] = Unit
Addressed (w ∷ ws) = (w.state ≢ 0) × Addressed ws

Addressed-append :
    (ws : List Waiter) (w : Waiter) → Addressed ws → w.state ≢ 0 → Addressed (ws ++ (w ∷ []))
Addressed-append [] w a ne = (ne, tt)
Addressed-append (v ∷ ws) w a ne = (a.0, Addressed-append ws w a.1 ne)

pub record IsServing (h : Holding) : Type 0 where
  pub counted : h.lock.num_holders ≡ h.readers + h.writers
  pub few : h.readers + h.writers < 2 ^ 32
  pub alone : (h.writers ≡ 0) ⊎ ((h.writers ≡ 1) × (h.readers ≡ 0))
  pub typed : (h.lock.type ≡ write → h.readers ≡ 0) × (h.lock.type ≡ read → h.writers ≡ 0)
  pub awaited : (h.lock.num_holders ≡ 0) → h.lock.waiters.nodes ≡ []
  pub sized : h.lock.waiters.size ≡ length h.lock.waiters.nodes
  pub short : length h.lock.waiters.nodes < 2 ^ 32
  pub addressed : Addressed h.lock.waiters.nodes

-- One request, counted.
abbrev pub requested : Holding → (proc state : ℕ) → LockType → Holding
requested h proc state t =
    granted t (lock_local proc h.lock t state).1 h (lock_local proc h.lock t state).0

-- One release by a holder of type `t`: the first waiter holds the lock if it was handed over.
abbrev pub released : Holding → LockType → Holding
released h t =
    received (front h.lock.waiters.nodes) (unlock_local h.lock).1.1 (left t h)
      (unlock_local h.lock).0

pub request-IsServing :
    (h : Holding) (proc state : ℕ) (t : LockType)
    → state ≢ 0
    → h.readers + h.writers + 1 < 2 ^ 32
    → length h.lock.waiters.nodes + 1 < 2 ^ 32
    → IsServing h
    → IsServing (requested h proc state t)
unfolding lock_local grt_list_append
request-IsServing h proc state t ne few short s =
    let w : Waiter = record { proc = proc; state = state; type = t } in
    let at_end = Addressed-append h.lock.waiters.nodes w s.addressed ne in
    let longer = length-append h.lock.waiters.nodes (w ∷ []) in by_type t at_end longer
  where
    by_type :
        (t : LockType)
        → Addressed (h.lock.waiters.nodes ++ (record { proc = proc; state = state; type = t } ∷ []))
        → length (h.lock.waiters.nodes ++ (record { proc = proc; state = state; type = t } ∷ []))
          ≡ length h.lock.waiters.nodes + 1
        → IsServing (requested h proc state t)
    by_type read a l = ground arith
    by_type write a l = ground arith

abbrev pub holding : (n size r w : ℕ) → LockType → (nodes next : List Waiter) → Holding
holding n size r w type nodes next = record {
  lock = record {
    num_holders = n;
    type = type;
    waiters = record { nodes = nodes; next = next; size = size };
  };
  readers = r;
  writers = w;
}

-- When a holder releases a lock that others wait for, the first waiter receives it, unless it wants
-- to write and other holders are left; the others stay, in their order. (The waiter's state is not
-- null, and the size says that a waiter is there.)
pub unlock-first :
    (lock : Lock) (v : Waiter) (vs : List Waiter)
    → lock.waiters.nodes ≡ v ∷ vs
    → 0 < lock.waiters.size
    → v.state ≢ 0
    → unlock_local lock ≡ (
        if lock.num_holders == 1 || not (is_write v.type)
        then (
          record lock {
            type = v.type;
            waiters = record {
              nodes = vs;
              next = vs;
              size = (lock.waiters.size + (2 ^ 32 - 1)) % 2 ^ 32;
            };
          },
          (v.proc, v.state),
        )
        else (release (record lock { waiters = record lock.waiters { next = vs } }), (0, 0)))
unfolding unlock_local grt_list_start grt_list_get_next grt_list_remove
unlock-first lock v vs nodes busy ne = rw (unlock_local, nodes) (ground arith)

module _ (n size r w : ℕ) (type : LockType) (v : Waiter) (vs next : List Waiter)
    (s : IsServing (holding n size r w type (v ∷ vs) next)) where
  handed-IsServing :
      (t to : LockType)
      → 0 < number_of t (holding n size r w type (v ∷ vs) next)
      → (n == 1 || not (is_write to)) ≡ true
      → IsServing (
          joined to
            (left t (holding n size r w type (v ∷ vs) next))
            (holding n ((size + (2 ^ 32 - 1)) % 2 ^ 32) r w to vs vs).lock)
  handed-IsServing read read holds last = ground arith
  handed-IsServing read write holds last = ground arith
  handed-IsServing write read holds last = ground arith
  handed-IsServing write write holds last = ground arith

  kept-IsServing :
      (t to : LockType)
      → 0 < number_of t (holding n size r w type (v ∷ vs) next)
      → (n == 1 || not (is_write to)) ≡ false
      → IsServing (record (left t (holding n size r w type (v ∷ vs) next)) {
        lock = (holding ((n + (2 ^ 32 - 1)) % 2 ^ 32) size r w type (v ∷ vs) vs).lock;
      })
  kept-IsServing read read holds last = ground arith
  kept-IsServing read write holds last = ground arith
  kept-IsServing write read holds last = ground arith
  kept-IsServing write write holds last = ground arith

pub unlock-none : (lock : Lock) → lock.waiters.size ≡ 0 → unlock_local lock ≡ (release lock, (0, 0))
unfolding unlock_local
unlock-none lock e = rw (unlock_local, e)

release-cases :
    (n size r w : ℕ) (type : LockType) (nodes next : List Waiter) (t : LockType)
    → 0 < number_of t (holding n size r w type nodes next)
    → IsServing (holding n size r w type nodes next)
    → IsServing (released (holding n size r w type nodes next) t)
release-cases n size r w type [] next read holds s =
    rw (unlock-none (holding n size r w type [] next).lock s.sized) (ground arith)
release-cases n size r w type [] next write holds s =
    rw (unlock-none (holding n size r w type [] next).lock s.sized) (ground arith)
release-cases n size r w type (v ∷ vs) next t holds s =
    let lock = (holding n size r w type (v ∷ vs) next).lock in
    let run = unlock-first lock v vs refl (omega (arith, s.sized)) s.addressed.0 in
    elim (Bool-cases (n == 1 || not (is_write v.type))) [
      | inl last ↦
          rw (run, last, ==_ne v.state 0 s.addressed.0)
            (handed-IsServing n size r w type v vs next s t v.type holds last)
      | inr more ↦ rw (run, more) (kept-IsServing n size r w type v vs next s t v.type holds more)
    ]

-- A request, or a release by a holder, while fewer than `2 ^ 32` hold and wait.
pub data Turn (h : Holding) : Holding → Type 0 where
  request :
      (proc state : ℕ) (t : LockType)
      → state ≢ 0
      → h.readers + h.writers + 1 < 2 ^ 32
      → length h.lock.waiters.nodes + 1 < 2 ^ 32
      → Turn h (requested h proc state t)
  release_one : (t : LockType) → 0 < number_of t h → Turn h (released h t)

pub data Turns (h : Holding) : Holding → Type 0 where
  start : Turns h h
  next : {h' h'' : Holding} → Turns h h' → Turn h' h'' → Turns h h''

pub Turn-IsServing : {h h' : Holding} → IsServing h → Turn h h' → IsServing h'
Turn-IsServing {h = h} s (request proc state t ne few short) =
    request-IsServing h proc state t ne few short s
Turn-IsServing {h = h} s (release_one t holds) =
    release-cases h.lock.num_holders h.lock.waiters.size h.readers h.writers h.lock.type
      h.lock.waiters.nodes h.lock.waiters.next t holds s

pub Turns-IsServing : {h h' : Holding} → IsServing h → Turns h h' → IsServing h'
Turns-IsServing s start = s
Turns-IsServing s (next more turn) = Turn-IsServing (Turns-IsServing s more) turn

-- A lock that was just allocated, which nobody holds.
abbrev pub unheld : Holding
unheld = record { lock = lock_alloc_local; readers = 0; writers = 0 }

pub unheld-IsServing : IsServing unheld
unfolding lock_alloc_local grt_list_create
unheld-IsServing = ground arith

-- After any sequence of requests and releases from a lock that was just allocated, a writer holds
-- it alone, `num_holders` is the number of holders, and nobody waits for a lock that is free.
pub held-exclusively :
    {h : Holding}
    → Turns unheld h
    → ((h.writers ≡ 0) ⊎ ((h.writers ≡ 1) × (h.readers ≡ 0)))
      × (h.lock.num_holders ≡ h.readers + h.writers)
      × (h.readers + h.writers ≡ 0 → h.lock.waiters.nodes ≡ [])
held-exclusively turns =
    let s = Turns-IsServing unheld-IsServing turns in
    (s.alone, s.counted, λ none_holds. s.awaited (s.counted ∙ none_holds))
