-- ===== src/Base/Transaction.antt =====
-- A transaction of stm_base.c: its cache, its logs, and `__stm_commit`. A request to another
-- processor is answered before the call that waits for it goes on.
pub mod Reads
pub mod Commit
use cluster_stm.Common.{
  ℕ, ◌+◌, ◌-◌, ◌%◌, ◌^◌, Bool, true, false, not, ◌&&◌, ◌||◌, Option, none, some, List, [], ◌∷◌,
  ◌++◌, ◌==◌, if◌then◌else◌,
}
use cluster_stm.Common.Family.{update}
use cluster_stm.Stm.Types.{Status, succeed, fail}
use cluster_stm.Base.Memory.{
  Store, is_owned, make_unowned, version_addr, version_of, open_for_read_handler, acquire_local,
  stm_release, commit_write_local,
}

-- `cache_entry_t` without its `state`: what is asked for is there.
pub record CacheEntry : Type 0 where
  pub proc : ℕ
  pub addr : ℕ
  pub value : ℕ
  pub version : ℕ
  pub read : Bool
  pub written : Bool
  pub status : Status

-- The globals of a transaction. The maps of maps are functions of processor and address; the lists
-- hold the keys of cache entries, through which the code reaches the entries themselves.
pub record Transaction : Type 0 where
  pub cache : (proc addr : ℕ) → Option CacheEntry
  pub opened_version_set : (proc v_addr : ℕ) → Bool
  pub read_list : List (ℕ × ℕ)
  pub write_list : List (ℕ × ℕ)
  pub acquired_set : (proc v_addr : ℕ) → Bool
  pub acquired_list : List (ℕ × ℕ)
  pub nesting_count : ℕ

-- The transaction, and the stores of all processors.
pub record World : Type 0 where
  pub stores : ℕ → Store
  pub tx : Transaction

-- `__stm_start`, which leaves `nesting_count`.
unfoldable pub stm_start_empty : Transaction → Transaction
stm_start_empty t = record t {
  cache = λ p a. none;
  opened_version_set = λ p a. false;
  read_list = [];
  write_list = [];
  acquired_set = λ p a. false;
  acquired_list = [];
}

-- The macro `stm_start`, without the jump.
unfoldable pub stm_start : Transaction → Transaction
unfolding stm_start_empty
stm_start t =
    if t.nesting_count == 0
    then stm_start_empty (record t { nesting_count = 1 })
    else record t { nesting_count = (t.nesting_count + 1) % 2 ^ 32 }

abbrev pub set_cache : Transaction → (proc addr : ℕ) → CacheEntry → Transaction
set_cache t proc addr e = record t {
  cache = update t.cache proc (update (t.cache proc) addr (some e));
}

abbrev pub v_addr_at : World → (proc addr : ℕ) → ℕ
v_addr_at w proc addr = version_addr (w.stores proc).version_base (w.stores proc).share_power addr

-- The entry is new, or it was neither read nor written.
abbrev pub cached : Option CacheEntry → Bool
cached none = false
cached (some e) = e.read || e.written

-- The log of reads, with one address for each version.
abbrev pub log_read : World → (proc addr : ℕ) → Transaction
log_read w proc addr =
    if w.tx.opened_version_set proc (v_addr_at w proc addr) then w.tx else record w.tx {
      opened_version_set =
          update w.tx.opened_version_set proc
            (update (w.tx.opened_version_set proc) (v_addr_at w proc addr) true);
      read_list = w.tx.read_list ++ ((proc, addr) ∷ []);
    }

unfoldable pub stm_open_for_read : World → (proc addr : ℕ) → World
unfolding open_for_read_handler
stm_open_for_read w proc addr =
    let (version, value) = open_for_read_handler (w.stores proc) addr in
    let fresh : CacheEntry = record {
      proc = proc;
      addr = addr;
      value = 0;
      version = 0;
      read = true;
      written = false;
      status = succeed;
    } in
    let entry : CacheEntry = elim (w.tx.cache proc addr) [ none ↦ fresh | some e ↦ e ] in
    if cached (w.tx.cache proc addr) then w else record w {
      tx =
          set_cache (log_read w proc addr) proc addr
            (record entry { version = version; value = value });
    }

unfoldable pub stm_write : World → (proc val addr : ℕ) → World
stm_write w proc val addr =
    let fresh : CacheEntry = record {
      proc = proc;
      addr = addr;
      value = 0;
      version = 0;
      read = false;
      written = false;
      status = succeed;
    } in
    let entry : CacheEntry = elim (w.tx.cache proc addr) [ none ↦ fresh | some e ↦ e ] in
    let logged =
      if entry.written
      then w.tx
      else record w.tx { write_list = w.tx.write_list ++ ((proc, addr) ∷ []) } in
    record w { tx = set_cache logged proc addr (record entry { value = val; written = true }) }

-- How a read ends.
pub data ReadResult : Type 0 where
  got : ℕ → ReadResult
  conflict : ReadResult
  not_in_cache : ReadResult

-- What the cache answers to a read.
unfoldable pub read_cached : World → (proc addr : ℕ) → ReadResult
unfolding is_owned
read_cached w proc addr = elim (w.tx.cache proc addr) [
  | none ↦ not_in_cache
  | some e ↦ if e.read && is_owned e.version then conflict else got e.value
]

abbrev pub set_status : Transaction → (proc addr : ℕ) → Status → Transaction
set_status t proc addr s = elim (t.cache proc addr) [
  | none ↦ t
  | some e ↦ set_cache t proc addr (record e { status = s })
]

unfoldable pub stm_acquire : World → (proc addr : ℕ) → World
unfolding acquire_local
stm_acquire w proc addr =
    let v = v_addr_at w proc addr in
    let (store, status) = acquire_local (w.stores proc) addr in
    let logged = record w.tx {
      acquired_list = w.tx.acquired_list ++ ((proc, addr) ∷ []);
      acquired_set = update w.tx.acquired_set proc (update (w.tx.acquired_set proc) v true);
    } in
    if w.tx.acquired_set proc v
    then record w { tx = set_status w.tx proc addr succeed }
    else record { stores = update w.stores proc store; tx = set_status logged proc addr status }

abbrev pub has_failed : Transaction → ℕ × ℕ → Bool
has_failed t (proc, addr) = elim (t.cache proc addr) [
  | none ↦ false
  | some e ↦ elim e.status [ succeed ↦ false | fail ↦ true ]
]

unfoldable pub acquire_all : World → List (ℕ × ℕ) → World
unfolding stm_acquire
acquire_all w [] = w
acquire_all w ((proc, addr) ∷ es) = acquire_all (stm_acquire w proc addr) es

unfoldable pub any_failed : Transaction → List (ℕ × ℕ) → Bool
any_failed t [] = false
any_failed t (e ∷ es) = has_failed t e || any_failed t es

-- The check of one entry of the log of reads against the version in memory now.
unfoldable pub is_consistent : World → ℕ × ℕ → Bool
unfolding is_owned make_unowned
is_consistent w (proc, addr) =
    let new_version = version_of (w.stores proc) addr in
    let owned_by_other =
      not (w.tx.acquired_set proc (v_addr_at w proc addr)) && is_owned new_version in
    elim (w.tx.cache proc addr) [
      | none ↦ false
      | some e ↦ not owned_by_other && make_unowned new_version == e.version
    ]

unfoldable pub all_consistent : World → List (ℕ × ℕ) → Bool
unfolding is_consistent
all_consistent w [] = true
all_consistent w (e ∷ es) = is_consistent w e && all_consistent w es

unfoldable pub commit_writes : World → List (ℕ × ℕ) → World
unfolding commit_write_local
commit_writes w [] = w
commit_writes w ((proc, addr) ∷ es) = elim (w.tx.cache proc addr) [
  | none ↦ commit_writes w es
  | some e ↦
      commit_writes
        (record w {
          stores = update w.stores proc (commit_write_local (w.stores proc) e.value addr);
        })
        es
]

-- The releases of `stm_abort`.
unfoldable pub release_all : World → List (ℕ × ℕ) → World
unfolding stm_release
release_all w [] = w
release_all w ((proc, addr) ∷ es) =
    let w' = record w { stores = update w.stores proc (stm_release (w.stores proc) addr) } in
    let rest = release_all w es in
    let rest' = release_all w' es in if has_failed w.tx (proc, addr) then rest else rest'

-- `stm_cleanup` destroys all of the transaction.
unfoldable pub stm_cleanup : World → World
unfolding stm_start_empty
stm_cleanup w = record w { tx = stm_start_empty (record w.tx { nesting_count = 0 }) }

unfoldable pub stm_abort : World → World
unfolding release_all stm_cleanup
stm_abort w = stm_cleanup (release_all w w.tx.acquired_list)

abbrev pub is_conflict : ReadResult → Bool
is_conflict conflict = true
is_conflict _ = false

-- `__stm_read`, which aborts the transaction at a conflict.
unfoldable pub stm_read : World → (proc addr : ℕ) → World × ReadResult
unfolding read_cached stm_abort
stm_read w proc addr =
    let result = read_cached w proc addr in (if is_conflict result then stm_abort w else w, result)

-- `__stm_commit`
unfoldable pub commit_transaction : World → World × Status
unfolding acquire_all any_failed all_consistent commit_writes stm_abort stm_cleanup
commit_transaction w =
    let acquired = acquire_all w w.tx.write_list in
    if any_failed acquired.tx acquired.tx.acquired_list
    then (stm_abort acquired, fail)
    else (if all_consistent acquired acquired.tx.read_list
        then (stm_cleanup (commit_writes acquired acquired.tx.write_list), succeed)
        else (stm_abort acquired, fail))
