-- ===== src/HashmapSwap.antt =====
-- The distributed hash map of Benchmarks/hashmap-swap/lib/hashmap-locks.c: chains of nodes in the
-- memory of each processor, with the locks taken by the caller.
pub mod Chains
pub mod Contents
pub mod Insertion
pub mod Growth
pub mod Mapping
pub mod Locks
pub mod Buckets
use cluster_stm.Common.{
  ℕ, zero, suc, ◌+◌, ◌/◌, ◌%◌, ◌≡◌, ◌≢◌, Bool, true, false, Option, none, some, List, [], ◌∷◌, ◌==◌,
  if◌then◌else◌, length, elem,
}
use cluster_stm.Common.Family.{update}
use cluster_stm.Stm.Types.{Run, ok, out_of_fuel, ◌>>=◌}

-- `hash_t`
pub record Hash : Type 0 where
  pub proc : ℕ
  pub offset : ℕ

-- The table of one processor, the fields of its nodes by their address, and the nodes that were
-- allocated. A null pointer is 0.
pub record Shelf : Type 0 where
  pub table : ℕ → ℕ
  pub next : ℕ → ℕ
  pub key : ℕ → ℕ
  pub val : ℕ → ℕ
  pub nodes : List ℕ

-- The globals `table_size` and `grt_num_procs`.
unfoldable pub compute_hash : (table_size num_procs val : ℕ) → Hash
compute_hash table_size num_procs val =
    let global_idx = val % table_size in
    record { proc = global_idx % num_procs; offset = global_idx / num_procs }

unfoldable pub find_node : ℕ → Shelf → (key p : ℕ) → Run ℕ
find_node zero s key p = out_of_fuel
find_node (suc fuel) s key p =
    let rest = find_node fuel s key (s.next p) in
    if p == 0 then ok 0 else (if key == s.key p then ok p else rest)

-- Enough rounds for any chain of allocated nodes.
abbrev pub rounds : Shelf → ℕ
rounds s = suc (length s.nodes)

-- `grt_on`: the function runs on the processor, there or by `grt_on_handler_work`, and its result
-- is copied back.
unfoldable pub grt_on :
    {A : Type 0} → ℕ → (Shelf → Run (Shelf × A)) → (ℕ → Shelf) → Run ((ℕ → Shelf) × A)
grt_on proc local_fn shelves = local_fn (shelves proc) >>= λ r. ok (update shelves proc r.0, r.1)

module _ (table_size num_procs : ℕ) where
  -- `find_local`: `find_result_t` as an option.
  unfoldable pub find_local : Shelf → (key : ℕ) → Run (Option ℕ)
  unfolding find_node compute_hash
  find_local s key =
      let hash = compute_hash table_size num_procs key in
      find_node (rounds s) s key (s.table hash.offset) >>= λ p.
      ok (if p == 0 then none else some (s.val p))

  unfoldable pub hash_map_find : (ℕ → Shelf) → (key : ℕ) → Run ((ℕ → Shelf) × Option ℕ)
  unfolding find_local grt_on compute_hash
  hash_map_find shelves key =
      grt_on (compute_hash table_size num_procs key).proc
        (λ s. find_local s key >>= λ found. ok (s, found)) shelves

-- What `grt_alloc` answers for a node, with the nodes that are in use: the allocator's doing.
pub record IsAllocator (new_node : List ℕ → ℕ) : Type 0 where
  pub not_null : (used : List ℕ) → new_node used ≢ 0
  pub unused : (used : List ℕ) → elem (new_node used) used ≡ false

module _ (table_size num_procs : ℕ) (new_node : List ℕ → ℕ) where
  -- `q->key = key; q->val = val; q->next = p; *head = q;` for a node that was just allocated.
  unfoldable pub prepend : Shelf → (offset p key val : ℕ) → Shelf
  prepend s offset p key val =
      let q = new_node s.nodes in
      record {
        table = update s.table offset q;
        next = update s.next q p;
        key = update s.key q key;
        val = update s.val q val;
        nodes = q ∷ s.nodes;
      }

  -- `insert_local`, with its answer.
  unfoldable pub insert_local : Shelf → (key val : ℕ) → Run (Shelf × Bool)
  unfolding prepend find_node compute_hash
  insert_local s key val =
      let hash = compute_hash table_size num_procs key in
      let p = s.table hash.offset in
      find_node (rounds s) s key p >>= λ q.
      if q == 0
      then ok (prepend s hash.offset p key val, false)
      else ok (record s { val = update s.val q val }, true)

  unfoldable pub hash_map_insert : (ℕ → Shelf) → (key val : ℕ) → Run ((ℕ → Shelf) × Bool)
  unfolding insert_local grt_on compute_hash
  hash_map_insert shelves key val =
      grt_on (compute_hash table_size num_procs key).proc (λ s. insert_local s key val) shelves
