-- ===== src/HashmapSwap/Buckets.antt =====
-- `compute_hash`: which processor and which bucket a key belongs to.
use native.Mathlib.Nat.{mod-lt, div-lt_iff_lt-mul, div-add-mod'}
use cluster_stm.Common.{ℕ, ◌+◌, ◌*◌, ◌%◌, ◌<◌, ◌≤◌, ◌≡◌, arith}
use cluster_stm.HashmapSwap.{compute_hash}

-- With a table of at least one bucket over at least one processor, and `local_size` buckets on each
-- processor that together are enough for the table: the hash of every key names one of the
-- processors and one of its buckets, and two keys have the same processor and bucket only if they
-- have the same index in the table.
pub compute_hash-bounds :
    (table_size num_procs local_size key : ℕ)
    → 0 < table_size
    → 0 < num_procs
    → table_size ≤ local_size * num_procs
    → ((compute_hash table_size num_procs key).proc < num_procs)
      × ((compute_hash table_size num_procs key).offset < local_size)
      × ((compute_hash table_size num_procs key).offset * num_procs
            + (compute_hash table_size num_procs key).proc
          ≡ key % table_size)
unfolding compute_hash
compute_hash-bounds table_size num_procs local_size key some_bucket some_proc enough = (
  mod-lt (key % table_size) some_proc,
  (div-lt_iff_lt-mul some_proc).1 (omega (arith, mod-lt key some_bucket, enough)),
  div-add-mod' (key % table_size) num_procs,
)
