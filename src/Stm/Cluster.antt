-- ===== src/Stm/Cluster.antt =====
-- Transactions over several processors: the requests that stm-distrib.c sends, the handlers that
-- answer them, and the calls that wait for the answers.
pub mod Remote
pub mod Calls
pub mod Finishing
pub mod On
pub mod Local
pub mod Protocol
pub mod Tracking
pub mod Exclusion
pub mod Interleaved
use cluster_stm.Common.{
  ℕ, ◌+◌, ◌-◌, ◌*◌, ◌/◌, ◌%◌, ◌^◌, ◌<◌, ◌≡◌, arith, List, map, ◌==◌, if◌then◌else◌,
}
use cluster_stm.Common.Family.{update}
use cluster_stm.Stm.Node.{Libs, Node, TxDor, set_tx_dor}

-- All processors.
pub record Cluster (l : Libs) : Type 0 where
  pub nodes : ℕ → Node l

-- How a call ends: it returns, or it jumps to where the transaction started.
pub data Ending : Type 0 where
  returned jumped : Ending

-- The hash map takes neither 0 nor 1 as a key.
unfoldable pub entable : ℕ → ℕ
entable x = (x + 1) % 2 ^ 64 * 2 % 2 ^ 64

unfoldable pub detable : ℕ → ℕ
detable x = (x / 2 + (2 ^ 64 - 1)) % 2 ^ 64

-- A processor comes back from the table, and its key is neither 0 nor 1.
pub detable-entable : (p : ℕ) → p + 1 < 2 ^ 63 → (detable (entable p) ≡ p) × (1 < entable p)
unfolding entable detable
detable-entable p h = (omega arith, omega arith)

module _ {l : Libs} where
  abbrev pub set_node : Cluster l → ℕ → Node l → Cluster l
  set_node cl p n = record cl { nodes = update cl.nodes p n }

  -- `hashmap_put(&tx_dor->remote_procs, ENTABLE(proc), 0)`
  unfoldable pub touch : Node l → (src_proc proc : ℕ) → Node l
  unfolding entable
  touch n src_proc proc =
      let d = n.tx_dors src_proc in
      set_tx_dor n src_proc
        (record d { remote_procs = l.procs.put d.remote_procs (entable proc) tt })

  -- The processors that an iteration over `remote_procs` visits. (Their numbers are below 2^31 - 1,
  -- where the cast of a key to `gasnet_node_t` keeps it and none becomes the 0 that ends the loop.)
  unfoldable pub remotes : Node l → (src_proc : ℕ) → List ℕ
  unfolding detable
  remotes n src_proc =
      map (λ (e : ℕ × Unit {0}). detable e.0) (l.procs.entries (n.tx_dors src_proc).remote_procs)

  -- `stm_start`, when it is not returned to by a jump.
  unfoldable pub stm_start : Node l → (src_proc : ℕ) → Node l
  stm_start n src_proc =
      let d = n.tx_dors src_proc in
      let depth = (d.tx_depth + 1) % 2 ^ 16 in
      let d' = record d { tx_depth = depth } in
      set_tx_dor n src_proc (if depth == 1 then record d' { tx_proc = n.grt_id } else d')

  -- The same, when a jump returns to it.
  unfoldable pub stm_restart : Node l → (src_proc : ℕ) → Node l
  stm_restart n src_proc = set_tx_dor n src_proc (record (n.tx_dors src_proc) { tx_depth = 1 })
