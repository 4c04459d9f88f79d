-- ===== src/Tests/ClusterRuns.antt =====
-- Transactions over two processors.
use cluster_stm.Common.{◌+◌, ◌≤◌, ℕ, ◌≡◌, refl, arith, false, [], ◌∷◌, lookup}
use cluster_stm.Stm.Types.{Config, abort, Run, ok}
use cluster_stm.Stm.Meta.{
  meta_addr, share_size_bytes, test_write_bit, set_write_bit, clear_write_bit, inc_readers,
  dec_readers, meta_addr, share_size_bytes,
}
use cluster_stm.Stm.Node.{DatasetEntry, Libs, Node, init_tx_dor, read_bytes, write_bytes}
use cluster_stm.Stm.Open.{open_local, open_block}
use cluster_stm.Stm.Copy.{get_local, put_local}
use cluster_stm.Stm.Finish.{stm_finish_local, stm_validate_local}
use cluster_stm.Stm.Cluster.{Cluster, Ending, set_node, remotes, stm_start, entable, detable, touch}
use cluster_stm.Stm.Cluster.Remote.{stm_validate, decide, stm_finish_home, stm_finish, stm_commit}
use cluster_stm.Stm.Cluster.Calls.{stm_get, stm_put}
use cluster_stm.Stm.Cluster.Finishing.{stm_finish_home-everywhere}
use cluster_stm.Stm.Alloc.{gasnet_heap_size, grt_heap_size, stm_meta_base}
use cluster_stm.Stm.Alloc.Bounds.{meta_addr-in_segment}
use cluster_stm.Tests.AssocMap.{assoc_map}

abbrev pub libs : Libs
libs = record { datasets = assoc_map DatasetEntry; procs = assoc_map (Unit {0}) }

unfoldable pub program : Unit {0}
unfolding assoc_map lookup init_tx_dor open_local open_block get_local put_local stm_finish_local
    stm_validate_local meta_addr share_size_bytes test_write_bit set_write_bit clear_write_bit
    inc_readers dec_readers read_bytes write_bytes entable detable touch remotes stm_start
    stm_validate decide stm_finish_home stm_finish stm_commit stm_get stm_put
program = tt

abbrev pub undo_log : Config
undo_log = record { write_buffering = false; read_versioning = false; late_acquire = false }

abbrev pub node : ℕ → Node libs
node p = record {
  grt_id = p;
  share_power = 1;
  meta_base = 4096;
  mem = λ a. a;
  meta = λ a. 0;
  tx_dors = init_tx_dor;
  commit_count = 0;
  abort_count = 0;
}

abbrev pub idle : Cluster libs
idle = record { nodes = node }

-- Processor 0 starts a transaction and puts 8 bytes to address 32 of processor 1.
abbrev pub begun : Cluster libs
begun = set_node idle 0 (stm_start (node 0) 0)

abbrev pub cluster_of : Run (Cluster libs × Ending) → Cluster libs
cluster_of (ok r) = r.0
cluster_of _ = idle

abbrev has_put : Cluster libs
has_put = cluster_of (stm_put undo_log 3 0 begun 0 1 32 1000 8 2000)

has_put-remotes : remotes (has_put.nodes 0) 0 ≡ 1 ∷ []
unfolding program
has_put-remotes = refl

stm_finish_home-everywhere_example :
    (stm_finish_home undo_log 0 has_put 0 abort).0.nodes 1
    ≡ (stm_finish_local undo_log (has_put.nodes 1) 0 abort).0
unfolding program
stm_finish_home-everywhere_example =
    stm_finish_home-everywhere undo_log 0 0 1 has_put abort (refl, tt) (λ e. omega (arith, e))

-- The abort takes the byte back.
put_arrives : ((has_put.nodes 1).mem 33 ≡ 1001)
unfolding program
put_arrives = refl

abort_restores : ((stm_finish undo_log 0 has_put 0 abort).0.nodes 1).mem 33 ≡ 33
unfolding program
abort_restores = refl

layout : Unit {0}
unfolding share_size_bytes grt_heap_size
layout = tt

-- A heap that starts at 4096, in blocks of two words.
meta_addr-in_segment_example :
    (4096 + grt_heap_size 1 ≤ meta_addr (stm_meta_base 4096 1) 1 5000)
    × (meta_addr (stm_meta_base 4096 1) 1 5000 + 8 ≤ 4096 + gasnet_heap_size)
unfolding layout
meta_addr-in_segment_example =
    meta_addr-in_segment 4096 1 5000 refl (omega arith) (omega arith) (omega arith)
