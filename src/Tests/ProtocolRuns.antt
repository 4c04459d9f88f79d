-- ===== src/Tests/ProtocolRuns.antt =====
-- Moves of two processors: one puts to the other, and ends its transaction.
use cluster_stm.Common.{ℕ, ◌<◌, ◌≡◌, ◌≢◌, refl, arith, [], ◌∷◌, some, none}
use cluster_stm.Stm.Types.{abort, read, ok}
use cluster_stm.Stm.Node.{DatasetEntry, entry_of, meta_at}
use cluster_stm.Stm.Locking.{IsAligned}
use cluster_stm.Stm.Cluster.{returned, stm_start, set_node, remotes}
use cluster_stm.Stm.Cluster.Remote.{stm_commit}
use cluster_stm.Stm.Cluster.Calls.{stm_get, stm_put}
use cluster_stm.Stm.Cluster.Protocol.{
  running, finishing, World, at, finished, Moves, later, without, finish_move, reply_move,
}
use cluster_stm.Stm.Cluster.Exclusion.{IsStarted, cluster_exclusion, nothing_left}
use cluster_stm.Stm.Cluster.Interleaved.Calls.{calls-Moves}
use cluster_stm.Tests.StmRuns.{undo_log-IsVisible}
use cluster_stm.Common.Family.{update}
use cluster_stm.Tests.ClusterRuns.{libs, program, undo_log, node, idle, cluster_of}

abbrev idle_world : World libs
idle_world = record { cluster = idle; phase = λ p. running }

-- Processor 0 puts 8 bytes to address 32 of processor 1.
abbrev put_world : World libs
put_world = record idle_world {
  cluster = cluster_of (stm_put undo_log 3 0 idle 0 1 32 1000 8 2000);
}

put_returns : stm_put undo_log 3 0 idle 0 1 32 1000 8 2000 ≡ ok (put_world.cluster, returned)
unfolding program
put_returns = refl

calls-Moves_example :
    Moves undo_log 2 idle_world (at idle_world 0 (stm_start (node 0) 0))
    × (stm_get undo_log 3 0 idle 0 32 1 1000 8 2000 ≡ ok (put_world.cluster, returned)
        → Moves undo_log 2 idle_world put_world)
    × (stm_put undo_log 3 0 idle 0 1 32 1000 8 2000 ≡ ok (put_world.cluster, returned)
        → Moves undo_log 2 idle_world put_world)
    × Moves undo_log 2 idle_world (record idle_world { cluster = (stm_commit undo_log 0 idle 0).0 })
calls-Moves_example =
    calls-Moves undo_log-IsVisible 2 idle_world 0 refl (omega arith) 3 1 32 1000 8 2000
      put_world.cluster returned (omega arith)

put-Moves : Moves undo_log 2 idle_world put_world
put-Moves =
    (calls-Moves undo_log-IsVisible 2 idle_world 0 refl (omega arith) 3 1 32 1000 8 2000
        put_world.cluster returned (omega arith)).2
      put_returns

started : IsStarted idle_world
unfolding program
started = record {
  fresh = λ m. record { descriptors = λ q. refl; words = λ a. refl };
  begun = λ p. refl;
}

cluster_exclusion_example :
    ((p q : ℕ) (e e' : DatasetEntry)
      → p < 2
      → q < 2
      → p ≢ q
      → entry_of (put_world.cluster.nodes 1) p 32 ≡ some e
      → entry_of (put_world.cluster.nodes 1) q 32 ≡ some e'
      → (e.type ≡ read) × (e'.type ≡ read))
    × (IsAligned (put_world.cluster.nodes 1).share_power 32
        → ((q : ℕ) → q < 2 → entry_of (put_world.cluster.nodes 1) q 32 ≡ none)
        → (put_world.cluster.nodes 1).meta (meta_at (put_world.cluster.nodes 1) 32) ≡ 0)
cluster_exclusion_example =
    cluster_exclusion undo_log-IsVisible (omega arith) started put-Moves 1 32

-- The transaction aborts: first on its own processor, then on processor 1.
abbrev aborting : World libs
aborting = record {
  cluster = set_node put_world.cluster 0 (finished undo_log put_world 0 0 abort);
  phase =
      update put_world.phase 0
        (finishing abort (remotes (finished undo_log put_world 0 0 abort) 0));
}

abbrev aborted : World libs
aborted = record {
  cluster = set_node aborting.cluster 1 (finished undo_log aborting 0 1 abort);
  phase = update aborting.phase 0 (finishing abort (without 1 (1 ∷ [])));
}

asked : aborting.phase 0 ≡ finishing abort (1 ∷ [])
unfolding program
asked = refl

abort-Moves : Moves undo_log 2 idle_world aborted
abort-Moves =
    later (later put-Moves (finish_move 0 abort refl (omega arith)))
      (reply_move 0 1 abort (1 ∷ []) asked (omega arith) refl)

nothing_left_example : entry_of (aborted.cluster.nodes 1) 0 32 ≡ none
nothing_left_example =
    nothing_left undo_log-IsVisible (omega arith) started abort-Moves 0 1 32 abort refl
