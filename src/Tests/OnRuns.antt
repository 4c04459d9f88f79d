-- ===== src/Tests/OnRuns.antt =====
-- Work for a transaction on another processor.
use cluster_stm.Common.{
  ℕ, ◌+◌, ◌≡◌, ◌&&◌, leb, ltb, if◌then◌else◌, refl, arith, Option, none, [], ◌∷◌, ◌++◌, lookup,
}
use cluster_stm.Stm.Types.{Run, ok, abort}
use cluster_stm.Stm.Meta.{share_size_bytes}
use cluster_stm.Stm.Node.{meta_at, init_tx_dor}
use cluster_stm.Stm.Finish.{stm_finish_local}
use cluster_stm.Stm.Alloc.{stm_alloc_local, align_up}
use cluster_stm.Stm.Alloc.Cleared.{stm_alloc_local-clears}
use cluster_stm.Stm.Cluster.{Cluster, set_node, stm_start, touch, remotes, entable, detable}
use cluster_stm.Stm.Cluster.Remote.{stm_finish}
use cluster_stm.Stm.Cluster.On.{
  LocalFn, stm_on, stm_on_handler_work, stm_alloc, stm_alloc-freed, stm_on-aborts, touch_inside,
}
use cluster_stm.Tests.AssocMap.{assoc_map}
use cluster_stm.Tests.ClusterRuns.{libs, undo_log, node, begun}

layout : Unit {0}
unfolding share_size_bytes align_up
layout = tt

-- 20 bytes at 64 are the blocks at 64 and 80.
stm_alloc_local-clears_example :
    (stm_alloc_local (node 0) 0 20 64).meta (meta_at (node 0) 80)
    ≡ (if leb 64 80 && ltb 80 (64 + align_up 20 16) then 0 else (node 0).meta (meta_at (node 0) 80))
unfolding layout
stm_alloc_local-clears_example = stm_alloc_local-clears (node 0) 0 20 64 (omega arith) refl 80 refl

opened : Unit {0}
unfolding stm_start assoc_map lookup init_tx_dor entable detable touch remotes
opened = tt

stm_alloc-freed_example :
    ((stm_finish undo_log 0 (stm_alloc 0 begun 0 1 20 64) 0 abort).0.nodes 1
      ≡ (stm_finish_local undo_log ((stm_alloc 0 begun 0 1 20 64).nodes 1) 0 abort).0)
    × ((stm_finish_local undo_log ((stm_alloc 0 begun 0 1 20 64).nodes 1) 0 abort).1
        ≡ ((begun.nodes 1).tx_dors 0).allocations ++ (64 ∷ []))
unfolding opened
stm_alloc-freed_example =
    stm_alloc-freed undo_log 0 0 1 20 64 begun (λ e. omega (arith, e)) (omega arith) (omega arith)
      refl (refl, tt)

-- A function that jumps at once.
abbrev gives_up : LocalFn libs ℕ
gives_up grt_id src_proc cl = ok (cl, none)

abbrev cluster_of : Run (Cluster libs × Option ℕ) → Cluster libs
cluster_of (ok r) = r.0
cluster_of _ = begun

abbrev after_jump : Cluster libs
after_jump = cluster_of (
    stm_on_handler_work undo_log 1 (set_node begun 0 (touch_inside (begun.nodes 0) 0 1)) 0
      ((begun.nodes 0).tx_dors 0).tx_proc ((begun.nodes 0).tx_dors 0).tx_depth gives_up)

stm_on-aborts_example :
    (cl'' : Cluster libs) × (stm_on undo_log 0 begun 0 1 gives_up ≡ ok (cl'', none))
    × (cl''.nodes 1 ≡ (stm_finish_local undo_log (after_jump.nodes 1) 0 abort).0)
unfolding opened stm_on_handler_work
stm_on-aborts_example =
    stm_on-aborts undo_log 0 0 1 begun after_jump gives_up (λ e. omega (arith, e)) refl refl
      (refl, tt) refl
