-- ===== src/Tests/UndoLogRuns.antt =====
-- Atomicity on a concrete processor: blocks of 16 bytes, at most four processors.
use cluster_stm.Common.{ℕ, ◌+◌, ◌<◌, ◌≤◌, ◌≡◌, ◌⊎◌, refl, arith, [], ◌∷◌, some, lookup}
use cluster_stm.Stm.Types.{write, succeed, commit, abort, StmStatus}
use cluster_stm.Stm.Meta.{
  test_write_bit, set_write_bit, inc_readers, dec_readers, meta_addr, share_size_bytes,
}
use cluster_stm.Stm.Node.{init_tx_dor, read_bytes, write_bytes, Node}
use cluster_stm.Stm.Open.{open_block, open_local}
use cluster_stm.Stm.Copy.{get_local, put_local}
use cluster_stm.Stm.Finish.{stm_finish_local}
use cluster_stm.Stm.Locking.{modes}
use cluster_stm.Stm.UndoLog.View.{Sound, committed, block_of}
use cluster_stm.Stm.UndoLog.Isolation.{put_local-committed, get_local-committed}
use cluster_stm.Stm.UndoLog.Ending.{stm_finish_local-committed}
use cluster_stm.Stm.UndoLog.History.{
  History, start, put_step, commit_step, abort_step, install_of, replay, history-replay,
  fresh-Sound,
}
use cluster_stm.Tests.AssocMap.{assoc_map}
use cluster_stm.Tests.StmRuns
use cluster_stm.Tests.StmRuns.{
  libs, undo_log, node_of, after_put, after_get, start-IsFresh, undo_log-IsVisible,
}

program : Unit {0}
unfolding open_local assoc_map lookup init_tx_dor open_block put_local get_local stm_finish_local
    meta_addr share_size_bytes test_write_bit set_write_bit inc_readers dec_readers read_bytes
    write_bytes
program = tt

abbrev fresh : Node libs
fresh = StmRuns.start

fresh-IsSound : Sound 4 fresh
fresh-IsSound = fresh-Sound start-IsFresh 4 (omega arith)

put_local-committed_example :
    Sound 4 after_put
    × ((x : ℕ) → committed 4 after_put x ≡ committed 4 fresh x)
    × (succeed ≡ succeed → (i : ℕ) → i < 20 → after_put.mem (40 + i) ≡ fresh.mem (1000 + i))
unfolding program
put_local-committed_example =
    put_local-committed undo_log-IsVisible refl 0 (omega arith) 3 fresh fresh-IsSound 40 1000 20
      (omega arith) after_put succeed refl

get_local-committed_example :
    Sound 4 after_get
    × ((x : ℕ) → (1000 ≤ x → x < 1000 + 20 → ⊥) → committed 4 after_get x ≡ committed 4 fresh x)
    × (succeed ≡ succeed
        → (i : ℕ) → i < 20
        → (after_get.mem (1000 + i) ≡ fresh.mem (40 + i))
          × ((fresh.mem (40 + i) ≡ committed 4 fresh (40 + i))
              ⊎ (modes after_get (block_of fresh (40 + i)) 0 ≡ some write)))
unfolding program
get_local-committed_example =
    get_local-committed undo_log-IsVisible refl 0 (omega arith) 3 fresh fresh-IsSound 1000 40 20
      (omega arith) after_get succeed refl

-- Byte 50 is in a block that processor 0 wrote: uncommitted, then committed, or taken back.
stm_finish_local-committed_example :
    ((status : StmStatus) → Sound 4 (stm_finish_local undo_log after_put 0 status).0)
    × (modes after_put (block_of after_put 50) 0 ≡ some write
        → committed 4 (stm_finish_local undo_log after_put 0 commit).0 50 ≡ after_put.mem 50)
    × ((modes after_put (block_of after_put 50) 0 ≡ some write → ⊥)
        → committed 4 (stm_finish_local undo_log after_put 0 commit).0 50
          ≡ committed 4 after_put 50)
    × (committed 4 (stm_finish_local undo_log after_put 0 abort).0 50 ≡ committed 4 after_put 50)
    × (modes after_put (block_of after_put 50) 0 ≡ some write
        → (stm_finish_local undo_log after_put 0 abort).0.mem 50 ≡ committed 4 after_put 50)
stm_finish_local-committed_example =
    stm_finish_local-committed undo_log-IsVisible refl 0 (omega arith) after_put
      put_local-committed_example.0 50

abbrev after_commit : Node libs
after_commit = (stm_finish_local undo_log after_put 0 commit).0

abbrev put_again : Node libs
put_again = node_of (put_local undo_log 3 after_commit 1 40 2000 20)

-- Processor 0 puts and commits; processor 1 puts to the same place and aborts.
two_writers :
    History undo_log 4
      (λ x. x < 1000)
      fresh
      (install_of after_put 0 ∷ [])
      (stm_finish_local undo_log put_again 1 abort).0
unfolding program
two_writers =
    abort_step 1
      (put_step {s = succeed} 3 1 40 2000 20
        (commit_step 0
          (put_step {s = succeed} 3 0 40 1000 20 start (omega arith) (omega arith) refl)
          (omega arith))
        (omega arith) (omega arith) refl)
      (omega arith)

history-replay_example :
    committed 4 (stm_finish_local undo_log put_again 1 abort).0 50
    ≡ replay fresh.mem (install_of after_put 0 ∷ []) 50
history-replay_example =
    history-replay undo_log-IsVisible refl (omega arith) start-IsFresh two_writers 50 (omega arith)

history_result : replay fresh.mem (install_of after_put 0 ∷ []) 50 ≡ 1010
unfolding program replay
history_result = refl
