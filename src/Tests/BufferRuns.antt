-- ===== src/Tests/BufferRuns.antt =====
-- A put with WRITE_BUFFERING, and what is seen of it; the processor of `Tests.StmRuns`.
use cluster_stm.Common.{none}
use cluster_stm.Stm.Types.{commit}
use cluster_stm.Stm.Locking.{IsVisible}
use cluster_stm.Stm.WriteBuffer.Abstract
use cluster_stm.Stm.WriteBuffer.Abstract.{Spec, sees, put_by, end_by, Served, put_step, end_step}
use cluster_stm.Stm.WriteBuffer.Refinement.{view-refines, get_local-serves}
use cluster_stm.Common.{some}
use cluster_stm.Stm.Types.{write}
use cluster_stm.Stm.Locking.{modes}
use cluster_stm.Stm.UndoLog.View.{block_of}
use cluster_stm.Common.{
  ℕ, ◌+◌, ◌<◌, ◌≤◌, ◌≡◌, refl, inl, inr, arith, true, ◌==◌, ◌&&◌, lookup, if◌then◌else◌,
}
use cluster_stm.Stm.Types.{Run, ok, succeed, Status}
use cluster_stm.Stm.Meta.{
  test_write_bit, set_write_bit, inc_readers, dec_readers, meta_addr, share_size_bytes,
}
use cluster_stm.Stm.Open.{open_block, open_local}
use cluster_stm.Stm.Finish.{stm_finish_local}
use cluster_stm.Stm.Node.{Node, read_bytes, write_bytes, init_tx_dor}
use cluster_stm.Stm.Copy.{get_local, put_local}
use cluster_stm.Stm.WriteBuffer.View.{view}
use cluster_stm.Stm.WriteBuffer.Transfers.{Buffered, fresh-Buffered, put_local-view, get_local-view}
use cluster_stm.Tests.StmRuns.{libs, start, start-IsFresh, buffered}
use cluster_stm.Tests.AssocMap.{assoc_map}

abbrev node_of : Run (Node libs × Status) → Node libs
node_of (ok (n, s)) = n
node_of r = start

program : Unit {0}
unfolding open_local assoc_map lookup init_tx_dor open_block put_local get_local stm_finish_local
    meta_addr share_size_bytes test_write_bit set_write_bit inc_readers dec_readers read_bytes
    write_bytes
program = tt

start-Buffered : Buffered start
start-Buffered = fresh-Buffered start-IsFresh

abbrev after_put : Node libs
after_put = node_of (put_local buffered 4 start 0 32 1000 20)

put_local-view_example :
    Buffered after_put
    × (after_put.mem ≡ start.mem)
    × ((q x : ℕ)
        → view after_put q x ≡ (
            if (q == 0) && true
            then write_bytes (view start 0) 32 20 (read_bytes start.mem 1000) x
            else view start q x))
    × ((q a : ℕ) → modes start a q ≡ some write → modes after_put a q ≡ some write)
    × (succeed ≡ succeed
        → (x : ℕ) → 32 ≤ x
        → x < 32 + 20
        → modes after_put (block_of start x) 0 ≡ some write)
unfolding program
put_local-view_example =
    put_local-view buffered refl 4 start 0 start-Buffered 32 1000 20 after_put succeed (inl refl)
      refl

abbrev after_get : Node libs
after_get = node_of (get_local buffered 4 after_put 0 2000 32 20)

get_local-view_example :
    Buffered after_get
    × ((x : ℕ)
        → after_get.mem x ≡ write_bytes after_put.mem 2000 20 (λ i. view after_put 0 (32 + i)) x)
    × ((q x : ℕ) → (2000 ≤ x → x < 2000 + 20 → ⊥) → view after_get q x ≡ view after_put q x)
    × ((q a : ℕ) → modes after_put a q ≡ some write → modes after_get a q ≡ some write)
unfolding program
get_local-view_example =
    get_local-view buffered refl 4 after_put 0 put_local-view_example.0 2000 32 20 after_get succeed
      (inl refl) (inr (inr (omega arith))) refl

-- Byte 50 is still 50 in memory; the get has read what the put left.
buffered_byte : (after_get.mem 50 ≡ 50) × (after_get.mem 2018 ≡ 1018)
unfolding program
buffered_byte = (refl, refl)

buffered-IsVisible : IsVisible buffered
buffered-IsVisible = record { unversioned = refl; early = refl }

abbrev IsLow : ℕ → Type 0
IsLow x = x < 1000

-- Processor 0 puts 20 bytes and commits, and processor 1 puts to the same place.
abbrev puts : Spec
puts =
    put_by (record { memory = start.mem; pending = λ q x. none }) 0 32 20
      (read_bytes start.mem 1000)

put_run : Served buffered 4 IsLow start puts after_put
unfolding program
put_run = put_step {status = succeed} 4 0 32 1000 20 Abstract.start (omega arith) (inl refl) refl

abbrev after_commit : Node libs
after_commit = (stm_finish_local buffered after_put 0 commit).0

abbrev put_again : Node libs
put_again = node_of (put_local buffered 4 after_commit 1 32 3000 20)

whole_run :
    Served buffered 4 IsLow start
      (put_by (end_by puts 0 commit) 1 32 20 (read_bytes after_commit.mem 3000))
      put_again
unfolding program
whole_run =
    put_step {status = succeed} 4 1 32 3000 20 (end_step 0 commit put_run (omega arith))
      (omega arith) (inl refl) refl

view-refines_example :
    (put_again.mem 50 ≡ 1018)
    × (view put_again 1 50
        ≡ sees (put_by (end_by puts 0 commit) 1 32 20 (read_bytes after_commit.mem 3000)) 1 50)
unfolding program put_by end_by
view-refines_example =
    view-refines buffered-IsVisible refl (omega arith) start-IsFresh 1 50 whole_run (omega arith)
      (omega arith)

get_local-serves_example : after_get.mem (2000 + 18) ≡ sees puts 0 (32 + 18)
unfolding program
get_local-serves_example =
    get_local-serves buffered-IsVisible refl (omega arith) start-IsFresh 4 0 2000 32 20 18 put_run
      (omega arith) (inl refl) (inr (inr (omega arith))) refl (omega arith) (omega arith)
