-- ===== src/Tests/StmRuns.antt =====
-- Transactions on one processor: blocks of 16 bytes (`stm_share_power` 1), metadata from 4096 on.
use cluster_stm.Common.{ℕ, ◌≡◌, ◌↔◌, refl, arith, true, false, none, [], ◌∷◌, lookup}
use cluster_stm.Stm.Types.{
  Config, LockType, read, write, commit, abort, Status, succeed, fail, Run, ok,
}
use cluster_stm.Stm.Meta.{
  test_write_bit, set_write_bit, inc_readers, dec_readers, meta_addr, share_size_bytes,
  clear_write_bit,
}
use cluster_stm.Stm.Node.{DatasetEntry, Libs, Node, init_tx_dor, meta_at, read_bytes, write_bytes}
use cluster_stm.Stm.Open.{open_block, open_read, open_write, open_local}
use cluster_stm.Stm.Copy.{get_local, put_local, memcpy_wb}
use cluster_stm.Stm.Copy.Gap.{memcpy_wb-gap}
use cluster_stm.Stm.Finish.{stm_finish_local, finish_entry, validate_entries}
use cluster_stm.Stm.Finish.Memory.{stm_finish_local-byte}
use cluster_stm.Stm.Finish.Versions.{validate_misses_commit}
use cluster_stm.Stm.Locking.{Ends, get_local-put_local-Ends}
use cluster_stm.Stm.Locking.{
  IsVisible, IsFresh, IsFresh-Inv, Inv, Reach, here, later, open_step, NoOtherHolder, NoOtherWriter,
  open_write-succeeds_iff, open_read-succeeds_iff, modes, put_local-Reach, Step-Inv, IsAligned,
}
use cluster_stm.Stm.Locking.{Reach-Inv, finish_step}
use cluster_stm.Tests.AssocMap.{assoc_map}

abbrev pub libs : Libs
libs = record { datasets = assoc_map DatasetEntry; procs = assoc_map (Unit {0}) }

program : Unit {0}
unfolding open_local assoc_map lookup init_tx_dor open_block put_local get_local stm_finish_local
    meta_addr share_size_bytes test_write_bit set_write_bit inc_readers dec_readers clear_write_bit
    read_bytes write_bytes validate_entries
program = tt

-- The processor after `stm_init`; byte `a` of its memory holds `a`.
abbrev pub start : Node libs
start = record {
  grt_id = 0;
  share_power = 1;
  meta_base = 4096;
  mem = λ a. a;
  meta = λ a. 0;
  tx_dors = init_tx_dor;
  commit_count = 0;
  abort_count = 0;
}

pub start-IsFresh : IsFresh start
start-IsFresh = record { descriptors = λ q. refl; words = λ a. refl }

-- Read locks with an undo log, and read versions with write buffers.
abbrev pub undo_log : Config
undo_log = record { write_buffering = false; read_versioning = false; late_acquire = false }

abbrev pub buffered : Config
buffered = record { write_buffering = true; read_versioning = false; late_acquire = false }

abbrev versions : Config
versions = record { write_buffering = true; read_versioning = true; late_acquire = false }

pub undo_log-IsVisible : IsVisible undo_log
undo_log-IsVisible = record { unversioned = refl; early = refl }

-- Processors 0 and 1 read block 32.
abbrev one_reader : Node libs
one_reader = (open_block undo_log start 0 32 read).0

abbrev two_readers : Node libs
two_readers = (open_block undo_log one_reader 1 32 read).0

two_readers_word : two_readers.meta (meta_at two_readers 32) ≡ 4
unfolding program
two_readers_word = refl

IsAligned-32 : IsAligned 1 32
unfolding share_size_bytes
IsAligned-32 = refl

one_reader-share : one_reader.share_power ≡ 1
unfolding program
one_reader-share = refl

two_readers-Reach : Reach undo_log 4 start two_readers
unfolding program
two_readers-Reach =
    later (later here (open_step 0 32 read (omega arith) refl))
      (open_step 1 32 read (omega arith) refl)

two_readers-Inv : Inv 4 two_readers
two_readers-Inv =
    Reach-Inv undo_log-IsVisible (IsFresh-Inv start-IsFresh 4 (omega arith)) two_readers-Reach

-- Processor 0 may not write block 32, which 1 reads; processor 2 may read it.
open_write-succeeds_iff_example :
    ((open_write undo_log two_readers 0 32).1 ≡ succeed) ↔ NoOtherHolder 4 0 (modes two_readers 32)
unfolding program
open_write-succeeds_iff_example =
    open_write-succeeds_iff undo_log-IsVisible two_readers 0 32 (omega arith) two_readers-Inv refl

open_read-succeeds_iff_example :
    ((open_read undo_log two_readers 2 32).1 ≡ succeed) ↔ NoOtherWriter 4 2 (modes two_readers 32)
unfolding program
open_read-succeeds_iff_example =
    open_read-succeeds_iff undo_log-IsVisible two_readers 2 32 (omega arith) two_readers-Inv refl

open_write_fails : (open_write undo_log two_readers 0 32).1 ≡ fail
unfolding program
open_write_fails = refl

abbrev pub node_of : Run (Node libs × Status) → Node libs
node_of (ok r) = r.0
node_of _ = start

-- Processor 0 puts 20 bytes from private address 1000 to address 40: blocks 32 and 48.
abbrev pub after_put : Node libs
after_put = node_of (put_local undo_log 3 start 0 40 1000 20)

after_put-Reach : Reach undo_log 4 start after_put
unfolding program
after_put-Reach =
    put_local-Reach {c = undo_log} {p = 0} (omega arith) 3 start 40 1000 20 here after_put succeed
      refl

abbrev pub after_get : Node libs
after_get = node_of (get_local undo_log 3 start 0 1000 40 20)

after_put-Inv : Inv 4 after_put
after_put-Inv =
    Reach-Inv undo_log-IsVisible (IsFresh-Inv start-IsFresh 4 (omega arith)) after_put-Reach

put_writes : after_put.mem 50 ≡ 1010
unfolding program
put_writes = refl

-- An abort takes the byte back.
stm_finish_local-byte_example : (stm_finish_local undo_log after_put 0 abort).0.mem 50 ≡ 50
unfolding program
stm_finish_local-byte_example =
    stm_finish_local-byte undo_log abort after_put 0 50 (after_put-Inv.keyed 0)

Step-Inv_example : Inv 4 (stm_finish_local undo_log after_put 0 commit).0
Step-Inv_example = Step-Inv undo_log-IsVisible after_put-Inv (finish_step 0 commit (omega arith))

-- Block 32 is at version 6 and locked by a writer.
abbrev locked_node : Node libs
locked_node = record start { meta = λ a. set_write_bit 6 }

abbrev entry_at : LockType → ℕ → DatasetEntry
entry_at t v = record {
  type = t;
  old_version = v;
  wb_data = none;
  undo_data = none;
  promoted = false;
  acquired = false;
}

validate_misses_commit_example :
    validate_entries
      (finish_entry versions commit
        (finish_entry versions commit locked_node 32 (entry_at write 6))
        32
        (entry_at read 8))
      ((32, entry_at read 6) ∷ [])
    ≡ commit
unfolding program
validate_misses_commit_example =
    validate_misses_commit versions refl (entry_at read 8) (entry_at write 6) refl refl commit
      locked_node 32 (entry_at read 6) refl (omega arith) refl

abbrev copied : Run (Node libs) → Node libs
copied (ok n) = n
copied _ = start

-- Reading 20 bytes at 40 to 1000: bytes 40 to 47 arrive, and 1008 is skipped.
abbrev after_copy : Node libs
after_copy = copied (memcpy_wb 3 start 0 40 1000 20 read)

memcpy_wb-gap_example : after_copy.mem 1008 ≡ 1008
unfolding program
memcpy_wb-gap_example = memcpy_wb-gap 0 3 start 40 1000 20 (omega arith) (omega arith) refl

memcpy_wb_shifted : after_copy.mem 1016 ≡ 48
unfolding program
memcpy_wb_shifted = refl

get_local-put_local-Ends_example :
    Ends (get_local buffered 37 start 0 40 1000 20)
    × Ends (put_local undo_log 37 start 0 40 1000 20)
unfolding program
get_local-put_local-Ends_example =
    get_local-put_local-Ends buffered 0 36 start 40 1000 20 (omega arith) (omega arith)
