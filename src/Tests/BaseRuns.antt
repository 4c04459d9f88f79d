-- ===== src/Tests/BaseRuns.antt =====
-- The word STM on concrete values.
use cluster_stm.Common.{◌∷◌}
use cluster_stm.Common.{◌≡◌, refl, arith, false, none, []}
use cluster_stm.Stm.Types.{succeed, fail}
use cluster_stm.Base.Memory.{
  Store, version_addr, version_of, acquire_local, acquire_with, acquire_all, acquire_in_turn,
  read_versions, stm_release, commit_write_local,
}
use cluster_stm.Base.Memory.Versions.{acquire_local-then, acquire_local-race}
use cluster_stm.Base.Transaction.{
  Transaction, World, stm_start, stm_start_empty, stm_open_for_read, stm_write, read_cached, got,
  commit_transaction,
}
use cluster_stm.Base.Transaction.Reads.{read-write}
use cluster_stm.Base.Transaction.Commit.{commit_transaction-words, word_at}

program : Unit {0}
unfolding version_addr acquire_local acquire_with stm_release commit_write_local stm_start
    stm_start_empty stm_open_for_read stm_write read_cached commit_transaction
program = tt

-- Blocks of two words; every version is 4, and word `a` holds `a`.
abbrev store : Store
store = record { version_base = 4096; share_power = 1; words = λ a. a; versions = λ a. 4 }

acquire_local-then_example :
    ((acquire_local store 32).1 ≡ succeed)
    × ((acquire_local (acquire_local store 32).0 32).1 ≡ fail)
    × (version_of (stm_release (acquire_local store 32).0 32) 32 ≡ 4)
    × (version_of (commit_write_local (acquire_local store 32).0 9 32) 32 ≡ 6)
acquire_local-then_example = acquire_local-then store 32 9 refl (omega arith)

-- Words 32 and 40 are in one block.
acquire_local-race_example :
    ((acquire_all (read_versions store (32 ∷ 40 ∷ [])) store).1 ≡ succeed ∷ succeed ∷ [])
    × ((acquire_in_turn (32 ∷ 40 ∷ []) store).1 ≡ succeed ∷ fail ∷ [])
unfolding program
acquire_local-race_example =
    acquire_local-race store (version_addr store.version_base store.share_power 32) 32 (40 ∷ [])
      refl (refl, (refl, tt))

abbrev idle : Transaction
idle = record {
  cache = λ p a. none;
  opened_version_set = λ p a. false;
  read_list = [];
  write_list = [];
  acquired_set = λ p a. false;
  acquired_list = [];
  nesting_count = 0;
}

-- A transaction that read word 32 of processor 0 and wrote word 64 of processor 1.
abbrev running : World
running =
    stm_write (stm_open_for_read (record { stores = λ p. store; tx = stm_start idle }) 0 32) 1 700
      64

read-write_example : read_cached (stm_write running 1 701 64) 1 64 ≡ got 701
unfolding program
read-write_example = read-write running 1 701 64 1 64

commit_transaction-words_example : word_at (commit_transaction running).0 1 64 ≡ 700
unfolding program
commit_transaction-words_example = commit_transaction-words running 1 64

commits : (commit_transaction running).1 ≡ succeed
unfolding program
commits = refl
