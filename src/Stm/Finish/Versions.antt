-- ===== src/Stm/Finish/Versions.antt =====
-- Read versions: what a validating reader can miss.
use cluster_stm.Common.{ℕ, ◌+◌, ◌<◌, ◌%◌, ◌≡◌, true, [], ◌∷◌, arith, ==_refl}
use cluster_stm.Stm.Types.{Config, StmStatus, commit, read, write}
use cluster_stm.Stm.Meta.{word_mod, set_write_bit, clear_write_bit, dec_readers}
use cluster_stm.Stm.Node.{DatasetEntry, Libs, Node, meta_at}
use cluster_stm.Stm.Finish.{release_word, finish_entry, validate_entries}

module _ (c : Config) (versioned : c.read_versioning ≡ true) (reader writer : DatasetEntry)
    (reads : reader.type ≡ read) (writes : writer.type ≡ write) (status : StmStatus) where
  -- The end of a reader subtracts what the commit of a writer added to the version.
  version_taken_back :
      (w : ℕ)
      → w % 2 ≡ 0
      → w + 2 < word_mod
      → release_word c status reader (release_word c commit writer (set_write_bit w)) ≡ w
  unfolding release_word set_write_bit clear_write_bit dec_readers
  version_taken_back w even small = rw (reads, writes, versioned) (omega arith)

  -- A writer commits to a block and another reader of it ends: then a transaction that had read the
  -- block before the commit still passes its validation.
  pub validate_misses_commit :
      {l : Libs} (n : Node l) (a : ℕ) (first : DatasetEntry)
      → first.old_version % 2 ≡ 0
      → first.old_version + 2 < word_mod
      → n.meta (meta_at n a) ≡ set_write_bit first.old_version
      → validate_entries
          (finish_entry c status (finish_entry c commit n a writer) a reader)
          ((a, first) ∷ [])
        ≡ commit
  unfolding validate_entries finish_entry
  validate_misses_commit n a first even small locked =
      let w = meta_at n a in
      let back = version_taken_back first.old_version even small in
      rw (==_refl w, locked, back, ==_refl first.old_version) (ground arith)
