-- ===== src/Stm/Finish.antt =====
-- `stm_finish_local`, `stm_acquire_local` and `stm_validate_local`: what ends a transaction on one
-- processor. Each entry is handled under `meta_lock`.
pub mod Entries
pub mod Memory
pub mod Versions
use cluster_stm.Common.{◌≡◌, refl}
use cluster_stm.Common.{
  ℕ, ◌+◌, ◌%◌, true, not, ◌&&◌, ◌||◌, Option, none, some, ◌==◌, if◌then◌else◌, List, [], ◌∷◌,
}
use cluster_stm.Common.Family.{update}
use cluster_stm.Stm.Types.{StmStatus, commit, abort, is_commit, is_write, Config}
use cluster_stm.Stm.Meta.{set_write_bit, clear_write_bit, dec_readers, word_mod}
use cluster_stm.Stm.Node.{
  Buffer, DatasetEntry, Libs, Node, meta_at, share_bytes, write_bytes, set_dataset, set_meta,
  set_tx_dor,
}

-- The word that a finished entry leaves.
unfoldable pub release_word : Config → StmStatus → DatasetEntry → ℕ → ℕ
release_word c status e m =
    if not (is_write e.type)
    then dec_readers m
    else (if c.read_versioning
        then (if is_commit status then (clear_write_bit m + 2) % word_mod else clear_write_bit m)
        else (if not c.late_acquire
            then 0
            else (if e.acquired then 0 else (if e.promoted then dec_readers m else m))))

-- The buffer that a finished WRITE entry copies over its block, if it copies one.
unfoldable pub copied_back : Config → StmStatus → DatasetEntry → Option Buffer
copied_back c status e =
    if is_write e.type
    then (if c.write_buffering
        then (if is_commit status then e.wb_data else none)
        else (if is_commit status then none else e.undo_data))
    else none

-- `memcpy` of a whole block, or nothing.
abbrev pub copy_block : (ℕ → ℕ) → ℕ → ℕ → Option Buffer → ℕ → ℕ
copy_block mem a size none = mem
copy_block mem a size (some buf) = write_bytes mem a size buf

module _ {l : Libs} (c : Config) where
  -- One round of the loop of `stm_finish_local`.
  unfoldable pub finish_entry : StmStatus → Node l → ℕ → DatasetEntry → Node l
  unfolding release_word copied_back
  finish_entry status n a e = record n {
    meta = update n.meta (meta_at n a) (release_word c status e (n.meta (meta_at n a)));
    mem = copy_block n.mem a (share_bytes n) (copied_back c status e);
  }

  unfoldable pub finish_entries : StmStatus → Node l → List (ℕ × DatasetEntry) → Node l
  unfolding finish_entry
  finish_entries status n [] = n
  finish_entries status n ((a, e) ∷ es) = finish_entries status (finish_entry status n a e) es

  pub finish_entries-tx_dors :
      (status : StmStatus) (n : Node l) (es : List (ℕ × DatasetEntry))
      → (finish_entries status n es).tx_dors ≡ n.tx_dors
  unfolding finish_entries finish_entry
  finish_entries-tx_dors status n [] = refl
  finish_entries-tx_dors status n ((a, e) ∷ es) =
      finish_entries-tx_dors status (finish_entry status n a e) es

  pub finish_entries-share :
      (status : StmStatus) (n : Node l) (es : List (ℕ × DatasetEntry))
      → (finish_entries status n es).share_power ≡ n.share_power
  unfolding finish_entries finish_entry
  finish_entries-share status n [] = refl
  finish_entries-share status n ((a, e) ∷ es) =
      finish_entries-share status (finish_entry status n a e) es

  -- The dataset and the allocations are cleared; the addresses to free are the second part.
  unfoldable pub stm_finish_local : Node l → ℕ → StmStatus → Node l × List ℕ
  unfolding finish_entries
  stm_finish_local n p status =
      let n' = finish_entries status n (l.datasets.entries (n.tx_dors p).dataset) in
      let freed : List ℕ = if is_commit status then [] else (n.tx_dors p).allocations in
      (
        set_tx_dor n' p (record (n.tx_dors p) { dataset = l.datasets.init; allocations = [] }),
        freed,
      )

  -- The loop of `stm_acquire_local`: stops at the first WRITE entry that it cannot lock.
  unfoldable pub acquire_entries : Node l → ℕ → List (ℕ × DatasetEntry) → Node l × StmStatus
  acquire_entries n p [] = (n, commit)
  acquire_entries n p ((a, e) ∷ es) =
      let m = n.meta (meta_at n a) in
      let locked =
        set_dataset (set_meta n (meta_at n a) (set_write_bit m)) p
          (l.datasets.store (n.tx_dors p).dataset a (record e { acquired = true })) in
      let on = acquire_entries (if is_write e.type then locked else n) p es in
      if not (is_write e.type) || ((m == 0) || ((m == 2) && e.promoted)) then on else (n, abort)

  -- Without `LATE_ACQUIRE` its body is empty.
  unfoldable pub stm_acquire_local : Node l → ℕ → Node l × StmStatus
  unfolding acquire_entries
  stm_acquire_local n p =
      if c.late_acquire
      then acquire_entries n p (l.datasets.entries (n.tx_dors p).dataset)
      else (n, commit)

module _ {l : Libs} where
  -- The loop of `stm_validate_local`.
  unfoldable pub validate_entries : Node l → List (ℕ × DatasetEntry) → StmStatus
  validate_entries n [] = commit
  validate_entries n ((a, e) ∷ es) =
      if not (is_write e.type) && not (n.meta (meta_at n a) == e.old_version)
      then abort
      else validate_entries n es

  unfoldable pub stm_validate_local : Node l → ℕ → StmStatus
  unfolding validate_entries
  stm_validate_local n p = validate_entries n (l.datasets.entries (n.tx_dors p).dataset)
