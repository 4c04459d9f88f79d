-- ===== src/Stm/Open.antt =====
-- Acquiring read and write locks: `new_dataset_entry`, `open_read`, `open_write`, `open_local`.
-- Each call holds `meta_lock` from its first look at a metadata word to its last write.
use cluster_stm.Common.{
  ℕ, zero, suc, ◌+◌, ◌-◌, ◌*◌, ◌/◌, ◌%◌, ◌^◌, Bool, true, false, not, ◌&&◌, ◌||◌, Option, none,
  some, ◌==◌, ltb, if◌then◌else◌,
}
use cluster_stm.Stm.Types.{
  Run, ok, out_of_fuel, Status, succeed, fail, succeeded, LockType, read, write, is_write, Config,
}
use cluster_stm.Stm.Meta.{test_write_bit, set_write_bit, inc_readers}
use cluster_stm.Stm.Node.{
  Buffer, DatasetEntry, Libs, Node, meta_at, share_bytes, read_bytes, set_dataset, set_meta,
  entry_of,
}

-- `new_dataset_entry`, with the two fields that its callers fill before they release the lock.
unfoldable pub new_dataset_entry : LockType → ℕ → DatasetEntry
new_dataset_entry t version = record {
  type = t;
  old_version = version;
  wb_data = none;
  undo_data = none;
  promoted = false;
  acquired = false;
}

-- The test of `open_write` on the word `m`, for an entry of the transaction's own if it has one.
unfoldable pub can_write : Config → ℕ → Option DatasetEntry → Bool
can_write c m entry =
    if c.late_acquire
    then not (test_write_bit m)
    else (if c.read_versioning
        then not (test_write_bit m)
          && (elim entry [ none ↦ true | some e ↦ is_write e.type || m == e.old_version ])
        else (m == 0) || ((m == 2) && (elim entry [ none ↦ false | some e ↦ true ])))

-- The word that `open_write` leaves for a writer `p`, whose number is shifted in 32 bits.
unfoldable pub write_word : Config → ℕ → ℕ → ℕ
write_word c p m =
    if c.late_acquire
    then m
    else (if c.read_versioning then set_write_bit m else set_write_bit (p * 2 % 2 ^ 32))

-- The entry becomes a WRITE entry with a private copy of the block.
unfoldable pub grant_write : Config → Buffer → DatasetEntry → DatasetEntry
grant_write c block e =
    if c.write_buffering
    then record e { type = write; wb_data = some block }
    else record e { type = write; undo_data = some block }

-- `entry->promoted = GRT_TRUE`
unfoldable pub promote : Config → DatasetEntry → DatasetEntry
promote c e = if c.late_acquire then record e { promoted = true } else e

module _ {l : Libs} (c : Config) where
  unfoldable pub open_read : Node l → ℕ → ℕ → Node l × Status
  unfolding new_dataset_entry
  open_read n p src = elim (entry_of n p src) [
    | some e ↦ (n, succeed)
    | none ↦
        let m = n.meta (meta_at n src) in
        let entry = new_dataset_entry read (if c.read_versioning then m else 0) in
        let n' = set_dataset n p (l.datasets.put (n.tx_dors p).dataset src entry) in
        if test_write_bit m then (n, fail) else (
          if c.read_versioning then n' else set_meta n' (meta_at n src) (inc_readers m),
          succeed,
        )
  ]

  -- `open_write` from the lock on: `entry` is the transaction's READ entry, if it has one.
  unfoldable pub acquire_write : Node l → ℕ → ℕ → Option DatasetEntry → Node l × Status
  unfolding can_write write_word grant_write new_dataset_entry
  acquire_write n p dest entry =
      let m = n.meta (meta_at n dest) in
      let block = read_bytes n.mem dest in
      let ds = (n.tx_dors p).dataset in
      let ds' : l.datasets.Map = elim entry [
        | none ↦ l.datasets.put ds dest (grant_write c block (new_dataset_entry write 0))
        | some e ↦ l.datasets.store ds dest (grant_write c block e)
      ] in
      if can_write c m entry
      then (set_meta (set_dataset n p ds') (meta_at n dest) (write_word c p m), succeed)
      else (n, fail)

  unfoldable pub open_write : Node l → ℕ → ℕ → Node l × Status
  unfolding acquire_write promote
  open_write n p dest = elim (entry_of n p dest) [
    | none ↦ acquire_write n p dest none
    | some e ↦
        let e' = promote c e in
        let n' = set_dataset n p (l.datasets.store (n.tx_dors p).dataset dest e') in
        if is_write e.type then (n, succeed) else acquire_write n' p dest (some e')
  ]

  -- `open_read` or `open_write`, by the type.
  unfoldable pub open_block : Node l → ℕ → ℕ → LockType → Node l × Status
  unfolding open_read open_write
  open_block n p a read = open_read n p a
  open_block n p a write = open_write n p a

  -- The loop of `open_local`: `count` is a 32-bit `unsigned`.
  unfoldable pub open_loop :
      ℕ → Node l → (p aligned_loc count limit : ℕ) → LockType → Run (Node l × Status)
  unfolding open_block
  open_loop zero n p a count limit t = out_of_fuel
  open_loop (suc fuel) n p a count limit t =
      let (n', status) = open_block n p a t in
      let rest =
        open_loop fuel n' p (a + share_bytes n) ((count + share_bytes n) % 2 ^ 32) limit t in
      if ltb count limit
      then (if succeeded status then rest else ok (n', fail))
      else ok (n, succeed)

  unfoldable pub open_local : ℕ → Node l → (p loc nbytes : ℕ) → LockType → Run (Node l × Status)
  unfolding open_loop
  open_local fuel n p loc nbytes t =
      let aligned_loc = loc / share_bytes n * share_bytes n in
      open_loop fuel n p aligned_loc 0 (nbytes + (loc - aligned_loc)) t
