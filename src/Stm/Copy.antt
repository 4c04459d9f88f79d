-- ===== src/Stm/Copy.antt =====
-- `memcpy_wb`, and the part of `stm_get` and `stm_put` that runs where the data lies.
pub mod Gap
use cluster_stm.Common.{ℕ, zero, suc, ◌+◌, ◌-◌, ◌*◌, ◌/◌, ◌==◌, Option, none, some, if◌then◌else◌}
use Prim.Native.Nat.{min}
use cluster_stm.Stm.Types.{
  Run, ok, assert_failed, out_of_fuel, ◌>>=◌, Status, succeed, fail, LockType, read, write, Config,
}
use cluster_stm.Stm.Node.{
  Buffer, DatasetEntry, Libs, Node, share_bytes, entry_of, read_bytes, write_bytes, set_dataset,
}
use cluster_stm.Stm.Open.{open_local}

-- `entry ? entry->wb_data : NULL`
abbrev pub buffer_of : Option DatasetEntry → Option Buffer
buffer_of none = none
buffer_of (some e) = e.wb_data

module _ {l : Libs} where
  -- `memcpy` within the memory of one processor.
  unfoldable pub memcpy : Node l → (dest src nbytes : ℕ) → Node l
  memcpy n dest src nbytes = record n { mem = write_bytes n.mem dest nbytes (read_bytes n.mem src) }

  -- Copy between `prv_ptr` and the block at `aligned`, from `offset` on: through the block's write
  -- buffer if the transaction has one, and otherwise, which only a read may, from memory itself.
  unfoldable pub copy_chunk :
      Node l → (p aligned offset prv_ptr count : ℕ) → LockType → Run (Node l)
  unfolding memcpy
  copy_chunk n p aligned offset prv_ptr count read = elim (buffer_of (entry_of n p aligned)) [
    | some buf ↦ ok (record n { mem = write_bytes n.mem prv_ptr count (λ i. buf (offset + i)) })
    | none ↦ ok (memcpy n prv_ptr (aligned + offset) count)
  ]
  copy_chunk n p aligned offset prv_ptr count write = elim (entry_of n p aligned) [
    | none ↦ assert_failed
    | some e ↦ elim e.wb_data [
      | none ↦ assert_failed
      | some buf ↦
          let buf' = write_bytes buf offset count (read_bytes n.mem prv_ptr) in
          ok (
            set_dataset n p
              (l.datasets.store (n.tx_dors p).dataset aligned (record e { wb_data = some buf' })))
    ]
  ]

  -- The loop of `memcpy_wb`: both pointers advance by the size of a block.
  unfoldable pub copy_loop :
      ℕ → Node l → (p aligned prv_ptr num_copied nbytes : ℕ) → LockType → Run (Node l)
  unfolding copy_chunk
  copy_loop zero n p aligned prv_ptr num_copied nbytes t = out_of_fuel
  copy_loop (suc fuel) n p aligned prv_ptr num_copied nbytes t =
      let num_left = nbytes - num_copied in
      let aligned' = aligned + share_bytes n in
      let prv_ptr' = prv_ptr + share_bytes n in
      let num_to_copy = min num_left (share_bytes n) in
      let rest =
        copy_chunk n p aligned' 0 prv_ptr' num_to_copy t
        >>= (λ n'. copy_loop fuel n' p aligned' prv_ptr' (num_copied + num_to_copy) nbytes t) in
      if num_left == 0 then ok n else rest

  unfoldable pub memcpy_wb : ℕ → Node l → (p tx_ptr prv_ptr nbytes : ℕ) → LockType → Run (Node l)
  unfolding copy_loop
  memcpy_wb fuel n p tx_ptr prv_ptr nbytes t =
      let aligned = tx_ptr / share_bytes n * share_bytes n in
      let offset = tx_ptr - aligned in
      let num_to_copy = min nbytes (share_bytes n - offset) in
      copy_chunk n p aligned offset prv_ptr num_to_copy t
      >>= (λ n'. copy_loop fuel n' p aligned prv_ptr num_to_copy nbytes t)

  -- Copy `nbytes` bytes from the transactional store at `src` to private memory at `dest`.
  unfoldable pub copy_out : Config → ℕ → Node l → (p dest src nbytes : ℕ) → Run (Node l)
  unfolding memcpy_wb memcpy
  copy_out c fuel n p dest src nbytes =
      if c.write_buffering
      then memcpy_wb fuel n p src dest nbytes read
      else ok (memcpy n dest src nbytes)

  unfoldable pub copy_in : Config → ℕ → Node l → (p dest src nbytes : ℕ) → Run (Node l)
  unfolding memcpy_wb memcpy
  copy_in c fuel n p dest src nbytes =
      if c.write_buffering
      then memcpy_wb fuel n p dest src nbytes write
      else ok (memcpy n dest src nbytes)

  -- The copy is made only if every block was opened.
  unfoldable pub when_opened : Node l × Status → (Node l → Run (Node l)) → Run (Node l × Status)
  when_opened (n, succeed) copy = copy n >>= λ n'. ok (n', succeed)
  when_opened (n, fail) copy = ok (n, fail)

  -- `stm_get` on the processor's own memory.
  unfoldable pub get_local : Config → ℕ → Node l → (p dest src nbytes : ℕ) → Run (Node l × Status)
  unfolding copy_out when_opened
  get_local c fuel n p dest src nbytes = open_local c fuel n p src nbytes read >>= λ r.
      when_opened r (λ n'. copy_out c fuel n' p dest src nbytes)

  -- `stm_put` on the processor's own memory.
  unfoldable pub put_local : Config → ℕ → Node l → (p dest src nbytes : ℕ) → Run (Node l × Status)
  unfolding copy_in when_opened
  put_local c fuel n p dest src nbytes = open_local c fuel n p dest nbytes write >>= λ r.
      when_opened r (λ n'. copy_in c fuel n' p dest src nbytes)
