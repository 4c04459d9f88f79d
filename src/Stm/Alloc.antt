-- ===== src/Stm/Alloc.antt =====
-- Where the metadata lies: `stm_init`; and `stm_alloc_local`, which clears the words of what it
-- allocates.
pub mod Bounds
pub mod Cleared
use cluster_stm.Common.{
  ℕ, ◌+◌, ◌-◌, ◌*◌, ◌/◌, ◌%◌, ◌^◌, ◌&&◌, [], ◌∷◌, ◌++◌, ltb, leb, if◌then◌else◌,
}
use cluster_stm.Common.Blocks.{align_down}
use cluster_stm.Stm.Node.{Libs, Node, meta_at, share_bytes, set_tx_dor}

-- `GASNET_HEAP_SIZE`
abbrev pub gasnet_heap_size : ℕ
gasnet_heap_size = 536870912

-- `grt_heap_size` after `stm_init`, in 32 bits.
unfoldable pub grt_heap_size : (share_power : ℕ) → ℕ
grt_heap_size share_power =
    align_down (gasnet_heap_size * 2 ^ share_power / (1 + 2 ^ share_power) % 2 ^ 32) 8

-- `stm_meta_base` after `stm_init`, in 64 bits: `& GRT_ALIGN_MASK` drops the lowest three bits.
unfoldable pub stm_meta_base : (grt_heap_base share_power : ℕ) → ℕ
unfolding grt_heap_size
stm_meta_base grt_heap_base share_power =
    let masked = grt_heap_base / 2 ^ share_power / 8 * 8 in
    (grt_heap_base + grt_heap_size share_power + (2 ^ 64 - masked)) % 2 ^ 64

-- `grt_align_up`, on a 32-bit `nbytes` and a `size_t` alignment.
unfoldable pub align_up : ℕ → ℕ → ℕ
align_up nbytes b = (nbytes + b - 1) / b * b

-- `memset(addr, 0, size)`, on words.
unfoldable pub clear_words : (ℕ → ℕ) → (addr size : ℕ) → ℕ → ℕ
clear_words words addr size a = if leb addr a && ltb a (addr + size) then 0 else words a

module _ {l : Libs} where
  -- `stm_alloc_local`; `result` is what `umemalign` returns, and `owner` the descriptor's processor.
  unfoldable pub stm_alloc_local : Node l → (owner nbytes result : ℕ) → Node l
  unfolding align_up clear_words
  stm_alloc_local n owner nbytes result =
      let size = align_up nbytes (share_bytes n) % 2 ^ 32 in
      let n' = record n {
        mem = clear_words n.mem result size;
        meta = clear_words n.meta (meta_at n result) (8 * size / share_bytes n);
      } in
      let d = n.tx_dors owner in
      if ltb 0 d.tx_depth
      then set_tx_dor n' owner (record d { allocations = d.allocations ++ (result ∷ []) })
      else n'

  -- `stm_alloc_handler`, which takes over the depth of the requesting processor's transaction.
  unfoldable pub stm_alloc_handler : Node l → (src_proc tx_depth nbytes result : ℕ) → Node l
  unfolding stm_alloc_local
  stm_alloc_handler n src_proc tx_depth nbytes result =
      let d = n.tx_dors src_proc in
      stm_alloc_local (set_tx_dor n src_proc (record d { tx_depth = tx_depth })) src_proc nbytes
        result
