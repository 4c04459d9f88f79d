-- ===== src/Grt/Memory.antt =====
-- Words of the global address space: `grt_read`, `grt_write` and `grt_cas` of Implementation/grt/grt.c,
-- the halves that carry a word in a message, and the macros that distribute work.
pub mod Laws
use cluster_stm.Common.{
  ℕ, ◌+◌, ◌-◌, ◌*◌, ◌/◌, ◌%◌, ◌^◌, Bool, true, false, ◌==◌, ltb, if◌then◌else◌,
}
use Prim.Native.Nat.{min}
use cluster_stm.Common.Family.{update}

unfoldable pub grt_word_lo : ℕ → ℕ
grt_word_lo x = x % 2 ^ 32

unfoldable pub grt_word_hi : ℕ → ℕ
grt_word_hi x = x / 2 ^ 32 % 2 ^ 32

-- `(lo & 0xffffffff) | (hi << 32)`, in 64 bits: the halves have no bit in common.
unfoldable pub grt_word : (lo hi : ℕ) → ℕ
grt_word lo hi = (lo % 2 ^ 32 + hi * 2 ^ 32 % 2 ^ 64) % 2 ^ 64

-- The words of each processor. Each access is made under `mem_lock`, or is one load.
abbrev pub Words : Type 0
Words = (proc addr : ℕ) → ℕ

abbrev pub set_word : Words → (proc addr val : ℕ) → Words
set_word w proc addr val = update w proc (update (w proc) addr val)

-- A word as it arrives in a handler or a reply.
abbrev pub sent : ℕ → ℕ
sent x = grt_word (grt_word_lo x) (grt_word_hi x)

-- `read_handler`, and its reply
unfoldable pub read_handler : Words → (proc ptr : ℕ) → ℕ
unfolding grt_word grt_word_lo grt_word_hi
read_handler w proc ptr = sent (w proc (sent ptr))

unfoldable pub grt_read : (grt_id : ℕ) → Words → (proc ptr : ℕ) → ℕ
unfolding read_handler
grt_read grt_id w proc ptr = if proc == grt_id then w proc ptr else read_handler w proc ptr

unfoldable pub write_handler : Words → (proc val ptr : ℕ) → Words
unfolding grt_word grt_word_lo grt_word_hi
write_handler w proc val ptr = set_word w proc (sent ptr) (sent val)

unfoldable pub grt_write : (grt_id : ℕ) → Words → (proc val ptr : ℕ) → Words
unfolding write_handler
grt_write grt_id w proc val ptr =
    if proc == grt_id then set_word w proc ptr val else write_handler w proc val ptr

unfoldable pub cas_local : Words → (proc addr old new : ℕ) → Words × ℕ
cas_local w proc addr old new =
    let result = w proc addr in (if result == old then set_word w proc addr new else w, result)

-- `cas_handler`, and its reply
unfoldable pub cas_handler : Words → (proc addr old new : ℕ) → Words × ℕ
unfolding cas_local grt_word grt_word_lo grt_word_hi
cas_handler w proc addr old new =
    let r = cas_local w proc (sent addr) (sent old) (sent new) in (r.0, sent r.1)

unfoldable pub grt_cas : (grt_id : ℕ) → Words → (proc addr old new : ℕ) → Words × ℕ
unfolding cas_local cas_handler
grt_cas grt_id w proc addr old new =
    if proc == grt_id then cas_local w proc addr old new else cas_handler w proc addr old new

-- `grt_distrib_start` and `grt_distrib_range` on processor `grt_id`
unfoldable pub grt_distrib_start : (grt_num_procs n grt_id : ℕ) → ℕ
grt_distrib_start grt_num_procs n grt_id =
    grt_id * (n / grt_num_procs) + min grt_id (n % grt_num_procs)

unfoldable pub grt_distrib_range : (grt_num_procs n grt_id : ℕ) → ℕ
grt_distrib_range grt_num_procs n grt_id =
    n / grt_num_procs + (if ltb grt_id (n % grt_num_procs) then 1 else 0)
