-- ===== src/Stm/Meta.antt =====
-- Metadata words: the macros of stm-distrib.c on a 64-bit `grt_word_t`, and where a word lies.
-- The low bit is the write bit; the rest is the writer, the number of readers or a version.
use native.Mathlib.Nat.{one-le-pow}
use cluster_stm.Common.{◌<◌, ℕ, ◌+◌, ◌-◌, ◌*◌, ◌/◌, ◌%◌, ◌^◌, ◌≡◌, Bool, true, ◌==◌, arith}

abbrev pub word_mod : ℕ
word_mod = 2 ^ 64

unfoldable pub test_write_bit : ℕ → Bool
test_write_bit m = m % 2 == 1

-- `m | 1`
unfoldable pub set_write_bit : ℕ → ℕ
set_write_bit m = m + (1 - m % 2)

-- `m & ~1`
unfoldable pub clear_write_bit : ℕ → ℕ
clear_write_bit m = m - m % 2

unfoldable pub num_readers : ℕ → ℕ
num_readers m = m / 2

unfoldable pub inc_readers : ℕ → ℕ
inc_readers m = (m + 2) % word_mod

unfoldable pub dec_readers : ℕ → ℕ
dec_readers m = (m + word_mod - 2) % word_mod

unfoldable pub writer_id : ℕ → ℕ
writer_id m = m / 2

-- A writer's word: the write bit is set, and the writer is read back.
pub writer_id-set_write_bit :
    (p : ℕ)
    → (test_write_bit (set_write_bit (p * 2)) ≡ true) × (writer_id (set_write_bit (p * 2)) ≡ p)
unfolding test_write_bit set_write_bit writer_id
writer_id-set_write_bit p = (ground arith, omega arith)

-- `STM_SHARE_SIZE_BYTES`, for powers below 31, for which the shift of an `int` is defined.
unfoldable pub share_size_bytes : ℕ → ℕ
share_size_bytes share_power = 2 ^ share_power * 8

pub share_pos : (s : ℕ) → 0 < share_size_bytes s
unfolding share_size_bytes
share_pos s = omega (arith, one-le-pow s 2 (omega arith))

unfoldable pub meta_offset : ℕ → ℕ → ℕ
meta_offset share_power addr = addr / 2 ^ share_power / 8

-- The address of a word: pointer arithmetic on 8-byte words.
unfoldable pub meta_addr : (base share_power addr : ℕ) → ℕ
unfolding meta_offset
meta_addr base share_power addr = base + meta_offset share_power addr * 8
