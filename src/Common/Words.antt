-- ===== src/Common/Words.antt =====
-- Numbers that pass through the narrower types of C.
use cluster_stm.Common.{ℕ, ◌+◌, ◌-◌, ◌%◌, ◌^◌, ◌<◌, ◌≡◌, ltb, if◌then◌else◌, arith}

-- A number that was sent as a `gasnet_handlerarg_t`, which has 32 bits and a sign, as a `size_t`.
unfoldable pub handlerarg : ℕ → ℕ
handlerarg n = let w = n % 2 ^ 32 in if ltb w (2 ^ 31) then w else w + (2 ^ 64 - 2 ^ 32)

pub handlerarg_small : (n : ℕ) → n < 2 ^ 31 → handlerarg n ≡ n
unfolding handlerarg
handlerarg_small n small = ground arith
