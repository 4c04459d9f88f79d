-- ===== src/Grt/Random.antt =====
-- The random numbers of Implementation/grt/grt_random.c. The code's doubles hold whole numbers
-- below 2^53 here, or such numbers times a power of 2, and are exact. What the calls return is
-- `r46 * cursorVal`, so only the cursor is modelled.
pub mod Powers
use cluster_stm.Common.{
  ℕ, zero, suc, ◌+◌, ◌-◌, ◌*◌, ◌/◌, ◌%◌, ◌^◌, ◌==◌, if◌then◌else◌, Option, none, some,
}

abbrev pub seed : ℕ
seed = 314159265

abbrev pub arand : ℕ
arand = 1220703125

-- `floor(r23 * x)`, and what is left of `x`
abbrev pub high : ℕ → ℕ
high x = x / 2 ^ 23

abbrev pub low : ℕ → ℕ
low x = x - 2 ^ 23 * high x

-- The second value of `t1`
abbrev pub cross : (x a : ℕ) → ℕ
cross x a = high a * low x + low a * high x

-- `t3`
abbrev pub partial : (x a : ℕ) → ℕ
partial x a = 2 ^ 23 * low (cross x a) + low a * low x

-- `*x` after `randlc_int` or `randlc_double`
unfoldable pub randlc : (x a : ℕ) → ℕ
randlc x a = partial x a - 2 ^ 46 * (partial x a / 2 ^ 46)

unfoldable pub grt_random_next : (cursor : ℕ) → ℕ
unfolding randlc
grt_random_next cursor = randlc cursor arand

-- `cursorVal` after `grt_random_init`: the seed is odd.
unfoldable pub grt_random_init : ℕ
unfolding grt_random_next randlc
grt_random_init = grt_random_next (if seed % 2 == 0 then seed + 1 else seed)

-- The loop of `grt_random_nth`; `none` when the fuel runs out.
unfoldable pub nth_loop : (fuel n t cursor : ℕ) → Option ℕ
unfolding randlc
nth_loop zero n t cursor = none
nth_loop (suc f) n t cursor =
    let i = n / 2 in
    let rest = nth_loop f i (randlc t t) (if 2 * i == n then cursor else randlc cursor t) in
    if n == 0 then some cursor else rest

-- The last call of `grt_random_nth`
abbrev pub then_next : Option ℕ → Option ℕ
then_next none = none
then_next (some cursor) = some (grt_random_next cursor)

-- `grt_random_nth` of an `n` that is not negative: a 64-bit `n` is 0 after 63 halvings.
unfoldable pub grt_random_nth : (n : ℕ) → Option ℕ
grt_random_nth n = then_next (nth_loop 64 n arand seed)
