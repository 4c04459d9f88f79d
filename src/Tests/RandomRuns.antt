-- ===== src/Tests/RandomRuns.antt =====
-- The first random numbers, called one after the other and jumped to.
use cluster_stm.Common.{◌≡◌, some, refl, arith}
use cluster_stm.Grt.Random.{randlc, grt_random_next, grt_random_init, nth_loop, grt_random_nth}
use cluster_stm.Grt.Random.Powers.{repeat, grt_random_nth-next}

first_cursor : grt_random_init ≡ 55909509111989
unfolding grt_random_init grt_random_next randlc
first_cursor = refl

jump_to_fifth : grt_random_nth 5 ≡ some (repeat grt_random_next 5 grt_random_init)
unfolding grt_random_nth nth_loop grt_random_init grt_random_next randlc
jump_to_fifth = refl

grt_random_nth-next_example :
    grt_random_nth 1000000 ≡ some (repeat grt_random_next 1000000 grt_random_init)
grt_random_nth-next_example = grt_random_nth-next 1000000 (omega arith)
