-- ===== src/Common/Blocks.antt =====
-- Blocks of `k` addresses: the one an address lies in, and `grt_align_down`.
use native.Mathlib.Nat.{
  div-eq_of_lt-le, div-mul-le_self, lt-div-mul-add, mul-mod_left, div-add-mod',
}
use Prim.Native.Nat.{ℕ, ◌+◌, ◌*◌, ◌/◌, ◌%◌, ◌≤◌, ◌<◌}
use mathlib.Core.Path.{◌≡◌, ap, ◌∙◌}
use mathlib.Core.Bool.{◌&&◌}
use native.Mathlib.Omega.{arith}
use cluster_stm.Common.Tests.{leb, ltb, ◌==◌}

-- `grt_align_down(a, k)`
abbrev pub align_down : ℕ → ℕ → ℕ
align_down a k = a / k * k

module _ (k : ℕ) (pos : 0 < k) where
  pub align_down_bounds : (x : ℕ) → (align_down x k ≤ x) × (x < align_down x k + k)
  align_down_bounds x = (div-mul-le_self x k, lt-div-mul-add pos)

  pub align_down_mod : (x : ℕ) → align_down x k % k ≡ 0
  align_down_mod x = mul-mod_left (x / k) k

  pub align_down_eq : (a x : ℕ) → a % k ≡ 0 → a ≤ x → x < a + k → align_down x k ≡ a
  align_down_eq a x al lo hi =
      let e : a / k * k ≡ a = omega (arith, div-add-mod' a k) in
      ap (λ q. q * k) (div-eq_of_lt-le {k = a / k} k (omega (arith, e)) (omega (arith, e))) ∙ e

  -- An aligned block is the addresses that align down to it.
  pub in_block : (a x : ℕ) → a % k ≡ 0 → (leb a x && ltb x (a + k)) ≡ (align_down x k == a)
  in_block a x al = ground (arith, align_down_eq a x al, align_down_bounds x)

  -- An aligned address below another lies a whole block below it.
  pub aligned_gap : (a b : ℕ) → a % k ≡ 0 → b % k ≡ 0 → a < b → a + k ≤ b
  aligned_gap a b al bl lt = ground (arith, align_down_eq a b al, div-add-mod' b k)
