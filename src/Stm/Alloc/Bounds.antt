-- ===== src/Stm/Alloc/Bounds.antt =====
-- The metadata of the heap lies behind it, inside the segment.
use native.Mathlib.Nat.{
  one-le-pow, div-mul-le_self, div-div-eq-div-mul, div-add-mod', mul-le-mul_right,
  lt_of_mul-lt-mul_right, le-div_iff_mul-le,
}
use cluster_stm.Common.{ℕ, ◌+◌, ◌-◌, ◌*◌, ◌/◌, ◌%◌, ◌^◌, ◌≤◌, ◌<◌, ◌≡◌, ◌∙◌, refl, ap, arith}
use cluster_stm.Stm.Meta.{meta_addr, meta_offset, share_size_bytes}
use cluster_stm.Stm.Alloc.{gasnet_heap_size, grt_heap_size, stm_meta_base}

-- Blocks of `8 * s` bytes: `h` words of heap, and `y` words of metadata before the last one.
fits_behind :
    (s q h y g x : ℕ) → q + q * s ≤ g * s * 8 → h * 8 ≤ q → y * s * 8 ≤ x → x < h * 8 → h + y < g
fits_behind s q h y g x heap cut block inside =
    let cut' : h * s * 8 ≤ q * s = omega (arith, mul-le-mul_right s cut) in
    lt_of_mul-lt-mul_right s (omega arith)

-- What `stm_init` keeps for the heap, in words.
heap_share :
    (s : ℕ)
    → 0 < s
    → let q = gasnet_heap_size * s / (1 + s) in (q + q * s ≤ gasnet_heap_size * s) × (q < 2 ^ 32)
heap_share s pos =
    let q = gasnet_heap_size * s / (1 + s) in
    let le : q * (1 + s) ≤ gasnet_heap_size * s = div-mul-le_self (gasnet_heap_size * s) (1 + s) in
    (
      omega (arith, le),
      omega (
        arith,
        lt_of_mul-lt-mul_right (1 + s) {m = q} {n = gasnet_heap_size} (omega (arith, le)),
      ),
    )

-- The place of the word of the block `k + y`, for a heap that starts with the block `k`.
placed :
    (s k y h q a : ℕ)
    → 0 < s
    → k * s * 8 < 2 ^ 63
    → (k + y) * s * 8 ≤ a
    → a < k * s * 8 + h * 8
    → q + q * s ≤ gasnet_heap_size * s
    → h * 8 ≤ q
    → q < 2 ^ 32
    → (k * s * 8 + h * 8 ≤ (k * s * 8 + h * 8 + (2 ^ 64 - k * 8)) % 2 ^ 64 + (k + y) * 8)
      × ((k * s * 8 + h * 8 + (2 ^ 64 - k * 8)) % 2 ^ 64 + (k + y) * 8 + 8
          ≤ k * s * 8 + gasnet_heap_size)
placed s k y h q a pos low own below heap cut small =
    let fits : h + y < 67108864 =
      fits_behind s q h y 67108864 (a - k * s * 8) (omega (arith, heap)) cut (omega (arith, own))
        (omega arith) in
    let first : k ≤ s * k = omega (arith, mul-le-mul_right k pos) in (omega arith, omega arith)

whole_block : (p base : ℕ) → base % share_size_bytes p ≡ 0 → base % (2 ^ p * 8) ≡ 0
unfolding share_size_bytes
whole_block p base h = h

offset_lem : (p a : ℕ) → meta_offset p a ≡ a / 2 ^ p / 8
unfolding meta_offset
offset_lem p a = refl

-- Every metadata word of the heap lies behind the heap and ends inside the segment, if the heap
-- starts at a multiple of the block's size, below `2 ^ 63`.
pub meta_addr-in_segment :
    (grt_heap_base share_power a : ℕ)
    → grt_heap_base % share_size_bytes share_power ≡ 0
    → grt_heap_base < 2 ^ 63
    → grt_heap_base ≤ a
    → a < grt_heap_base + grt_heap_size share_power
    → (grt_heap_base + grt_heap_size share_power
        ≤ meta_addr (stm_meta_base grt_heap_base share_power) share_power a)
      × (meta_addr (stm_meta_base grt_heap_base share_power) share_power a + 8
          ≤ grt_heap_base + gasnet_heap_size)
unfolding stm_meta_base grt_heap_size meta_addr
meta_addr-in_segment base p a aligned low above below =
    let s = 2 ^ p in
    let pos : 0 < s = one-le-pow p 2 (omega arith) in
    let (heap, small) = heap_share s pos in
    let q = gasnet_heap_size * s / (1 + s) in
    let whole : q % 2 ^ 32 ≡ q = omega (arith, small) in
    let size : grt_heap_size p ≡ q / 8 * 8 = ap (λ z. z / 8 * 8) whole in
    let word : meta_offset p a ≡ a / s / 8 = offset_lem p a in
    let k = base / s / 8 in
    let own = div-mul-le_self a (s * 8) in
    let at_block : base ≡ k * s * 8 = omega (
      arith,
      div-add-mod' base (s * 8),
      ap (λ b. b * (s * 8)) (div-div-eq-div-mul base s 8),
      whole_block p base aligned,
    ) in
    let later : k ≤ a / s / 8 = rw (div-div-eq-div-mul a s 8) (
      (le-div_iff_mul-le {k = s * 8} {x = base / s / 8} {y = a} (omega (arith, pos))).1
        (omega (arith, at_block))) in
    let y = a / s / 8 - k in
    let same : k + y ≡ a / s / 8 = omega (arith, later) in
    let first_word : stm_meta_base base p ≡ (k * s * 8 + q / 8 * 8 + (2 ^ 64 - k * 8)) % 2 ^ 64 =
      ap (λ z. (base + z + (2 ^ 64 - k * 8)) % 2 ^ 64) size
      ∙ ap (λ b. (b + q / 8 * 8 + (2 ^ 64 - k * 8)) % 2 ^ 64) at_block in
    let all =
      placed s k y (q / 8) q a pos (omega (arith, at_block))
        (rw same (omega (arith, own, ap (λ b. b * (s * 8)) (div-div-eq-div-mul a s 8))))
        (omega (arith, below, size, at_block)) heap (omega arith) small in
    (
      omega (arith, all.0, first_word, size, at_block, same, word),
      omega (arith, all.1, first_word, size, at_block, same, word),
    )
