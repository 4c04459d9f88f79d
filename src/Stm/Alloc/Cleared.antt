-- ===== src/Stm/Alloc/Cleared.antt =====
-- `stm_alloc_local` clears the words of the blocks that it allocates, and of no others.
use native.Mathlib.Nat.{
  mul-le-mul_right, div-add-mod', mul-div_cancel, div-mul-le_self, mod-eq_of_lt,
}
use cluster_stm.Common.{
  ℕ, ◌+◌, ◌-◌, ◌*◌, ◌/◌, ◌%◌, ◌^◌, ◌<◌, ◌≡◌, ◌∙◌, ap, refl, inl, inr, ◌&&◌, ltb, leb, if◌then◌else◌,
  arith, Bool-cases,
}
use cluster_stm.Stm.Meta.{meta_addr, share_pos}
use cluster_stm.Stm.Node.{Libs, Node, meta_at, share_bytes}
use cluster_stm.Stm.Alloc.{align_up, clear_words, stm_alloc_local}
use cluster_stm.Stm.Locking.{IsAligned, meta_offset_lem}

module _ (b : ℕ) (pos : 0 < b) where
  leb-mul : (i j : ℕ) → leb (i * b) (j * b) ≡ leb i j
  leb-mul i j = elim (Bool-cases (leb i j)) [
    | inl le ↦ ground (arith, mul-le-mul_right {m = i} {n = j} b (ground (arith, le)), le)
    | inr gt ↦ ground (arith, mul-le-mul_right {m = j + 1} {n = i} b (ground (arith, gt)), gt)
  ]

  ltb-mul : (i j : ℕ) → ltb (i * b) (j * b) ≡ ltb i j
  ltb-mul i j = elim (Bool-cases (ltb i j)) [
    | inl lt ↦ ground (arith, mul-le-mul_right {m = i + 1} {n = j} b (ground (arith, lt)), lt)
    | inr ge ↦ ground (arith, mul-le-mul_right {m = j} {n = i} b (ground (arith, ge)), ge)
  ]

-- The words of `k` blocks from block `r` on, in bytes.
words_range :
    (base b k r x : ℕ)
    → 0 < b
    → (leb (base + r * 8) (base + x * 8) && ltb (base + x * 8) (base + r * 8 + 8 * (k * b) / b))
      ≡ (leb (r * b) (x * b) && ltb (x * b) (r * b + k * b))
words_range base b k r x pos =
    let size : 8 * (k * b) / b ≡ 8 * k =
      ap (λ m. m / b) (omega arith) ∙ mul-div_cancel (8 * k) pos in
    let sum : r * b + k * b ≡ (r + k) * b = omega arith in
    rw (size, sum, leb-mul b pos r x, ltb-mul b pos x (r + k)) (ground arith)

module _ {l : Libs} (n : Node l) (owner nbytes result : ℕ) (fits : nbytes + share_bytes n < 2 ^ 32)
    (aligned : IsAligned n.share_power result) where
  -- What `grt_align_up` makes of the size does not wrap around, and is whole blocks.
  size_fits : align_up nbytes (share_bytes n) % 2 ^ 32 ≡ align_up nbytes (share_bytes n)
  unfolding align_up
  size_fits =
      let b = share_bytes n in
      let le = div-mul-le_self (nbytes + b - 1) b in
      mod-eq_of_lt (omega (arith, le, fits, share_pos n.share_power))

  word_at : (x : ℕ) → meta_at n x ≡ n.meta_base + x / share_bytes n * 8
  unfolding meta_addr
  word_at x = ap (λ o. n.meta_base + o * 8) (meta_offset_lem n.share_power x)

  -- The test on the addresses of the words is that on the addresses of the blocks.
  same_range :
      (x : ℕ)
      → IsAligned n.share_power x
      → (leb (meta_at n result) (meta_at n x)
          && ltb
              (meta_at n x)
              (meta_at n result + 8 * (align_up nbytes (share_bytes n) % 2 ^ 32) / share_bytes n))
        ≡ (leb result x && ltb x (result + align_up nbytes (share_bytes n)))
  unfolding align_up
  same_range x al =
      let b = share_bytes n in
      let k = (nbytes + b - 1) / b in
      let at_r : result / b * b ≡ result = omega (arith, div-add-mod' result b, aligned) in
      let at_x : x / b * b ≡ x = omega (arith, div-add-mod' x b, al) in
      rw (size_fits, word_at result, word_at x)
        (words_range n.meta_base b k (result / b) (x / b) (share_pos n.share_power)
          ∙ rw (at_r, at_x) refl)

  -- `stm_alloc_local` of fewer than 2^32 bytes, rounding up included, clears the metadata words of
  -- exactly those blocks that it allocates, if the allocator's answer is aligned: the word of every
  -- block in the range is zero, and the word of every other block is as it was.
  pub stm_alloc_local-clears :
      (x : ℕ)
      → IsAligned n.share_power x
      → (stm_alloc_local n owner nbytes result).meta (meta_at n x) ≡ (
          if leb result x && ltb x (result + align_up nbytes (share_bytes n))
          then 0
          else n.meta (meta_at n x))
  unfolding stm_alloc_local clear_words
  stm_alloc_local-clears x al = elim (Bool-cases (ltb 0 (n.tx_dors owner).tx_depth)) [
    | inl inside ↦ rw (stm_alloc_local, inside, clear_words, same_range x al) refl
    | inr outside ↦ rw (stm_alloc_local, outside, clear_words, same_range x al) refl
  ]
