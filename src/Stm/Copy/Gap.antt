-- ===== src/Stm/Copy/Gap.antt =====
-- Where `memcpy_wb` writes when it reads from the transactional store.
use mathlib.Core.Path.{subst}
use cluster_stm.Common.{
  ℕ, zero, suc, ◌+◌, ◌-◌, ◌<◌, ◌≤◌, ◌≡◌, ◌∙◌, ◌⊎◌, refl, sym, ap, inl, inr, ◌==◌, arith, Bool-cases,
  Option-cases,
}
use cluster_stm.Common.Blocks.{align_down}
use cluster_stm.Stm.Meta.{share_pos}
use cluster_stm.Stm.Types.{ok, ok-injective, >>=-eq-ok, read}
use cluster_stm.Stm.Node.{Buffer, Libs, Node, share_bytes, entry_of, write_bytes}
use cluster_stm.Stm.Copy.{buffer_of, copy_chunk, copy_loop, memcpy_wb, memcpy}

write_bytes-outside :
    (mem : ℕ → ℕ) (dest k : ℕ) (src : Buffer) (x : ℕ)
    → (x < dest) ⊎ (dest + k ≤ x)
    → write_bytes mem dest k src x ≡ mem x
unfolding write_bytes
write_bytes-outside mem dest k src x h = ground arith

module _ {l : Libs} (p : ℕ) where
  -- A chunk that is read is written to `count` bytes from `prv` on.
  copy_chunk-outside :
      (n : Node l) {n' : Node l} (a offset prv count x : ℕ)
      → copy_chunk n p a offset prv count read ≡ ok n'
      → (x < prv) ⊎ (prv + count ≤ x)
      → (n'.mem x ≡ n.mem x) × (n'.share_power ≡ n.share_power)
  unfolding copy_chunk memcpy
  copy_chunk-outside n a offset prv count x h out =
      elim (Option-cases (buffer_of (entry_of n p a))) [
        | inl e ↦
            subst (λ (m : Node l). (m.mem x ≡ n.mem x) × (m.share_power ≡ n.share_power))
              (ok-injective (rw (e, copy_chunk) at h))
              (write_bytes-outside n.mem prv count _ x out, refl)
        | inr (b, e) ↦
            subst (λ (m : Node l). (m.mem x ≡ n.mem x) × (m.share_power ≡ n.share_power))
              (ok-injective (rw (e, copy_chunk) at h))
              (write_bytes-outside n.mem prv count _ x out, refl)
      ]

  -- The loop writes a block's size above its private pointer and higher.
  copy_loop-below :
      (fuel : ℕ) (n : Node l) {n' : Node l} (a prv k nbytes x : ℕ)
      → copy_loop fuel n p a prv k nbytes read ≡ ok n'
      → x < prv + share_bytes n
      → n'.mem x ≡ n.mem x
  unfolding copy_loop
  copy_loop-below zero n a prv k nbytes x h lt = absurd (cc)
  copy_loop-below (suc fuel) n a prv k nbytes x h lt = elim (Bool-cases (nbytes - k == 0)) [
    | inl done ↦ ap (λ (m : Node l). m.mem x) (sym (ok-injective (rw (done, copy_loop) at h)))
    | inr more ↦
        let (m, one, rest) = >>=-eq-ok _ _ (rw (more, copy_loop) at h) in
        let kept = copy_chunk-outside n _ _ _ _ x one (inl lt) in
        copy_loop-below fuel m _ _ _ nbytes x rest (rw kept.1 (omega arith)) ∙ kept.0
  ]

  -- When `memcpy_wb` ends for a read that starts inside a block and runs past its end, it has left a
  -- hole: the byte of the private buffer behind the first chunk is not written.
  pub memcpy_wb-gap :
      (fuel : ℕ) (n : Node l) {n' : Node l} (tx prv nbytes : ℕ)
      → align_down tx (share_bytes n) < tx
      → align_down tx (share_bytes n) + share_bytes n < tx + nbytes
      → memcpy_wb fuel n p tx prv nbytes read ≡ ok n'
      → n'.mem (prv + (align_down tx (share_bytes n) + share_bytes n - tx))
        ≡ n.mem (prv + (align_down tx (share_bytes n) + share_bytes n - tx))
  unfolding memcpy_wb
  memcpy_wb-gap fuel n tx prv nbytes inside past h =
      let (m, one, rest) = >>=-eq-ok _ _ h in
      let kept = copy_chunk-outside n _ _ _ _ _ one (inr (omega arith)) in
      copy_loop-below fuel m _ _ _ nbytes _ rest
        (rw kept.1 (omega (arith, share_pos n.share_power)))
      ∙ kept.0
