-- ===== src/Stm/UndoLog/Loop.antt =====
-- `open_local` leaves the committed contents as they are, and opens every block of its range.
use mathlib.Core.Path.{subst}
use cluster_stm.Common.{
  ℕ, zero, suc, ◌+◌, ◌-◌, ◌%◌, ◌^◌, ◌<◌, ◌≤◌, ◌≡◌, sym, ap, inl, inr, false, true, arith,
  Bool-cases, ltb, ltb→lt, ltb_false→le,
}
use cluster_stm.Common.Blocks.{align_down_mod, align_down, align_down_bounds, align_down_eq}
use cluster_stm.Stm.Types.{Status-cases}
use cluster_stm.Stm.Meta.{share_size_bytes}
use cluster_stm.Stm.Types.{ok, ok-injective, LockType, Config, Status, succeed}
use cluster_stm.Stm.Meta.{share_pos}
use cluster_stm.Stm.Node.{Libs, Node, share_bytes}
use cluster_stm.Stm.Open.{open_block, open_loop, open_local}
use cluster_stm.Stm.Locking.{
  IsVisible, IsAligned, modes, open_loop_done, open_loop_more, next-IsAligned,
}
use cluster_stm.Stm.UndoLog.View.{block_of, IsOpen, Sound}
use cluster_stm.Stm.UndoLog.Opening.{open_block-Effect}
use cluster_stm.Stm.UndoLog.Kept.{Kept, Kept-refl, Kept-trans, opened, open_block-Kept}

module _ {l : Libs} {procs : ℕ} {c : Config} (v : IsVisible c) (direct : c.write_buffering ≡ false)
    (p : ℕ) (lt : p < procs) (t : LockType) where
  -- The blocks of the addresses from `a` to `a + size` are open.
  abbrev pub Covers : Node l → (a size : ℕ) → Type 0
  Covers n a size = (x : ℕ) → a ≤ x → x < a + size → IsOpen t (modes n (block_of n x) p)

  abbrev pub Outcome : Node l → (a size : ℕ) → Node l × Status → Type 0
  Outcome n a size r = Kept procs p n r.0 × (r.1 ≡ succeed → Covers r.0 a size)

  -- The first block is open, and the rest of the range is.
  Covers-next :
      (n : Node l) (k a size rest : ℕ)
      → share_bytes n ≡ k
      → IsAligned n.share_power a
      → IsOpen t (modes n a p)
      → Covers n (a + k) rest
      → size ≤ k + rest
      → Covers n a size
  Covers-next n k a size rest same al o cov fits x lo hi = elim (Bool-cases (ltb x (a + k))) [
    | inl near ↦
        rw
          (align_down_eq (share_bytes n) (share_pos n.share_power) a x al lo
            (omega (arith, ltb→lt x (a + k) near, same)))
          o
    | inr far ↦ let le = ltb_false→le x (a + k) far in cov x le (omega (arith, le, hi, fits))
  ]

  -- One round that opened its block, and then the rest of the loop.
  Outcome-next :
      (n : Node l) (a count limit : ℕ)
      → Sound procs n
      → IsAligned n.share_power a
      → limit + share_bytes n < 2 ^ 32
      → ltb count limit ≡ true
      → (open_block c n p a t).1 ≡ succeed
      → (r : Node l × Status)
      → Outcome
          (open_block c n p a t).0
          (a + share_bytes n)
          (limit - (count + share_bytes n) % 2 ^ 32)
          r
      → Outcome n a (limit - count) r
  Outcome-next n a count limit s al fits more won r (k, cov) =
      let both = Kept-trans (open_block-Kept v direct p lt n a t s al) k in
      (
        both,
        λ ended.
            Covers-next r.0 (share_bytes n) a (limit - count)
              (limit - (count + share_bytes n) % 2 ^ 32) (ap share_size_bytes both.same_blocks)
              (rw both.same_blocks al)
              (k.still t a (opened (open_block-Effect v direct p a n t) won)) (cov ended)
              (omega (arith, ltb→lt count limit more, fits)),
      )

  open_loop-Outcome :
      (fuel : ℕ) (n : Node l) (a count limit : ℕ)
      → Sound procs n
      → IsAligned n.share_power a
      → limit + share_bytes n < 2 ^ 32
      → (r : Node l × Status) → open_loop c fuel n p a count limit t ≡ ok r
      → Outcome n a (limit - count) r
  open_loop-Outcome zero n a count limit s al fits r h = unfold open_loop in absurd (cc h)
  open_loop-Outcome (suc fuel) n a count limit s al fits r h =
      let n₁ = (open_block c n p a t).0 in
      let one = open_block-Kept v direct p lt n a t s al in
      let next = a + share_bytes n in
      elim (Bool-cases (ltb count limit)) [
        | inr done ↦
            let e = ok-injective (rw (open_loop_done c fuel n p a count limit t done) at h) in
            subst (Outcome n a (limit - count)) e (
              Kept-refl s,
              λ won x lo hi. absurd (omega (arith, lo, hi, ltb_false→le count limit done)),
            )
        | inl more ↦
            let h' = rw (open_loop_more c fuel n p a count limit t more) at h in
            elim (Status-cases (open_block c n p a t).1) [
              | inr lost ↦
                  subst (Outcome n a (limit - count)) (ok-injective (rw lost at h'))
                    (one, λ won. absurd (cc won))
              | inl won ↦ Outcome-next n a count limit s al fits more won r (
                  open_loop-Outcome fuel n₁ next ((count + share_bytes n) % 2 ^ 32) limit one.sound
                    (subst (λ w. IsAligned w next) (sym one.same_blocks)
                      (next-IsAligned n.share_power a al))
                    (rw one.same_blocks fits) r (rw won at h'))
            ]
      ]

  pub open_local-Outcome :
      (fuel : ℕ) (n : Node l) (loc nbytes : ℕ)
      → Sound procs n
      → nbytes + share_bytes n + share_bytes n < 2 ^ 32
      → (r : Node l × Status) → open_local c fuel n p loc nbytes t ≡ ok r
      → Outcome n loc nbytes r
  unfolding open_local
  open_local-Outcome fuel n loc nbytes s fits r h =
      let (low, high) = align_down_bounds (share_bytes n) (share_pos n.share_power) loc in
      let (k, cov) =
        open_loop-Outcome fuel n (align_down loc (share_bytes n)) 0 _ s
          (align_down_mod (share_bytes n) (share_pos n.share_power) loc)
          (omega (arith, low, high, fits)) r h in
      (k, λ won x lo hi. cov won x (omega (arith, lo, low)) (omega (arith, hi, low)))
