-- ===== src/Stm/Locking/Rounds.antt =====
-- The loop of `open_local` ends: how much fuel is enough.
use Prim.Native.Nat.{min}
use native.Mathlib.Nat.{min-eq_left, min-eq_right}
use mathlib.Core.Path.{subst}
use cluster_stm.Common.{leb, sym}
use cluster_stm.Common.{Option-cases, ◌==◌, ◌-◌}
use cluster_stm.Common.Blocks.{align_down}
use cluster_stm.Stm.Node.{entry_of}
use cluster_stm.Common.{
  ℕ, zero, suc, ◌+◌, ◌%◌, ◌^◌, ◌<◌, ◌≤◌, ◌≡◌, refl, inl, inr, false, ltb, arith, Bool-cases, ltb→lt,
  ltb-false,
}
use cluster_stm.Common.Blocks.{align_down_bounds}
use cluster_stm.Stm.Types.{Run, ok, LockType, read, write, Config, Status, succeed, fail, succeeded}
use cluster_stm.Stm.Meta.{share_pos}
use cluster_stm.Stm.Node.{Libs, Node, share_bytes}
use cluster_stm.Stm.Open.{open_block, open_loop, open_local}
use cluster_stm.Stm.Copy.{
  get_local, put_local, copy_out, copy_in, when_opened, copy_chunk, copy_loop, memcpy_wb, buffer_of,
}
use cluster_stm.Stm.Locking.Runs.{open_block-share, open_loop_done, open_loop_more}

abbrev pub Ends {ℓ} : {A : Type ℓ} → Run A → Type ℓ
Ends {A = A} r = (a : A) × (r ≡ ok a)

module _ {l : Libs} (c : Config) (p : ℕ) (t : LockType) where
  open_loop-Ends :
      (fuel : ℕ) (n : Node l) (a count limit : ℕ)
      → limit < fuel + count
      → limit + share_bytes n < 2 ^ 32
      → Ends (open_loop c (suc fuel) n p a count limit t)
  open_loop-Ends zero n a count limit enough fits =
      rw (open_loop_done c zero n p a count limit t (ltb-false count limit (omega arith))) (_, refl)
  open_loop-Ends (suc fuel) n a count limit enough fits = elim (Bool-cases (ltb count limit)) [
    | inr done ↦ rw (open_loop_done c (suc fuel) n p a count limit t done) (_, refl)
    | inl more ↦ rw (open_loop_more c (suc fuel) n p a count limit t more) (
        let n' = (open_block c n p a t).0 in
        let lt = ltb→lt count limit more in
        let pos = share_pos n.share_power in
        let same = open_block-share c n p a t in
        elim (Bool-cases (succeeded (open_block c n p a t).1)) [
          | inr lost ↦ rw lost (_, refl)
          | inl won ↦ rw won (
              open_loop-Ends fuel n' (a + share_bytes n) ((count + share_bytes n) % 2 ^ 32) limit
                (omega arith) (rw same fits))
        ])
  ]

  -- `open_local` ends with an answer, in every configuration, if it has a round for each byte and
  -- for each byte of a block, and the range and a block stay below 2^32 bytes.
  pub open_local-Ends :
      (fuel : ℕ) (n : Node l) (loc nbytes : ℕ)
      → nbytes + share_bytes n ≤ fuel
      → nbytes + share_bytes n + share_bytes n < 2 ^ 32
      → Ends (open_local c (suc fuel) n p loc nbytes t)
  unfolding open_local
  open_local-Ends fuel n loc nbytes enough fits =
      let (low, high) = align_down_bounds (share_bytes n) (share_pos n.share_power) loc in
      open_loop-Ends fuel n _ 0 _ (omega arith) (omega arith)

-- A read has something to copy from in every round.
read_chunk-Ends :
    {l : Libs} (n : Node l) (p a offset prv count : ℕ)
    → Ends (copy_chunk n p a offset prv count read)
unfolding copy_chunk
read_chunk-Ends n p a offset prv count = elim (Option-cases (buffer_of (entry_of n p a))) [
  | inl e ↦ rw (copy_chunk, e) (_, refl)
  | inr (b, e) ↦ rw (copy_chunk, e) (_, refl)
]

min_pos : (a b : ℕ) → 0 < a → 0 < b → 0 < min a b
min_pos a b pa pb = elim (Bool-cases (leb a b)) [
  | inl le ↦ subst (λ k. 0 < k) (sym (min-eq_left (ground (arith, le)))) pa
  | inr gt ↦ subst (λ k. 0 < k) (sym (min-eq_right (ground (arith, gt)))) pb
]

module _ {l : Libs} (p : ℕ) where
  -- A round for each byte is enough, and one to see that none is left.
  read_loop-Ends :
      (fuel : ℕ) (n : Node l) (a prv copied nbytes : ℕ)
      → nbytes ≤ fuel + copied
      → Ends (copy_loop (suc fuel) n p a prv copied nbytes read)
  unfolding copy_loop
  read_loop-Ends zero n a prv copied nbytes enough =
      let none_left : nbytes - copied ≡ 0 = omega arith in rw none_left (n, refl)
  read_loop-Ends (suc fuel) n a prv copied nbytes enough =
      elim (Bool-cases (nbytes - copied == 0)) [
        | inl done ↦ rw done (n, refl)
        | inr more ↦
            let s = share_bytes n in
            let k = min (nbytes - copied) s in
            let pos =
              min_pos (nbytes - copied) s (ground (arith, more)) (share_pos n.share_power) in
            let (m, one) = read_chunk-Ends n p (a + s) 0 (prv + s) k in
            rw (more, one)
              (read_loop-Ends fuel m (a + s) (prv + s) (copied + k) nbytes (omega (arith, pos)))
      ]

  read_wb-Ends :
      (fuel : ℕ) (n : Node l) (tx prv nbytes : ℕ)
      → nbytes ≤ fuel
      → Ends (memcpy_wb (suc fuel) n p tx prv nbytes read)
  unfolding memcpy_wb
  read_wb-Ends fuel n tx prv nbytes enough =
      let a = align_down tx (share_bytes n) in
      let k = min nbytes (share_bytes n - (tx - a)) in
      let (m, one) = read_chunk-Ends n p a (tx - a) prv k in
      rw one (read_loop-Ends fuel m a prv k nbytes (omega arith))

module _ {l : Libs} (c : Config) (p fuel : ℕ) (n : Node l) (dest src nbytes : ℕ)
    (enough : nbytes + share_bytes n ≤ fuel)
    (fits : nbytes + share_bytes n + share_bytes n < 2 ^ 32) where
  when_opened-Ends :
      (r : Node l × Status) (copy : Node l → Run (Node l))
      → ((m : Node l) → Ends (copy m))
      → Ends (when_opened r copy)
  unfolding when_opened
  when_opened-Ends (m, succeed) copy ends = let (m', e) = ends m in ((m', succeed), rw e)
  when_opened-Ends (m, fail) copy ends = (_, refl)

  copy_out-Ends : (m : Node l) → Ends (copy_out c (suc fuel) m p dest src nbytes)
  unfolding copy_out
  copy_out-Ends m = elim (Bool-cases c.write_buffering) [
    | inl wb ↦ rw (copy_out, wb) (read_wb-Ends p fuel m src dest nbytes (omega arith))
    | inr direct ↦ rw (copy_out, direct) (_, refl)
  ]

  -- With fuel for a round for each byte and for each byte of a block, and for ranges that with two
  -- blocks more stay below 2^32 bytes: `stm_get` on the processor's own memory ends with an answer in
  -- every configuration, and `stm_put` in every one without WRITE_BUFFERING.
  pub get_local-put_local-Ends :
      Ends (get_local c (suc fuel) n p dest src nbytes)
      × Ends (put_local (record c { write_buffering = false }) (suc fuel) n p dest src nbytes)
  unfolding get_local put_local copy_in
  get_local-put_local-Ends =
      let direct = record c { write_buffering = false } in
      let (r, e) = open_local-Ends c p read fuel n src nbytes enough fits in
      let (r', e') = open_local-Ends direct p write fuel n dest nbytes enough fits in
      (
        rw (get_local, e) (when_opened-Ends r _ copy_out-Ends),
        rw (put_local, e') (when_opened-Ends r' _ (λ m. (_, refl))),
      )
