-- ===== src/Stm/Locking/Runs.antt =====
-- `stm_get` and `stm_put` where the data lies, as sequences of the steps.
use mathlib.Core.Path.{subst}
use native.Mathlib.Nat.{add-mod_right, mul-mod_left}
use cluster_stm.Common.{
  ◌∙◌, ℕ, zero, suc, ◌+◌, ◌-◌, ◌/◌, ◌%◌, ◌^◌, ◌<◌, ◌≡◌, sym, inl, inr, true, false, ◌==◌,
  if◌then◌else◌, arith, ap, Bool-cases, ltb,
}
use cluster_stm.Stm.Types.{
  Run, ok, >>=-eq-ok, ok-injective, LockType, read, write, Config, Status, succeed, fail, succeeded,
}
use cluster_stm.Stm.Meta.{share_size_bytes}
use cluster_stm.Stm.Node.{Libs, Node, share_bytes}
use cluster_stm.Stm.Open.{open_block, open_loop, open_local}
use cluster_stm.Stm.Copy.{
  copy_chunk, copy_loop, memcpy, memcpy_wb, copy_out, copy_in, get_local, put_local, when_opened,
}
use cluster_stm.Stm.Locking.Addresses.{IsAligned}
use cluster_stm.Stm.Locking.Steps.{open_step, chunk_step, memcpy_step, Reach, later}

-- No operation changes how the metadata is laid out.
pub open_block-share :
    {l : Libs} (c : Config) (n : Node l) (p a : ℕ) (t : LockType)
    → (open_block c n p a t).0.share_power ≡ n.share_power
unfolding open_block
open_block-share c n p a read = ground arith
open_block-share c n p a write = ground arith

pub open_loop_done :
    {l : Libs} (c : Config) (fuel : ℕ) (n : Node l) (p a count limit : ℕ) (t : LockType)
    → ltb count limit ≡ false
    → open_loop c (suc fuel) n p a count limit t ≡ ok (n, succeed)
unfolding open_loop
open_loop_done c fuel n p a count limit t h = rw h

pub open_loop_more :
    {l : Libs} (c : Config) (fuel : ℕ) (n : Node l) (p a count limit : ℕ) (t : LockType)
    → ltb count limit ≡ true
    → open_loop c (suc fuel) n p a count limit t ≡ (
        if succeeded (open_block c n p a t).1
        then open_loop c fuel
            (open_block c n p a t).0
            p
            (a + share_bytes n)
            ((count + share_bytes n) % 2 ^ 32)
            limit
            t
        else ok ((open_block c n p a t).0, fail))
unfolding open_loop
open_loop_more c fuel n p a count limit t h = rw h

pub next-IsAligned : (s a : ℕ) → IsAligned s a → IsAligned s (a + share_size_bytes s)
next-IsAligned s a al = add-mod_right a (share_size_bytes s) ∙ al

-- What every result of a run has.
module _ {l : Libs} (R : Node l → Type 0) where
  abbrev pub Gives : Run (Node l × Status) → Type 0
  Gives r = (n' : Node l) (status : Status) → r ≡ ok (n', status) → R n'

  abbrev pub Copies : Run (Node l) → Type 0
  Copies r = (n' : Node l) → r ≡ ok n' → R n'

  abbrev pub OpensKeep : Config → ℕ → LockType → Type 0
  OpensKeep c p t =
      (n : Node l) (a : ℕ) → IsAligned n.share_power a → R n → R (open_block c n p a t).0

  -- What the accesses of processor `p` for one type keep: its opens and its copies, which go
  -- through the write buffers where there are any.
  pub record IsKept (c : Config) (p : ℕ) (t : LockType) : Type 0 where
    pub opens : (n : Node l) (a : ℕ) → IsAligned n.share_power a → R n → R (open_block c n p a t).0
    pub chunks :
        (n n' : Node l) (a offset prv count : ℕ)
        → copy_chunk n p a offset prv count t ≡ ok n'
        → R n
        → R n'
    pub copies :
        c.write_buffering ≡ false
        → (n : Node l) (dest src nbytes : ℕ) → R n
        → R (memcpy n dest src nbytes)

module _ {l : Libs} (R : Node l → Type 0) where
  ok-Gives : {n : Node l} (s : Status) → R n → Gives R (ok (n, s))
  ok-Gives s r n' s' h = subst R (ap (λ (x : Node l × Status). x.0) (ok-injective h)) r

  ok-Copies : {n : Node l} → R n → Copies R (ok n)
  ok-Copies r n' h = subst R (ok-injective h) r

  when_opened-Gives :
      (r : Node l × Status) (copy : Node l → Run (Node l))
      → R r.0
      → ((n : Node l) → R n → Copies R (copy n))
      → Gives R (when_opened r copy)
  unfolding when_opened
  when_opened-Gives (n, succeed) copy r by n' status h =
      let (m, copied, rest) = >>=-eq-ok (copy n) _ h in
      ok-Gives succeed (by n r m copied) n' status rest
  when_opened-Gives (n, fail) copy r by n' status h = ok-Gives fail r n' status h

module _ {l : Libs} (R : Node l → Type 0) (c : Config) (p : ℕ) (t : LockType)
    (opens : OpensKeep R c p t) where
  open_loop-Gives :
      (fuel : ℕ) (n : Node l) (a count limit : ℕ)
      → IsAligned n.share_power a
      → R n
      → Gives R (open_loop c fuel n p a count limit t)
  open_loop-Gives zero n a count limit al r = unfold open_loop in λ n' s h. absurd (cc)
  open_loop-Gives (suc fuel) n a count limit al r = elim (Bool-cases (ltb count limit)) [
    | inr done ↦ rw (open_loop_done c fuel n p a count limit t done) (ok-Gives R _ r)
    | inl more ↦
        let r' = opens n a al r in
        rw (open_loop_more c fuel n p a count limit t more)
          (elim (Bool-cases (succeeded (open_block c n p a t).1)) [
            | inl won ↦ rw won (
                open_loop-Gives fuel (open_block c n p a t).0 (a + share_bytes n)
                  ((count + share_bytes n) % 2 ^ 32) limit
                  (subst (λ s. IsAligned s (a + share_bytes n)) (sym (open_block-share c n p a t))
                    (next-IsAligned n.share_power a al))
                  r')
            | inr lost ↦ rw lost (ok-Gives R _ r')
          ])
  ]

  pub open_local-Gives :
      (fuel : ℕ) (n : Node l) (loc nbytes : ℕ) → R n → Gives R (open_local c fuel n p loc nbytes t)
  unfolding open_local
  open_local-Gives fuel n loc nbytes r =
      open_loop-Gives fuel n _ _ _ (mul-mod_left (loc / share_bytes n) (share_bytes n)) r

module _ {l : Libs} {R : Node l → Type 0} {c : Config} {p : ℕ} where
  module _ {t : LockType} (k : IsKept R c p t) where
    copy_loop-Copies :
        (fuel : ℕ) (n : Node l) (a prv num_copied nbytes : ℕ)
        → R n
        → Copies R (copy_loop fuel n p a prv num_copied nbytes t)
    unfolding copy_loop
    copy_loop-Copies zero n a prv copied nbytes r = λ n' h. absurd (cc)
    copy_loop-Copies (suc fuel) n a prv copied nbytes r = elim (Bool-cases (nbytes - copied == 0)) [
      | inl done ↦ rw done (ok-Copies R r)
      | inr more ↦ rw more (λ n' h.
          let (m, one, rest) = >>=-eq-ok _ _ h in
          copy_loop-Copies fuel m _ _ _ nbytes (k.chunks n m _ _ _ _ one r) n' rest)
    ]

    pub memcpy_wb-Copies :
        (fuel : ℕ) (n : Node l) (tx prv nbytes : ℕ)
        → R n
        → Copies R (memcpy_wb fuel n p tx prv nbytes t)
    unfolding memcpy_wb
    memcpy_wb-Copies fuel n tx prv nbytes r n' h =
        let (m, one, rest) = >>=-eq-ok _ _ h in
        copy_loop-Copies fuel m _ _ _ nbytes (k.chunks n m _ _ _ _ one r) n' rest

  copy_out-Copies :
      IsKept R c p read
      → (fuel : ℕ) (n : Node l) (dest src nbytes : ℕ) → R n
      → Copies R (copy_out c fuel n p dest src nbytes)
  unfolding copy_out
  copy_out-Copies k fuel n dest src nbytes r = elim (Bool-cases c.write_buffering) [
    | inl wb ↦ simp wb (memcpy_wb-Copies k fuel n src dest nbytes r)
    | inr direct ↦ simp direct (ok-Copies R (k.copies direct n dest src nbytes r))
  ]

  copy_in-Copies :
      IsKept R c p write
      → (fuel : ℕ) (n : Node l) (dest src nbytes : ℕ) → R n
      → Copies R (copy_in c fuel n p dest src nbytes)
  unfolding copy_in
  copy_in-Copies k fuel n dest src nbytes r = elim (Bool-cases c.write_buffering) [
    | inl wb ↦ simp wb (memcpy_wb-Copies k fuel n dest src nbytes r)
    | inr direct ↦ simp direct (ok-Copies R (k.copies direct n dest src nbytes r))
  ]

  -- What each access keeps, `stm_get` of the processor's own memory keeps, if it ends.
  pub get_local-Gives :
      IsKept R c p read
      → (fuel : ℕ) (n : Node l) (dest src nbytes : ℕ) → R n
      → Gives R (get_local c fuel n p dest src nbytes)
  unfolding get_local
  get_local-Gives k fuel n dest src nbytes r n' status h =
      let (m, opened, rest) = >>=-eq-ok (open_local c fuel n p src nbytes read) _ h in
      when_opened-Gives R m _
        (open_local-Gives R c p read k.opens fuel n src nbytes r m.0 m.1 opened)
        (λ n'' by. copy_out-Copies k fuel n'' dest src nbytes by) n' status rest

  -- The same for `stm_put`.
  pub put_local-Gives :
      IsKept R c p write
      → (fuel : ℕ) (n : Node l) (dest src nbytes : ℕ) → R n
      → Gives R (put_local c fuel n p dest src nbytes)
  unfolding put_local
  put_local-Gives k fuel n dest src nbytes r n' status h =
      let (m, opened, rest) = >>=-eq-ok (open_local c fuel n p dest nbytes write) _ h in
      when_opened-Gives R m _
        (open_local-Gives R c p write k.opens fuel n dest nbytes r m.0 m.1 opened)
        (λ n'' by. copy_in-Copies k fuel n'' dest src nbytes by) n' status rest

module _ {l : Libs} {c : Config} {procs p : ℕ} (lt : p < procs) {n₀ : Node l} where
  steps-IsKept : (t : LockType) → IsKept (Reach c procs n₀) c p t
  steps-IsKept t = record {
    opens = λ n a al r. later r (open_step p a t lt al);
    chunks = λ n n' a offset prv count e r. later r (chunk_step p a offset prv count t e);
    copies = λ _ n dest src nbytes r. later r (memcpy_step dest src nbytes);
  }

  -- When `stm_get` of the processor's own memory ends with an answer, all that it did is a sequence
  -- of steps.
  pub get_local-Reach :
      (fuel : ℕ) (n : Node l) (dest src nbytes : ℕ)
      → Reach c procs n₀ n
      → Gives (Reach c procs n₀) (get_local c fuel n p dest src nbytes)
  get_local-Reach = get_local-Gives (steps-IsKept read)

  -- When `stm_put` to the processor's own memory ends with an answer, all that it did is a sequence
  -- of steps.
  pub put_local-Reach :
      (fuel : ℕ) (n : Node l) (dest src nbytes : ℕ)
      → Reach c procs n₀ n
      → Gives (Reach c procs n₀) (put_local c fuel n p dest src nbytes)
  put_local-Reach = put_local-Gives (steps-IsKept write)
