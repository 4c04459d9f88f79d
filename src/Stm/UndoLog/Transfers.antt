-- ===== src/Stm/UndoLog/Transfers.antt =====
-- `stm_get` and `stm_put` where the data lies: what they do to the committed contents.
use cluster_stm.Common.{
  ◌∙◌, ℕ, ◌+◌, ◌<◌, ◌≤◌, ◌≡◌, sym, ap, refl, inl, inr, false, some, arith, Option-cases,
}
use cluster_stm.Stm.Types.{
  Run, ◌>>=◌, ok, ok-injective, >>=-eq-ok, read, write, Config, Status, succeed, fail,
}
use cluster_stm.Stm.Node.{Libs, Node, entry_of, write_bytes}
use cluster_stm.Stm.Open.{open_local}
use cluster_stm.Stm.Copy.{memcpy, copy_in, copy_out, when_opened, get_local, put_local}
use cluster_stm.Stm.Locking.{mem-Inv, modes, Guards-compatible}
use cluster_stm.Stm.UndoLog.View.{
  undo_of, undo_at-writer, undo_at-reader, committed, block_of, block_of-IsAligned, Sound,
}

pub write_bytes-outside :
    (mem : ℕ → ℕ) (dest nbytes x : ℕ) (buf : ℕ → ℕ)
    → (dest ≤ x → x < dest + nbytes → ⊥)
    → write_bytes mem dest nbytes buf x ≡ mem x
unfolding write_bytes
write_bytes-outside mem dest nbytes x buf out = ground (arith, out)

pub write_bytes-inside :
    (mem : ℕ → ℕ) (dest nbytes i : ℕ) (buf : ℕ → ℕ)
    → i < nbytes
    → write_bytes mem dest nbytes buf (dest + i) ≡ buf i
unfolding write_bytes
write_bytes-inside mem dest nbytes i buf lt = ground (arith)

module _ {l : Libs} {procs : ℕ} {n : Node l} (s : Sound procs n) where
  -- The committed contents of a block that is open for writing do not depend on memory.
  pub written-committed :
      (p x : ℕ) (mem : ℕ → ℕ)
      → p < procs
      → modes n (block_of n x) p ≡ some write
      → committed procs (record n { mem = mem }) x ≡ committed procs n x
  written-committed p x mem lt own = elim (Option-cases (undo_of (entry_of n p (block_of n x)))) [
    | inl gone ↦ absurd (s.logged p (block_of n x) own gone)
    | inr (buf, log) ↦
        rw (undo_at-writer s.locks p (block_of n x) buf lt (block_of-IsAligned n x) own log) refl
  ]

  pub memcpy-Sound : (dest src k : ℕ) → Sound procs (memcpy n dest src k)
  unfolding memcpy
  memcpy-Sound dest src k = record { locks = mem-Inv s.locks _; logged = s.logged }

  -- What a processor has open it sees as the last commit left it, if it does not write it itself.
  pub read-committed :
      (p x : ℕ) → p < procs → modes n (block_of n x) p ≡ some read → committed procs n x ≡ n.mem x
  read-committed p x lt mine =
      let g = s.locks.guarded (block_of n x) (block_of-IsAligned n x) in
      rw
        (undo_at-reader s.locks (block_of n x) (λ q k w. absurd (
          cc (
            mine,
            Guards-compatible g q p k lt (λ e. cc (ap (modes n (block_of n x)) e, mine, w)) w,
          ))))
        refl

-- Without WRITE_BUFFERING a transfer opens its range and then copies.
pub data Transfer {l : Libs} (opened : Run (Node l × Status)) (dest src nbytes : ℕ) (n' : Node l)
    (status : Status) : Type 0 where
  copied :
      (m : Node l)
      → opened ≡ ok (m, succeed)
      → memcpy m dest src nbytes ≡ n'
      → status ≡ succeed
      → Transfer opened dest src nbytes n' status
  stopped : opened ≡ ok (n', fail) → status ≡ fail → Transfer opened dest src nbytes n' status

module _ {l : Libs} (c : Config) (direct : c.write_buffering ≡ false) (dest src nbytes : ℕ)
    (n' : Node l) (status : Status) where
  transferred :
      (opened : Run (Node l × Status)) (copy : Node l → Run (Node l))
      → ((m : Node l) → copy m ≡ ok (memcpy m dest src nbytes))
      → (opened >>= λ r. when_opened r copy) ≡ ok (n', status)
      → Transfer opened dest src nbytes n' status
  unfolding when_opened
  transferred opened copy copies h = let (r, e, rest) = >>=-eq-ok opened _ h in by_status r e rest
    where
      by_status :
          (r : Node l × Status)
          → opened ≡ ok r
          → when_opened r copy ≡ ok (n', status)
          → Transfer opened dest src nbytes n' status
      by_status (m, succeed) e rest =
          let (k, done, last) = >>=-eq-ok (copy m) _ rest in
          let final : (k, succeed) ≡ (n', status) = ok-injective last in
          copied m e
            (ok-injective (sym (copies m) ∙ done) ∙ ap (λ (x : Node l × Status). x.0) final)
            (sym (ap (λ (x : Node l × Status). x.1) final))
      by_status (m, fail) e rest =
          let final : (m, fail) ≡ (n', status) = ok-injective rest in
          stopped (e ∙ ap (λ k. ok (k, fail)) (ap (λ (x : Node l × Status). x.0) final))
            (sym (ap (λ (x : Node l × Status). x.1) final))

  pub put_local-Transfer :
      (fuel p : ℕ) (n : Node l)
      → put_local c fuel n p dest src nbytes ≡ ok (n', status)
      → Transfer (open_local c fuel n p dest nbytes write) dest src nbytes n' status
  unfolding put_local copy_in
  put_local-Transfer fuel p n h =
      transferred _ (λ m. copy_in c fuel m p dest src nbytes) (λ m. rw (copy_in, direct) refl) h

  pub get_local-Transfer :
      (fuel p : ℕ) (n : Node l)
      → get_local c fuel n p dest src nbytes ≡ ok (n', status)
      → Transfer (open_local c fuel n p src nbytes read) dest src nbytes n' status
  unfolding get_local copy_out
  get_local-Transfer fuel p n h =
      transferred _ (λ m. copy_out c fuel m p dest src nbytes) (λ m. rw (copy_out, direct) refl) h
