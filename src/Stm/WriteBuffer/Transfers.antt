-- ===== src/Stm/WriteBuffer/Transfers.antt =====
-- With WRITE_BUFFERING, what `stm_put` and `stm_get` where the data lies do to what is seen.
use mathlib.Core.Path.{subst}
use cluster_stm.Common.{some}
use cluster_stm.Common.Blocks.{align_down}
use cluster_stm.Stm.Meta.{share_size_bytes}
use cluster_stm.Stm.Locking.{modes, mode_of}
use cluster_stm.Stm.UndoLog.View.{block_of}
use cluster_stm.Common.{
  ◌∙◌, ℕ, ◌+◌, ◌<◌, ◌≤◌, ◌≡◌, sym, ap, none, inl, inr, true, eq-or-ne, ◌&&◌, ◌==◌, ==_refl, ==_ne,
  if◌then◌else◌, arith,
}
use cluster_stm.Stm.Types.{
  Run, ◌>>=◌, ok, ok-injective, >>=-eq-ok, read, write, Config, Status, succeed, fail, succeeded,
}
use cluster_stm.Stm.Node.{
  init_tx_dor, TxDor, entry_of, Libs, Node, share_bytes, read_bytes, write_bytes,
}
use cluster_stm.Stm.Open.{open_local}
use cluster_stm.Stm.Copy.{copy_in, copy_out, when_opened, get_local, put_local}
use cluster_stm.Stm.Locking.{IsAligned, IsFresh}
use cluster_stm.Stm.UndoLog.Transfers.{write_bytes-outside}
use cluster_stm.Stm.WriteBuffer.Keyed.{AllKeyed}
use cluster_stm.Stm.WriteBuffer.View.{view, AllPlain, Unseen}
use cluster_stm.Stm.WriteBuffer.Opens.{open_local-Unseen}
use cluster_stm.Stm.WriteBuffer.Ranges.{Fits}
use cluster_stm.Stm.WriteBuffer.Writes.{memcpy_wb-Written}
use cluster_stm.Stm.WriteBuffer.Reads.{Apart, write_bytes-cong, memcpy_wb-Fetched, view-mem}

-- Every dataset holds whole blocks, and no write buffer for a block that was only read.
pub record Buffered {l : Libs} (n : Node l) : Type 0 where
  pub keyed : AllKeyed n
  pub plain : AllPlain n

pub fresh_entry : {l : Libs} {n : Node l} → IsFresh n → (q a : ℕ) → entry_of n q a ≡ none
unfolding init_tx_dor
fresh_entry {l} f q a =
    ap (λ (d : TxDor l). l.datasets.get d.dataset a) (f.descriptors q) ∙ l.datasets.get-init a

pub fresh-Buffered : {l : Libs} {n : Node l} → IsFresh n → Buffered n
fresh-Buffered {l} {n} f = record {
  keyed = λ q a e h. absurd (cc (fresh_entry f q a, h));
  plain = λ q a e h. absurd (cc (fresh_entry f q a, h));
}

pub Buffered-same :
    {l : Libs} (n n' : Node l)
    → Buffered n
    → n'.tx_dors ≡ n.tx_dors
    → n'.share_power ≡ n.share_power
    → Buffered n'
Buffered-same {l} n n' b dors share = record {
  keyed = λ q a e h.
      subst (λ s. IsAligned s a) (sym share)
        (b.keyed q a e (ap (λ d. l.datasets.get (d q).dataset a) (sym dors) ∙ h));
  plain = λ q a e h. b.plain q a e (ap (λ d. l.datasets.get (d q).dataset a) (sym dors) ∙ h);
}

-- A transfer opens its range and then copies.
data Transfer {l : Libs} (opened : Run (Node l × Status)) (copy : Node l → Run (Node l))
    (n' : Node l) (status : Status) : Type 0 where
  copied :
      (m : Node l)
      → opened ≡ ok (m, succeed)
      → copy m ≡ ok n'
      → status ≡ succeed
      → Transfer opened copy n' status
  stopped : opened ≡ ok (n', fail) → status ≡ fail → Transfer opened copy n' status

transferred :
    {l : Libs} (opened : Run (Node l × Status)) (copy : Node l → Run (Node l)) (n' : Node l)
    (status : Status)
    → (opened >>= λ r. when_opened r copy) ≡ ok (n', status)
    → Transfer opened copy n' status
unfolding when_opened
transferred {l} opened copy n' status h =
    let (r, e, rest) = >>=-eq-ok opened _ h in by_status r e rest
  where
    by_status :
        (r : Node l × Status)
        → opened ≡ ok r
        → when_opened r copy ≡ ok (n', status)
        → Transfer opened copy n' status
    by_status (m, succeed) e rest =
        let (k, done, last) = >>=-eq-ok (copy m) _ rest in
        let final : (k, succeed) ≡ (n', status) = ok-injective last in
        copied m e (done ∙ ap (λ (x : Node l × Status). ok x.0) final)
          (sym (ap (λ (x : Node l × Status). x.1) final))
    by_status (m, fail) e rest =
        let final : (m, fail) ≡ (n', status) = ok-injective rest in
        stopped (e ∙ ap (λ (x : Node l × Status). ok (x.0, fail)) final)
          (sym (ap (λ (x : Node l × Status). x.1) final))

module _ {l : Libs} (c : Config) (wb : c.write_buffering ≡ true) (fuel : ℕ) (n : Node l) (p : ℕ)
    (b : Buffered n) (dest src nbytes : ℕ) (n' : Node l) (status : Status) where
  -- What a put may do to what is seen.
  abbrev Put : Node l → Type 0
  Put m =
      Buffered m
      × (m.mem ≡ n.mem)
      × ((q x : ℕ)
          → view m q x ≡ (
              if (q == p) && succeeded status
              then write_bytes (view n p) dest nbytes (read_bytes n.mem src) x
              else view n q x))
      × ((q a : ℕ) → modes n a q ≡ some write → modes m a q ≡ some write)
      × (status ≡ succeed
          → (x : ℕ) → dest ≤ x
          → x < dest + nbytes
          → modes m (block_of n x) p ≡ some write)

  -- What a get may do.
  abbrev Got : Node l → Type 0
  Got m =
      Buffered m
      × ((x : ℕ)
          → m.mem x ≡ (
              if succeeded status
              then write_bytes n.mem dest nbytes (λ i. view n p (src + i)) x
              else n.mem x))
      × ((q x : ℕ) → (dest ≤ x → x < dest + nbytes → ⊥) → view m q x ≡ view n q x)
      × ((q a : ℕ) → modes n a q ≡ some write → modes m a q ≡ some write)

  -- With WRITE_BUFFERING, for a range that starts at a block or lies within one: when `stm_put` of
  -- the processor's own memory ends with an answer, memory is as it was, and if it succeeded, the
  -- transaction sees the bytes that were put, in their range, and has all of the range's blocks open
  -- for writing. Nothing else that the transaction sees has changed, and nothing that another one
  -- sees, nor anything at all if it failed. What was open for writing still is.
  pub put_local-view :
      Fits (share_bytes n) dest nbytes
      → put_local c fuel n p dest src nbytes ≡ ok (n', status)
      → Buffered n'
        × (n'.mem ≡ n.mem)
        × ((q x : ℕ)
            → view n' q x ≡ (
                if (q == p) && succeeded status
                then write_bytes (view n p) dest nbytes (read_bytes n.mem src) x
                else view n q x))
        × ((q a : ℕ) → modes n a q ≡ some write → modes n' a q ≡ some write)
        × (status ≡ succeed
            → (x : ℕ) → dest ≤ x
            → x < dest + nbytes
            → modes n' (block_of n x) p ≡ some write)
  unfolding put_local copy_in
  put_local-view fits h = go (transferred _ (λ m. copy_in c fuel m p dest src nbytes) n' status h)
    where
      seen :
          (m : Node l) (s : Status)
          → open_local c fuel n p dest nbytes write ≡ ok (m, s)
          → Unseen n m
      seen = open_local-Unseen c wb n p fuel dest nbytes write b.keyed b.plain

      go :
          Transfer
            (open_local c fuel n p dest nbytes write)
            (λ m. copy_in c fuel m p dest src nbytes)
            n'
            status
          → Put n'
      go (stopped e lost) =
          let u = seen n' fail e in
          (
            record { keyed = u.untouched.keyed; plain = u.plain },
            u.untouched.same_mem,
            λ q x. u.same_view q x ∙ ground (arith, lost),
            u.writers,
            λ won. absurd (cc (won, lost)),
          )
      go (copied m e done won) =
          let u = seen m succeed e in
          let w =
            memcpy_wb-Written p fuel m dest src nbytes u.untouched.keyed u.plain
              (rw u.untouched.same_share fits) (rw (copy_in, wb) at done) in
          (
            record { keyed = w.untouched.keyed; plain = w.plain },
            w.untouched.same_mem ∙ u.untouched.same_mem,
            λ q x. elim (eq-or-ne q p) [
              | inl me ↦
                  rw (me, won, ==_refl p)
                    (w.mine x
                      ∙ write_bytes-cong (view m p) (view n p) dest nbytes _ _ x (u.same_view p x)
                          (λ i below. ap (λ mem. read_bytes mem src i) u.untouched.same_mem))
              | inr ne ↦ rw (==_ne q p ne) (w.others q x ne ∙ u.same_view q x)
            ],
            λ q a h. w.writers q a (u.writers q a h),
            λ _ x lo hi.
                subst (λ s. modes n' (align_down x (share_size_bytes s)) p ≡ some write)
                  u.untouched.same_share (w.held x lo hi),
          )

  -- In the same configurations, for a range that starts at a block or lies within one and that the
  -- destination does not meet: when `stm_get` of the processor's own memory ends with an answer, if
  -- it succeeded, the bytes that the transaction sees in the range have come to the destination,
  -- and everything else in memory is as it was, as all of it is if it failed. What anybody sees
  -- outside the destination is as it was, and what was open for writing still is.
  pub get_local-view :
      Fits (share_bytes n) src nbytes
      → Apart dest src nbytes
      → get_local c fuel n p dest src nbytes ≡ ok (n', status)
      → Buffered n'
        × ((x : ℕ)
            → n'.mem x ≡ (
                if succeeded status
                then write_bytes n.mem dest nbytes (λ i. view n p (src + i)) x
                else n.mem x))
        × ((q x : ℕ) → (dest ≤ x → x < dest + nbytes → ⊥) → view n' q x ≡ view n q x)
        × ((q a : ℕ) → modes n a q ≡ some write → modes n' a q ≡ some write)
  unfolding get_local copy_out
  get_local-view fits apart h =
      go (transferred _ (λ m. copy_out c fuel m p dest src nbytes) n' status h)
    where
      seen :
          (m : Node l) (s : Status) → open_local c fuel n p src nbytes read ≡ ok (m, s) → Unseen n m
      seen = open_local-Unseen c wb n p fuel src nbytes read b.keyed b.plain

      go :
          Transfer
            (open_local c fuel n p src nbytes read)
            (λ m. copy_out c fuel m p dest src nbytes)
            n'
            status
          → Got n'
      go (stopped e lost) =
          let u = seen n' fail e in
          (
            record { keyed = u.untouched.keyed; plain = u.plain },
            λ x. ap (λ mem. mem x) u.untouched.same_mem ∙ ground (arith, lost),
            λ q x out. u.same_view q x,
            u.writers,
          )
      go (copied m e done won) =
          let u = seen m succeed e in
          let w =
            memcpy_wb-Fetched p fuel m src dest nbytes (rw u.untouched.same_share fits) apart
              (rw (copy_out, wb) at done) in
          (
            Buffered-same m n' (record { keyed = u.untouched.keyed; plain = u.plain }) w.same_dors
                w.same_share,
            λ x. rw won (
                w.bytes x
                ∙ write_bytes-cong m.mem n.mem dest nbytes _ _ x
                    (ap (λ mem. mem x) u.untouched.same_mem) (λ i below. u.same_view p (src + i))),
            λ q x out.
                view-mem m n' q x w.same_dors w.same_share
                  (w.bytes x ∙ write_bytes-outside m.mem dest nbytes x _ out)
                ∙ u.same_view q x,
            λ q a h.
                ap (λ d. mode_of (l.datasets.get (d q).dataset a)) w.same_dors ∙ u.writers q a h,
          )
