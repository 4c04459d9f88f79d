-- ===== src/Stm/WriteBuffer/Kept.antt =====
-- One processor's memory keeps the promise of a transactional memory: puts and gets.
use mathlib.Core.Path.{subst}
use cluster_stm.Common.{
  Bool, ◌∙◌, ℕ, ◌+◌, ◌<◌, ◌≤◌, ◌≡◌, sym, ap, refl, inl, inr, true, false, some, arith, Bool-cases,
  ◌==◌, ◌&&◌, ==→eq, ==_refl, leb, ltb, if◌then◌else◌,
}
use cluster_stm.Stm.Types.{ok, read, write, Config, Status, succeed, fail, succeeded}
use cluster_stm.Stm.Node.{Buffer, Libs, Node, read_bytes, write_bytes}
use cluster_stm.Stm.Copy.{get_local, put_local}
use cluster_stm.Stm.Locking.{modes, get_local-Gives, put_local-Gives}
use cluster_stm.Common.Blocks.{align_down}
use cluster_stm.Stm.Meta.{share_size_bytes}
use cluster_stm.Stm.Node.{share_bytes}
use cluster_stm.Stm.UndoLog.Transfers.{write_bytes-outside}
use cluster_stm.Stm.WriteBuffer.Ranges.{Fits}
use cluster_stm.Stm.WriteBuffer.Reads.{Apart, write_bytes-cong}
use cluster_stm.Stm.UndoLog.View.{block_of}
use cluster_stm.Stm.WriteBuffer.Keyed.{share-IsKept}
use cluster_stm.Stm.WriteBuffer.View.{view}
use cluster_stm.Stm.WriteBuffer.Transfers.{Buffered, put_local-view, get_local-view}
use cluster_stm.Stm.WriteBuffer.Abstract.{Spec, sees, put_by}

module _ {l : Libs} (procs : ℕ) (shared : ℕ → Type 0) (n : Node l) where
  -- The node is as the promise says, and locks protect what was put.
  pub record Keeps (s : Spec) (m : Node l) : Type 0 where
    pub buffers : Buffered m
    pub share : m.share_power ≡ n.share_power
    pub owned :
        (q x v : ℕ) → s.pending q x ≡ some v → (q < procs) × (modes m (block_of n x) q ≡ some write)
    pub bytes : (x : ℕ) → shared x → m.mem x ≡ s.memory x
    pub views : (q x : ℕ) → q < procs → shared x → view m q x ≡ sees s q x

sees-put_other :
    (s : Spec) (p dest nbytes : ℕ) (buf : Buffer) (q x : ℕ)
    → q == p ≡ false
    → sees (put_by s p dest nbytes buf) q x ≡ sees s q x
unfolding put_by
sees-put_other s p dest nbytes buf q x ne = rw ne refl

sees-put_own :
    (s : Spec) (p dest nbytes : ℕ) (buf : Buffer) (x : ℕ)
    → write_bytes (sees s p) dest nbytes buf x ≡ sees (put_by s p dest nbytes buf) p x
unfolding put_by write_bytes
sees-put_own s p dest nbytes buf x = elim (Bool-cases (leb dest x && ltb x (dest + nbytes))) [
  | inl on ↦ rw (==_refl p, on) refl
  | inr off ↦ rw (==_refl p, off) refl
]

module _ {l : Libs} (c : Config) (wb : c.write_buffering ≡ true) (procs : ℕ) (shared : ℕ → Type 0)
    (n : Node l) where
  module _ (fuel p dest src nbytes : ℕ) (lt : p < procs) (s : Spec) (m m' : Node l)
      (k : Keeps procs shared n s m) where
    put-seen :
        (q x : ℕ)
        → q < procs
        → shared x
        → (if (q == p) && true
            then write_bytes (view m p) dest nbytes (read_bytes m.mem src) x
            else view m q x)
          ≡ sees (put_by s p dest nbytes (read_bytes m.mem src)) q x
    put-seen q x lt' sh = elim (Bool-cases (q == p)) [
      | inr ne ↦
          rw ne (
            k.views q x lt' sh ∙ sym (sees-put_other s p dest nbytes (read_bytes m.mem src) q x ne))
      | inl e ↦
          rw (==→eq q p e, ==_refl p)
            (write_bytes-cong (view m p) (sees s p) dest nbytes (read_bytes m.mem src)
                (read_bytes m.mem src) x (k.views p x lt sh) (λ i below. refl)
              ∙ sees-put_own s p dest nbytes (read_bytes m.mem src) x)
    ]

    pub put-Keeps :
        (status : Status)
        → Fits (share_bytes m) dest nbytes
        → put_local c fuel m p dest src nbytes ≡ ok (m', status)
        → Keeps procs shared n
            (if succeeded status then put_by s p dest nbytes (read_bytes m.mem src) else s)
            m'
    unfolding put_by
    put-Keeps fail fits h =
        let (b', mem, seen, writers, covers) =
          put_local-view c wb fuel m p k.buffers dest src nbytes m' fail fits h in
        record {
          buffers = b';
          share =
              put_local-Gives (share-IsKept n.share_power c p write) fuel m dest src nbytes k.share
                m' fail h;
          owned =
              λ q x v e. let (few, own) = k.owned q x v e in (few, writers q (block_of n x) own);
          bytes = λ x sh. ap (λ f. f x) mem ∙ k.bytes x sh;
          views = λ q x lt' sh. seen q x ∙ ground (arith, k.views q x lt' sh);
        }
    put-Keeps succeed fits h =
        let (b', mem, seen, writers, covers) =
          put_local-view c wb fuel m p k.buffers dest src nbytes m' succeed fits h in
        record {
          buffers = b';
          share =
              put_local-Gives (share-IsKept n.share_power c p write) fuel m dest src nbytes k.share
                m' succeed h;
          owned = λ q x v e. elim (Bool-cases ((q == p) && (leb dest x && ltb x (dest + nbytes)))) [
            | inr off ↦
                let (few, own) = k.owned q x v (rw off at e) in (few, writers q (block_of n x) own)
            | inl on ↦
                let me : q ≡ p = ==→eq q p (ground (arith, on)) in
                (
                  rw me lt,
                  subst (λ y. modes m' (block_of n x) y ≡ some write) (sym me)
                      (subst (λ w. modes m' (align_down x (share_size_bytes w)) p ≡ some write)
                        k.share (covers refl x (ground (arith, on)) (ground (arith, on)))),
                )
          ];
          bytes = λ x sh. ap (λ f. f x) mem ∙ k.bytes x sh;
          views = λ q x lt' sh. seen q x ∙ put-seen q x lt' sh;
        }

    pub get-Keeps :
        (status : Status)
        → Fits (share_bytes m) src nbytes
        → Apart dest src nbytes
        → ((x : ℕ) → shared x → dest ≤ x → x < dest + nbytes → ⊥)
        → get_local c fuel m p dest src nbytes ≡ ok (m', status)
        → Keeps procs shared n s m'
    get-Keeps status fits apart private h =
        let (b', mem, seen, writers) =
          get_local-view c wb fuel m p k.buffers dest src nbytes m' status fits apart h in
        record {
          buffers = b';
          share =
              get_local-Gives (share-IsKept n.share_power c p read) fuel m dest src nbytes k.share
                m' status h;
          owned =
              λ q x v e. let (few, own) = k.owned q x v e in (few, writers q (block_of n x) own);
          bytes = λ x sh.
              mem x
              ∙ kept (succeeded status) x (write_bytes-outside m.mem dest nbytes x _ (private x sh))
              ∙ k.bytes x sh;
          views = λ q x lt' sh. seen q x (private x sh) ∙ k.views q x lt' sh;
        }
      where
        kept : (t : Bool) (x : ℕ) {w : ℕ} → w ≡ m.mem x → (if t then w else m.mem x) ≡ m.mem x
        kept true x e = e
        kept false x e = refl
