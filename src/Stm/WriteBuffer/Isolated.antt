-- ===== src/Stm/WriteBuffer/Isolated.antt =====
-- The end of a transaction keeps the promise: others see what they saw.
use cluster_stm.Common.{
  ◌∙◌, ℕ, ◌<◌, ◌≡◌, ◌≢◌, sym, ap, refl, inl, inr, true, some, Option-cases, ==_refl, ==_ne,
  eq-or-ne,
}
use cluster_stm.Stm.Types.{write, Config, StmStatus, commit, abort}
use cluster_stm.Stm.Node.{DatasetEntry, Libs, Node, entry_of}
use cluster_stm.Stm.Finish.Entries.{ended, ended-share, ended_self, ended-other}
use cluster_stm.Stm.Locking.{Inv, Inv-exclusive, modes, mode_of}
use cluster_stm.Common.Blocks.{align_down}
use cluster_stm.Stm.Meta.{share_size_bytes}
use cluster_stm.Stm.UndoLog.View.{block_of}
use cluster_stm.Stm.WriteBuffer.View.{view}
use cluster_stm.Stm.WriteBuffer.Endings.{
  commit-view, abort-mem, ended-mem, ended-view, ended-closed, ended-Buffered,
}
use cluster_stm.Stm.WriteBuffer.Abstract.{Spec, or_else, sees, end_by}
use cluster_stm.Stm.WriteBuffer.Kept.{Keeps}

sees-end_own :
    (s : Spec) (p x : ℕ) (status : StmStatus)
    → (end_by s p status).memory x ≡ sees (end_by s p status) p x
unfolding end_by
sees-end_own s p x status = rw (==_refl p) refl

sees-end_other :
    (s : Spec) (p q x : ℕ) (status : StmStatus)
    → q ≢ p
    → or_else (s.pending q x) ((end_by s p status).memory x) ≡ sees (end_by s p status) q x
unfolding end_by
sees-end_other s p q x status ne = rw (==_ne q p ne) refl

module _ {l : Libs} (c : Config) (wb : c.write_buffering ≡ true) (procs : ℕ) (shared : ℕ → Type 0)
    (n : Node l) where
  -- Who has a block open leaves nobody else writing it.
  others_read :
      (m : Node l) (p q a : ℕ) {e : DatasetEntry}
      → Inv procs m
      → p < procs
      → q < procs
      → q ≢ p
      → entry_of m q a ≡ some e
      → modes m a p ≢ some write
  others_read m p q a inv lt lt' ne have w = elim (Option-cases (entry_of m p a)) [
    | inl gone ↦ cc (w, ap mode_of gone)
    | inr (e', held) ↦
        let both = Inv-exclusive inv a q p lt' lt ne have held in cc (w, ap mode_of held, both.1)
  ]

  module _ (p : ℕ) (lt : p < procs) (s : Spec) (m : Node l) (inv : Inv procs m)
      (k : Keeps procs shared n s m) where
    same_block : (x : ℕ) → block_of m x ≡ block_of n x
    same_block x = ap (λ w. align_down x (share_size_bytes w)) k.share

    end-bytes :
        (status : StmStatus) (x : ℕ)
        → shared x
        → (ended c status m p).mem x ≡ (end_by s p status).memory x
    unfolding end_by
    end-bytes commit x sh = commit-view c wb m p k.buffers x ∙ k.views p x lt sh
    end-bytes abort x sh = abort-mem c wb m p k.buffers x ∙ k.bytes x sh

    -- Another transaction that has the block open sees what it saw.
    end-isolated :
        (status : StmStatus) (q x : ℕ) {e : DatasetEntry}
        → q < procs
        → q ≢ p
        → shared x
        → entry_of m q (block_of m x) ≡ some e
        → ((ended c status m p).mem x ≡ m.mem x) × (view (ended c status m p) q x ≡ sees s q x)
    end-isolated status q x lt' ne sh have =
        let same =
          ended-mem c wb m p k.buffers status x
            (others_read m p q (block_of m x) inv lt lt' ne have) in
        (same, ended-view c wb m p k.buffers status q x ne same ∙ k.views q x lt' sh)

    end-views :
        (status : StmStatus) (q x : ℕ)
        → q < procs
        → shared x
        → view (ended c status m p) q x ≡ sees (end_by s p status) q x
    unfolding end_by
    end-views status q x lt' sh = elim (eq-or-ne q p) [
      | inl me ↦ rw me (
          ended-closed c wb m p k.buffers status p x (ended_self c status m p (block_of m x))
          ∙ end-bytes status x sh
          ∙ sees-end_own s p x status)
      | inr ne ↦ elim (Option-cases (entry_of m q (block_of m x))) [
        | inr (e, have) ↦
            let (same, seen) = end-isolated status q x lt' ne sh have in
            seen
            ∙ ap (or_else (s.pending q x)) (sym (k.bytes x sh) ∙ sym same ∙ end-bytes status x sh)
            ∙ sees-end_other s p q x status ne
        | inl gone ↦ elim (Option-cases (s.pending q x)) [
          | inr (v, put) ↦
              absurd
                (cc (ap mode_of gone, ap (λ a. modes m a q) (same_block x), (k.owned q x v put).1))
          | inl clean ↦
              ended-closed c wb m p k.buffers status q x
                (ended-other c status m p q (block_of m x) ne ∙ gone)
              ∙ end-bytes status x sh
              ∙ ap (λ o. or_else o ((end_by s p status).memory x)) (sym clean)
              ∙ sees-end_other s p q x status ne
        ]
      ]
    ]

    pub end-Keeps :
        (status : StmStatus) → Keeps procs shared n (end_by s p status) (ended c status m p)
    unfolding end_by
    end-Keeps status = record {
      buffers = ended-Buffered c wb m p k.buffers status;
      share = ended-share c status m p ∙ k.share;
      owned = λ q x v e. elim (eq-or-ne q p) [
        | inl me ↦ absurd (cc (rw (me, ==_refl p) at e))
        | inr ne ↦
            let (few, own) = k.owned q x v (rw (==_ne q p ne) at e) in
            (few, ap mode_of (ended-other c status m p q (block_of n x) ne) ∙ own)
      ];
      bytes = end-bytes status;
      views = end-views status;
    }
