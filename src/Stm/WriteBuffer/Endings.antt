-- ===== src/Stm/WriteBuffer/Endings.antt =====
-- With WRITE_BUFFERING, what the end of a transaction leaves to be seen.
use cluster_stm.Common.{
  ◌∙◌, ℕ, ◌≡◌, ◌≢◌, sym, ap, refl, inl, inr, true, none, some, Option, eq-or-ne,
}
use mathlib.Core.Path.{subst}
use cluster_stm.Stm.Types.{write, commit, abort, StmStatus, Config}
use cluster_stm.Stm.Node.{DatasetEntry, Libs, Node, entry_of}
use cluster_stm.Stm.Copy.{buffer_of}
use cluster_stm.Stm.Finish.Entries.{ended, ended-share, ended_self, ended-other}
use cluster_stm.Stm.Finish.Memory.{byte_from, finished_byte, stm_finish_local-byte}
use cluster_stm.Stm.Locking.{IsAligned, modes, mode_of, type-cases}
use cluster_stm.Stm.UndoLog.View.{block_of}
use cluster_stm.Stm.WriteBuffer.View.{buffer_at, view, byte_from-cong}
use cluster_stm.Stm.WriteBuffer.Transfers.{Buffered}

module _ {l : Libs} (c : Config) (wb : c.write_buffering ≡ true) (n : Node l) (p : ℕ)
    (b : Buffered n) where
  -- A commit makes memory what the transaction has seen.
  pub commit-view : (x : ℕ) → (ended c commit n p).mem x ≡ view n p x
  commit-view x =
      stm_finish_local-byte c commit n p x (b.keyed p) ∙ go (entry_of n p (block_of n x)) refl
    where
      go :
          (o : Option DatasetEntry)
          → entry_of n p (block_of n x) ≡ o
          → finished_byte c commit o n.mem (block_of n x) x
            ≡ byte_from (buffer_of o) n.mem (block_of n x) x
      go none h = refl
      go (some e) h = elim (type-cases e.type) [
        | inl w ↦ rw (w, wb) refl
        | inr r ↦ rw (r, b.plain p (block_of n x) e h r) refl
      ]

  -- An abort leaves memory as it is.
  pub abort-mem : (x : ℕ) → (ended c abort n p).mem x ≡ n.mem x
  abort-mem x = stm_finish_local-byte c abort n p x (b.keyed p) ∙ go (entry_of n p (block_of n x))
    where
      go : (o : Option DatasetEntry) → finished_byte c abort o n.mem (block_of n x) x ≡ n.mem x
      go none = refl
      go (some e) = elim (type-cases e.type) [ inl w ↦ rw (w, wb) refl | inr r ↦ rw r refl ]

  module _ (status : StmStatus) where
    -- Where the transaction does not write, its end leaves memory as it is.
    pub ended-mem :
        (x : ℕ) → modes n (block_of n x) p ≢ some write → (ended c status n p).mem x ≡ n.mem x
    ended-mem x idle =
        stm_finish_local-byte c status n p x (b.keyed p) ∙ go (entry_of n p (block_of n x)) idle
      where
        go :
            (o : Option DatasetEntry)
            → mode_of o ≢ some write
            → finished_byte c status o n.mem (block_of n x) x ≡ n.mem x
        go none h = refl
        go (some e) h = elim (type-cases e.type) [
          | inl w ↦ absurd (h (ap some w))
          | inr r ↦ rw r refl
        ]

    view_at :
        (q x : ℕ)
        → view (ended c status n p) q x
          ≡ byte_from
              (buffer_at (ended c status n p) q (block_of n x))
              (ended c status n p).mem
              (block_of n x)
              x
    view_at q x = rw (ended-share c status n p) refl

    -- The other transactions keep their buffers.
    pub ended-view :
        (q x : ℕ)
        → q ≢ p
        → (ended c status n p).mem x ≡ n.mem x
        → view (ended c status n p) q x ≡ view n q x
    ended-view q x ne same =
        view_at q x
        ∙ byte_from-cong (buffer_at (ended c status n p) q (block_of n x))
            (buffer_at n q (block_of n x)) _ _ (block_of n x) x
            (ap buffer_of (ended-other c status n p q (block_of n x) ne)) same

    -- Who does not have the block open sees memory.
    pub ended-closed :
        (q x : ℕ)
        → entry_of (ended c status n p) q (block_of n x) ≡ none
        → view (ended c status n p) q x ≡ (ended c status n p).mem x
    ended-closed q x gone =
        view_at q x
        ∙ ap (λ o. byte_from (buffer_of o) (ended c status n p).mem (block_of n x) x) gone

    pub ended-Buffered : Buffered (ended c status n p)
    ended-Buffered = record {
      keyed = λ q a e h.
          subst (λ s. IsAligned s a) (sym (ended-share c status n p))
            (elim (eq-or-ne q p) [
              | inl me ↦ absurd (cc (ended_self c status n p a, rw me at h))
              | inr ne ↦ b.keyed q a e (sym (ended-other c status n p q a ne) ∙ h)
            ]);
      plain = λ q a e h. elim (eq-or-ne q p) [
        | inl me ↦ absurd (cc (ended_self c status n p a, rw me at h))
        | inr ne ↦ b.plain q a e (sym (ended-other c status n p q a ne) ∙ h)
      ];
    }
