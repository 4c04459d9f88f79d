-- ===== src/Stm/UndoLog/Ending.antt =====
-- Atomicity: what `stm_finish_local` does to the committed contents.
use cluster_stm.Common.{
  ◌∙◌, ℕ, ◌<◌, ◌≡◌, sym, ap, refl, ◌⊎◌, inl, inr, false, Option, none, some, arith, Option-cases,
  eq-or-ne,
}
use cluster_stm.Common.Family.{first_some-cong, first_some-none}
use cluster_stm.Stm.Types.{read, write, LockType, Config, StmStatus, commit, abort}
use cluster_stm.Stm.Node.{DatasetEntry, Libs, Node, entry_of}
use cluster_stm.Stm.Finish.{stm_finish_local}
use cluster_stm.Stm.Finish.Entries.{ended, ended-share, ended_self, ended-other}
use cluster_stm.Stm.Finish.Memory.{finished_byte, byte_from, stm_finish_local-byte}
use cluster_stm.Stm.Locking.{IsVisible, modes, mode_of, Guards-compatible, stm_finish_local-Inv}
use cluster_stm.Stm.UndoLog.View.{
  undo_of, undo_of-mode, undo_of-idle, undo_at-writer, committed, block_of, block_of-IsAligned,
  IsLogged, Sound,
}
use cluster_stm.Stm.UndoLog.Opened.{committed-cong}

-- What comes back at an abort is the undo log.
finished_byte-undo :
    (c : Config)
    → c.write_buffering ≡ false
    → (o : Option DatasetEntry) (mem : ℕ → ℕ) (a x : ℕ)
    → (finished_byte c commit o mem a x ≡ mem x)
      × (finished_byte c abort o mem a x ≡ byte_from (undo_of o) mem a x)
finished_byte-undo c direct none mem a x = (refl, refl)
finished_byte-undo c direct (some e) mem a x = (ground (arith, direct), ground (arith, direct))

module _ {l : Libs} {procs : ℕ} {c : Config} (v : IsVisible c) (direct : c.write_buffering ≡ false)
    (p : ℕ) (lt : p < procs) (n : Node l) (s : Sound procs n) where
  -- The blocks that the processor has open for writing.
  abbrev pub Wrote : ℕ → Type 0
  Wrote x = modes n (block_of n x) p ≡ some write

  ended-byte :
      (x : ℕ)
      → ((ended c commit n p).mem x ≡ n.mem x)
        × ((ended c abort n p).mem x
            ≡ byte_from (undo_of (entry_of n p (block_of n x))) n.mem (block_of n x) x)
  ended-byte x =
      let both = finished_byte-undo c direct (entry_of n p (block_of n x)) n.mem (block_of n x) x in
      (
        stm_finish_local-byte c commit n p x (s.locks.keyed p) ∙ both.0,
        stm_finish_local-byte c abort n p x (s.locks.keyed p) ∙ both.1,
      )

  ended-IsLogged : (status : StmStatus) → IsLogged (ended c status n p)
  ended-IsLogged status q b w = elim (eq-or-ne q p) [
    | inl me ↦ absurd (cc (ap mode_of (ended_self c status n p b), rw me at w))
    | inr ne ↦
        rw (ended-other c status n p q b ne)
          (s.logged q b (ap mode_of (sym (ended-other c status n p q b ne)) ∙ w))
  ]

  pub ended-Sound : (status : StmStatus) → Sound procs (ended c status n p)
  ended-Sound status = record {
    locks = stm_finish_local-Inv v p lt status s.locks;
    logged = ended-IsLogged status;
  }

  -- What the processor wrote it wrote alone: afterwards no log is left.
  Wrote-memory :
      (status : StmStatus) (x : ℕ)
      → Wrote x
      → committed procs (ended c status n p) x ≡ (ended c status n p).mem x
  Wrote-memory status x own =
      let b = block_of n x in
      let gone =
        first_some-none procs (λ q. undo_of (entry_of (ended c status n p) q b))
          (λ q k. elim (eq-or-ne q p) [
            | inl me ↦ rw me (ap undo_of (ended_self c status n p b))
            | inr ne ↦
                ap undo_of (ended-other c status n p q b ne)
                ∙ undo_of-idle (entry_of n q b) (
                    Guards-compatible (s.locks.guarded b (block_of-IsAligned n x)) p q lt k
                      (λ e. ne (sym e)) own)
          ]) in
      rw (ended-share c status n p, gone) refl

  -- What it did not write it leaves alone.
  unwritten-kept :
      (status : StmStatus) (x : ℕ)
      → (Wrote x → ⊥)
      → (ended c status n p).mem x ≡ n.mem x
      → committed procs (ended c status n p) x ≡ committed procs n x
  unwritten-kept status x idle same =
      let b = block_of n x in
      committed-cong procs n (ended c status n p) x (ended-share c status n p) same (
        first_some-cong procs _ _ (λ q k. elim (eq-or-ne q p) [
          | inl me ↦
              rw me
                (ap undo_of (ended_self c status n p b) ∙ sym (undo_of-mode (entry_of n p b) idle))
          | inr ne ↦ ap undo_of (ended-other c status n p q b ne)
        ]))

  -- The undo log of what the processor wrote is the committed contents.
  log-committed :
      (x : ℕ)
      → Wrote x
      → byte_from (undo_of (entry_of n p (block_of n x))) n.mem (block_of n x) x
        ≡ committed procs n x
  log-committed x own = elim (Option-cases (undo_of (entry_of n p (block_of n x)))) [
    | inl gone ↦ absurd (s.logged p (block_of n x) own gone)
    | inr (buf, log) ↦
        rw (log, undo_at-writer s.locks p (block_of n x) buf lt (block_of-IsAligned n x) own log)
          refl
  ]

  Wrote-cases : (x : ℕ) → Wrote x ⊎ (Wrote x → ⊥)
  Wrote-cases x = by_mode (modes n (block_of n x) p) refl
    where
      by_mode : (m : Option LockType) → modes n (block_of n x) p ≡ m → Wrote x ⊎ (Wrote x → ⊥)
      by_mode none e = inr (λ w. cc (e, w))
      by_mode (some read) e = inr (λ w. cc (e, w))
      by_mode (some write) e = inl e

  -- Without WRITE_BUFFERING, READ_VERSIONING and LATE_ACQUIRE, where the lock invariant holds and
  -- every block that is open for writing has its undo log: both still hold after `stm_finish_local`.
  -- A commit makes what is in memory the committed contents of the blocks that the transaction has
  -- open for writing, and leaves the committed contents of every other block as they were. An abort
  -- leaves all committed contents as they were, and brings them back into memory in the blocks that
  -- the transaction has open for writing.
  pub stm_finish_local-committed :
      (x : ℕ)
      → ((status : StmStatus) → Sound procs (stm_finish_local c n p status).0)
        × (Wrote x → committed procs (stm_finish_local c n p commit).0 x ≡ n.mem x)
        × ((Wrote x → ⊥)
            → committed procs (stm_finish_local c n p commit).0 x ≡ committed procs n x)
        × (committed procs (stm_finish_local c n p abort).0 x ≡ committed procs n x)
        × (Wrote x → (stm_finish_local c n p abort).0.mem x ≡ committed procs n x)
  stm_finish_local-committed x =
      let (kept, undone) = ended-byte x in
      let restored = λ (own : Wrote x). undone ∙ log-committed x own in
      (
        ended-Sound,
        λ own. Wrote-memory commit x own ∙ kept,
        λ idle. unwritten-kept commit x idle kept,
        elim (Wrote-cases x) [
          | inl own ↦ Wrote-memory abort x own ∙ restored own
          | inr idle ↦
              unwritten-kept abort x idle
                (undone ∙ ap (λ o. byte_from o n.mem (block_of n x) x) (undo_of-mode _ idle))
        ],
        restored,
      )
