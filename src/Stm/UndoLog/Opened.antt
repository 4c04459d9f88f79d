-- ===== src/Stm/UndoLog/Opened.antt =====
-- Opening blocks, one or many, leaves the committed contents as they are.
use cluster_stm.Common.{◌∙◌, ℕ, ◌<◌, ◌≡◌, ◌≢◌, sym, ap, inl, inr, none, some, arith, eq-or-ne}
use cluster_stm.Common.Family.{first_some-cong, first_some-only, first_some-none}
use cluster_stm.Common.Blocks.{align_down_bounds}
use cluster_stm.Stm.Types.{LockType, write, Status, succeed}
use cluster_stm.Stm.Meta.{share_pos}
use cluster_stm.Stm.Node.{Libs, Node, share_bytes, entry_of, read_bytes}
use cluster_stm.Stm.Locking.{IsAligned, modes, NoOtherHolder}
use cluster_stm.Stm.UndoLog.View.{undo_of, undo_of-idle, undo_of-mode, undo_at, committed, block_of}
use cluster_stm.Stm.UndoLog.Opening.{Effect, Entered, refused, kept, reading, writing}

pub committed-cong :
    {l : Libs} (procs : ℕ) (n n' : Node l) (x : ℕ)
    → n'.share_power ≡ n.share_power
    → n'.mem x ≡ n.mem x
    → undo_at procs n' (block_of n x) ≡ undo_at procs n (block_of n x)
    → committed procs n' x ≡ committed procs n x
committed-cong procs n n' x s m u = rw (s, u) (ground (arith, m))

module _ {l : Libs} {procs p a : ℕ} {n n' : Node l} {t : LockType} {s : Status}
    (f : Effect n n' p a t s) (lt : p < procs) (al : IsAligned n.share_power a) where
  abbrev pub Alone : Type 0
  Alone = s ≡ succeed → t ≡ write → NoOtherHolder procs p (modes n a)

  same_undo :
      undo_of (entry_of n' p a) ≡ undo_of (entry_of n p a)
      → (b : ℕ) → undo_at procs n' b ≡ undo_at procs n b
  same_undo e b = first_some-cong procs _ _ (λ q k. elim (eq-or-ne q p) [
    | inr ne ↦ ap undo_of (f.same_entries q b (inl ne))
    | inl here ↦ elim (eq-or-ne b a) [
      | inr ne ↦ ap undo_of (f.same_entries q b (inr ne))
      | inl there ↦ rw (here, there) e
    ]
  ])

  untouched :
      (x : ℕ)
      → undo_at procs n' (block_of n x) ≡ undo_at procs n (block_of n x)
      → committed procs n' x ≡ committed procs n x
  untouched x e = committed-cong procs n n' x f.same_share (ap (λ m. m x) f.same_mem) e

  -- The block of `x` was opened for writing: its undo log has the byte that is in memory.
  logged_byte :
      (x : ℕ)
      → block_of n x ≡ a
      → undo_at procs n a ≡ none
      → undo_at procs n' a ≡ some (read_bytes n.mem a)
      → committed procs n' x ≡ committed procs n x
  unfolding read_bytes
  logged_byte x e clean log =
      rw (f.same_share, e, clean, log)
        (ap n.mem (omega (arith, align_down_bounds (share_bytes n) (share_pos n.share_power) x, e)))

  pub Effect-committed :
      Alone → Entered n n' p a t s → (x : ℕ) → committed procs n' x ≡ committed procs n x
  Effect-committed alone (refused f e) x = untouched x (same_undo (ap undo_of e) (block_of n x))
  Effect-committed alone (kept e w) x = untouched x (same_undo (ap undo_of e) (block_of n x))
  Effect-committed alone (reading k idle r) x = untouched x (
      same_undo (undo_of-mode (entry_of n' p a) (λ w. cc (r, w)) ∙ sym (ap undo_of idle))
        (block_of n x))
  Effect-committed alone (writing wr won clean r log) x =
      let idle = λ (q : ℕ) (k : q < procs) (ne : q ≢ p).
        undo_of-idle (entry_of n q a) (alone won wr q k ne) in
      elim (eq-or-ne (block_of n x) a) [
        | inr ne ↦
            untouched x
              (first_some-cong procs _ _ (λ q k. ap undo_of (f.same_entries q _ (inr ne))))
        | inl e ↦
            logged_byte x e
              (first_some-none procs _
                (λ q k. elim (eq-or-ne q p) [ inl me ↦ rw me clean | inr ne ↦ idle q k ne ]))
              (first_some-only procs _ p (read_bytes n.mem a) lt log
                (λ q k ne. ap undo_of (f.same_entries q a (inl ne)) ∙ idle q k ne))
      ]
