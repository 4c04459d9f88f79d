-- ===== src/Stm/UndoLog/Kept.antt =====
-- What one `open_read` or `open_write` leaves as it was.
use cluster_stm.Common.{
  ◌∙◌, ℕ, ◌<◌, ◌≡◌, ◌≢◌, ap, refl, inl, inr, false, Option, none, some, eq-or-ne,
}
use cluster_stm.Stm.Types.{LockType, read, write, Config, Status, succeed}
use cluster_stm.Stm.Node.{Libs, Node, entry_of}
use cluster_stm.Stm.Open.{open_block}
use cluster_stm.Stm.Locking.{
  IsVisible, Inv, IsAligned, modes, mode_of, NoOtherHolder, open_write-succeeds_iff, open_block-Inv,
}
use cluster_stm.Stm.UndoLog.View.{undo_of, committed, IsLogged, IsOpen, Sound}
use cluster_stm.Stm.UndoLog.Opening.{
  Effect, Entered, refused, kept, reading, writing, open_block-Effect,
}
use cluster_stm.Stm.UndoLog.Opened.{Effect-committed}

-- Processor `p` only took locks on the way from `n` to `n'`.
pub record Kept {l : Libs} (procs p : ℕ) (n n' : Node l) : Type 0 where
  pub sound : Sound procs n'
  pub same : (x : ℕ) → committed procs n' x ≡ committed procs n x
  pub same_bytes : n'.mem ≡ n.mem
  pub same_blocks : n'.share_power ≡ n.share_power
  pub still : (t : LockType) (b : ℕ) → IsOpen t (modes n b p) → IsOpen t (modes n' b p)

pub Kept-refl : {l : Libs} {procs p : ℕ} {n : Node l} → Sound procs n → Kept procs p n n
Kept-refl s = record {
  sound = s;
  same = λ x. refl;
  same_bytes = refl;
  same_blocks = refl;
  still = λ t b o. o;
}

pub Kept-trans :
    {l : Libs} {procs p : ℕ} {n n' n'' : Node l}
    → Kept procs p n n'
    → Kept procs p n' n''
    → Kept procs p n n''
Kept-trans k k' = record {
  sound = k'.sound;
  same = λ x. k'.same x ∙ k.same x;
  same_bytes = k'.same_bytes ∙ k.same_bytes;
  same_blocks = k'.same_blocks ∙ k.same_blocks;
  still = λ t b o. k'.still t b (k.still t b o);
}

module _ {l : Libs} {p a : ℕ} {n n' : Node l} {t : LockType} {s : Status} where
  Effect-IsLogged : Effect n n' p a t s → IsLogged n → IsLogged n'
  Effect-IsLogged f logged q b w = elim (eq-or-ne q p) [
    | inr ne ↦ rw (f.same_entries q b (inl ne)) (logged q b (rw (f.same_entries q b (inl ne)) at w))
    | inl me ↦ elim (eq-or-ne b a) [
      | inr ne ↦
          rw (f.same_entries q b (inr ne)) (logged q b (rw (f.same_entries q b (inr ne)) at w))
      | inl there ↦ rw (me, there) (here f.entered (rw (me, there) at w))
    ]
  ]
    where
      here :
          Entered n n' p a t s
          → mode_of (entry_of n' p a) ≡ some write
          → undo_of (entry_of n' p a) ≢ none
      here (refused lost e) w = rw e (logged p a (rw e at w))
      here (kept e o) w = rw e (logged p a (rw e at w))
      here (reading k idle r) w = absurd (cc (r, w))
      here (writing k s clean r log) w = λ gone. cc (log, gone)

  Effect-still :
      Effect n n' p a t s
      → (u : LockType) (b : ℕ) → IsOpen u (modes n b p)
      → IsOpen u (modes n' b p)
  Effect-still f u b o = elim (eq-or-ne b a) [
    | inr ne ↦ rw (f.same_entries p b (inr ne)) o
    | inl there ↦ rw there (here f.entered u (rw there at o))
  ]
    where
      wider : (u : LockType) (m : Option LockType) → m ≡ some write → IsOpen u m
      wider read m w = λ gone. cc (w, gone)
      wider write m w = w

      idle-closed : (u : LockType) (m : Option LockType) → m ≡ none → IsOpen u m → ⊥
      idle-closed read m e o = o e
      idle-closed write m e o = cc (e, o)

      here :
          Entered n n' p a t s → (u : LockType) → IsOpen u (modes n a p) → IsOpen u (modes n' a p)
      here (refused lost e) u o = rw e o
      here (kept e _) u o = rw e o
      here (reading k idle r) u o = absurd (idle-closed u _ (ap mode_of idle) o)
      here (writing k s clean r log) u o = wider u _ r

  pub opened : Effect n n' p a t s → s ≡ succeed → IsOpen t (modes n' a p)
  opened f won = here f.entered
    where
      here : Entered n n' p a t s → IsOpen t (modes n' a p)
      here (refused lost e) = absurd (cc (won, lost))
      here (kept e o) = o
      here (reading k idle r) = rw k (λ gone. cc (r, gone))
      here (writing k s clean r log) = rw k r

module _ {l : Libs} {procs : ℕ} {c : Config} (v : IsVisible c) (direct : c.write_buffering ≡ false)
    (p : ℕ) (lt : p < procs) where
  open_block-alone :
      (n : Node l) (a : ℕ) (t : LockType)
      → Inv procs n
      → IsAligned n.share_power a
      → (open_block c n p a t).1 ≡ succeed
      → t ≡ write
      → NoOtherHolder procs p (modes n a)
  unfolding open_block
  open_block-alone n a read inv al won w = absurd (cc w)
  open_block-alone n a write inv al won w = (open_write-succeeds_iff v n p a lt inv al).0 won

  pub open_block-Kept :
      (n : Node l) (a : ℕ) (t : LockType)
      → Sound procs n
      → IsAligned n.share_power a
      → Kept procs p n (open_block c n p a t).0
  open_block-Kept n a t s al =
      let f = open_block-Effect v direct p a n t in
      record {
        sound = record {
          locks = open_block-Inv v p a t lt s.locks al;
          logged = Effect-IsLogged f s.logged;
        };
        same = Effect-committed f lt al (open_block-alone n a t s.locks al) f.entered;
        same_bytes = f.same_mem;
        same_blocks = f.same_share;
        still = Effect-still f;
      }
