-- ===== src/Stm/UndoLog/View.antt =====
-- The committed contents of a processor's memory: without WRITE_BUFFERING, what the undo logs of
-- the transactions that are under way would bring back.
use cluster_stm.Common.{ℕ, ◌<◌, ◌≡◌, ◌≢◌, sym, ap, refl, Option, none, some, if◌then◌else◌}
use cluster_stm.Common.Family.{first_some, first_some-none, first_some-only}
use cluster_stm.Common.Blocks.{align_down, align_down_mod}
use cluster_stm.Stm.Types.{LockType, read, write, is_write}
use cluster_stm.Stm.Meta.{share_pos}
use cluster_stm.Stm.Node.{Buffer, DatasetEntry, Libs, Node, share_bytes, entry_of}
use cluster_stm.Stm.Finish.Memory.{byte_from}
use cluster_stm.Stm.Locking.{Inv, IsAligned, modes, mode_of, Guards-compatible}

-- The undo log of an entry that is open for writing.
abbrev pub undo_of : Option DatasetEntry → Option Buffer
undo_of none = none
undo_of (some e) = if is_write e.type then e.undo_data else none

-- Every block that is open for writing has an undo log.
abbrev pub IsLogged : {l : Libs} → Node l → Type 0
IsLogged n = (q a : ℕ) → mode_of (entry_of n q a) ≡ some write → undo_of (entry_of n q a) ≢ none

-- A processor has a block open so that it may use it in this way.
abbrev pub IsOpen : LockType → Option LockType → Type 0
IsOpen read m = m ≢ none
IsOpen write m = m ≡ some write

-- The lock invariant, and an undo log wherever it is needed.
pub record Sound {l : Libs} (procs : ℕ) (n : Node l) : Type 0 where
  pub locks : Inv procs n
  pub logged : IsLogged n

module _ {l : Libs} where
  abbrev pub block_of : Node l → ℕ → ℕ
  block_of n x = align_down x (share_bytes n)

  abbrev pub undo_at : ℕ → Node l → ℕ → Option Buffer
  undo_at procs n a = first_some procs (λ q. undo_of (entry_of n q a))

  -- The byte at `x` as the last commit left it.
  abbrev pub committed : ℕ → Node l → ℕ → ℕ
  committed procs n x = byte_from (undo_at procs n (block_of n x)) n.mem (block_of n x) x

pub block_of-IsAligned : {l : Libs} (n : Node l) (x : ℕ) → IsAligned n.share_power (block_of n x)
block_of-IsAligned n x = align_down_mod (share_bytes n) (share_pos n.share_power) x

pub undo_of-idle : (o : Option DatasetEntry) → mode_of o ≡ none → undo_of o ≡ none
undo_of-idle none h = refl
undo_of-idle (some e) h = absurd (cc h)

pub undo_of-mode : (o : Option DatasetEntry) → mode_of o ≢ some write → undo_of o ≡ none
undo_of-mode none h = refl
undo_of-mode (some e) h = go e.type refl
  where
    go : (t : LockType) → e.type ≡ t → undo_of (some e) ≡ none
    go read s = rw s
    go write s = absurd (h (ap some s))

module _ {l : Libs} {procs : ℕ} {n : Node l} (inv : Inv procs n) where
  -- Who has a block open for writing has the only undo log for it.
  pub undo_at-writer :
      (p a : ℕ) (buf : Buffer)
      → p < procs
      → IsAligned n.share_power a
      → modes n a p ≡ some write
      → undo_of (entry_of n p a) ≡ some buf
      → undo_at procs n a ≡ some buf
  undo_at-writer p a buf lt al own log = first_some-only procs _ p buf lt log (λ q k ne.
      undo_of-idle (entry_of n q a)
        (Guards-compatible (inv.guarded a al) p q lt k (λ e. ne (sym e)) own))

  -- Where no other processor writes, only this one's log counts.
  pub undo_at-reader :
      (a : ℕ) → ((q : ℕ) → q < procs → modes n a q ≢ some write) → undo_at procs n a ≡ none
  undo_at-reader a free = first_some-none procs _ (λ q k. undo_of-mode (entry_of n q a) (free q k))
