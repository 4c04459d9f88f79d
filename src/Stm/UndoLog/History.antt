-- ===== src/Stm/UndoLog/History.antt =====
-- Histories: gets, puts, commits and aborts of any processors on one processor's memory, in any
-- order, and what they come to.
use cluster_stm.Common.{
  ◌∙◌, ℕ, ◌+◌, ◌^◌, ◌<◌, ◌≤◌, ◌≡◌, ap, refl, inl, inr, Bool, true, false, Option, none, some, List,
  [], ◌∷◌, if◌then◌else◌, Bool-cases,
}
use cluster_stm.Stm.Types.{ok, LockType, read, write, is_write, Config, Status, commit, abort}
use cluster_stm.Stm.Node.{Libs, Node, share_bytes}
use cluster_stm.Stm.Copy.{get_local, put_local}
use cluster_stm.Stm.Finish.{stm_finish_local}
use cluster_stm.Stm.Locking.{IsVisible, IsFresh, IsFresh-Inv, idle, max_procs, modes}
use cluster_stm.Stm.UndoLog.View.{undo_at-reader, committed, block_of, Sound}
use cluster_stm.Stm.UndoLog.Isolation.{put_local-committed, get_local-committed}
use cluster_stm.Stm.UndoLog.Ending.{stm_finish_local-committed}

-- What one commit installs: the blocks that the transaction had open for writing, and their bytes.
pub record Install : Type 0 where
  pub wrote : ℕ → Bool
  pub bytes : ℕ → ℕ

abbrev pub writes : Option LockType → Bool
writes none = false
writes (some t) = is_write t

-- Commits one after the other, the last one first in the list: each replaces whole transactions'
-- bytes at once.
unfoldable pub replay : (ℕ → ℕ) → List Install → ℕ → ℕ
replay mem [] x = mem x
replay mem (i ∷ is) x = if i.wrote x then i.bytes x else replay mem is x

module _ {l : Libs} where
  abbrev pub install_of : Node l → ℕ → Install
  install_of n p = record { wrote = λ x. writes (modes n (block_of n x) p); bytes = n.mem }

  -- `shared` are the addresses of transactional data: nothing is read into them.
  pub data History (c : Config) (procs : ℕ) (shared : ℕ → Type 0) (n : Node l)
      : List Install → Node l → Type 0 where
    start : History c procs shared n [] n
    get_step :
        {is : List Install} {m m' : Node l} {s : Status} (fuel p dest src nbytes : ℕ)
        → History c procs shared n is m
        → p < procs
        → nbytes + share_bytes m + share_bytes m < 2 ^ 32
        → get_local c fuel m p dest src nbytes ≡ ok (m', s)
        → ((x : ℕ) → shared x → dest ≤ x → x < dest + nbytes → ⊥)
        → History c procs shared n is m'
    put_step :
        {is : List Install} {m m' : Node l} {s : Status} (fuel p dest src nbytes : ℕ)
        → History c procs shared n is m
        → p < procs
        → nbytes + share_bytes m + share_bytes m < 2 ^ 32
        → put_local c fuel m p dest src nbytes ≡ ok (m', s)
        → History c procs shared n is m'
    abort_step :
        {is : List Install} {m : Node l} (p : ℕ)
        → History c procs shared n is m
        → p < procs
        → History c procs shared n is (stm_finish_local c m p abort).0
    commit_step :
        {is : List Install} {m : Node l} (p : ℕ)
        → History c procs shared n is m
        → p < procs
        → History c procs shared n (install_of m p ∷ is) (stm_finish_local c m p commit).0

module _ {l : Libs} {n : Node l} (f : IsFresh n) (procs : ℕ) (few : procs ≤ max_procs) where
  pub fresh-Sound : Sound procs n
  fresh-Sound = record {
    locks = IsFresh-Inv f procs few;
    logged = λ q a w. absurd (cc (w, idle f a q));
  }

  fresh-committed : (x : ℕ) → committed procs n x ≡ n.mem x
  fresh-committed x =
      rw
        (undo_at-reader (IsFresh-Inv f procs few) (block_of n x)
          (λ q k w. cc (w, idle f (block_of n x) q)))
        refl

writes-true : (m : Option LockType) → writes m ≡ true → m ≡ some write
writes-true none h = absurd (cc h)
writes-true (some read) h = absurd (cc h)
writes-true (some write) h = refl

-- The committed contents are those of the commits alone.
abbrev Replays : {l : Libs} → ℕ → (ℕ → Type 0) → Node l → List Install → Node l → Type 0
Replays procs shared n is m =
    Sound procs m × ((x : ℕ) → shared x → committed procs m x ≡ replay n.mem is x)

module _ {l : Libs} {c : Config} {procs : ℕ} {shared : ℕ → Type 0} (v : IsVisible c)
    (direct : c.write_buffering ≡ false) where
  commit-Replays :
      (n : Node l) (is : List Install) (m : Node l) (p : ℕ)
      → p < procs
      → Replays procs shared n is m
      → Replays procs shared n (install_of m p ∷ is) (stm_finish_local c m p commit).0
  unfolding replay
  commit-Replays n is m p lt (s, same) = (
    (stm_finish_local-committed v direct p lt m s 0).0 commit,
    λ x sh.
        let (sound, own, idle, undone, restored) = stm_finish_local-committed v direct p lt m s x in
        elim (Bool-cases (writes (modes m (block_of m x) p))) [
          | inl w ↦ own (writes-true _ w) ∙ rw w refl
          | inr w ↦ idle (λ e. cc (w, ap writes e)) ∙ same x sh ∙ rw w refl
        ],
  )

  History-Replays :
      {n : Node l} {is : List Install} {m : Node l}
      → Replays procs shared n [] n
      → History c procs shared n is m
      → Replays procs shared n is m
  History-Replays first start = first
  History-Replays first (get_step fuel p dest src nbytes h lt fits e private) =
      let (s, same) = History-Replays first h in
      let (sound, kept, arrived) =
        get_local-committed v direct p lt fuel _ s dest src nbytes fits _ _ e in
      (sound, λ x sh. kept x (private x sh) ∙ same x sh)
  History-Replays first (put_step fuel p dest src nbytes h lt fits e) =
      let (s, same) = History-Replays first h in
      let (sound, kept, written) =
        put_local-committed v direct p lt fuel _ s dest src nbytes fits _ _ e in
      (sound, λ x sh. kept x ∙ same x sh)
  History-Replays first (abort_step {m = m} p h lt) =
      let (s, same) = History-Replays first h in
      (
        (stm_finish_local-committed v direct p lt m s 0).0 abort,
        λ x sh.
            let (sound, own, idle, undone, restored) =
              stm_finish_local-committed v direct p lt m s x in
            undone ∙ same x sh,
      )
  History-Replays {n} first (commit_step p h lt) =
      commit-Replays n _ _ p lt (History-Replays first h)

module _ {l : Libs} {c : Config} {procs : ℕ} {shared : ℕ → Type 0} {n : Node l} (v : IsVisible c)
    (direct : c.write_buffering ≡ false) (few : procs ≤ max_procs) (f : IsFresh n) where
  -- Without WRITE_BUFFERING, READ_VERSIONING and LATE_ACQUIRE, after every history of gets, puts,
  -- commits and aborts of at most `max_procs` processors on a fresh processor's memory, the
  -- committed contents of every shared address are those of the beginning with the commits of the
  -- history applied one after the other: what aborted or unfinished transactions did is not seen.
  -- (The ranges of gets and puts, with two blocks more, stay below 2^32 bytes, and nothing is read
  -- into a shared address.)
  pub history-replay :
      {is : List Install} {n' : Node l}
      → History c procs shared n is n'
      → (x : ℕ) → shared x
      → committed procs n' x ≡ replay n.mem is x
  history-replay h =
      (History-Replays v direct
        (fresh-Sound f procs few, λ x sh. fresh-committed f procs few x ∙ unfold replay in refl)
        h).1
