-- ===== src/Stm/WriteBuffer/Refinement.antt =====
-- With WRITE_BUFFERING, one processor's memory keeps the promise of a transactional memory.
use cluster_stm.Common.{◌∙◌, ℕ, ◌+◌, ◌<◌, ◌≤◌, ◌≡◌, ap, refl, true}
use cluster_stm.Stm.Types.{ok, Config, succeed}
use cluster_stm.Stm.Node.{Libs, Node}
use cluster_stm.Stm.Finish.Memory.{byte_from}
use cluster_stm.Stm.Copy.{buffer_of, get_local}
use cluster_stm.Stm.Locking.{
  IsVisible, IsFresh, IsFresh-Inv, Reach, Reach-Inv, here, later, finish_step, get_local-Reach,
  put_local-Reach, max_procs,
}
use cluster_stm.Stm.Node.{share_bytes}
use cluster_stm.Stm.UndoLog.Transfers.{write_bytes-inside}
use cluster_stm.Stm.WriteBuffer.Ranges.{Fits}
use cluster_stm.Stm.WriteBuffer.Reads.{Apart}
use cluster_stm.Stm.UndoLog.View.{block_of}
use cluster_stm.Stm.WriteBuffer.View.{view}
use cluster_stm.Stm.WriteBuffer.Transfers.{fresh_entry, fresh-Buffered, get_local-view}
use cluster_stm.Stm.WriteBuffer.Abstract.{Spec, sees, Served, start, put_step, get_step, end_step}
use cluster_stm.Stm.WriteBuffer.Kept.{Keeps, put-Keeps, get-Keeps}
use cluster_stm.Stm.WriteBuffer.Isolated.{end-Keeps}

module _ {l : Libs} {c : Config} {procs : ℕ} {shared : ℕ → Type 0} {n : Node l} (v : IsVisible c)
    (wb : c.write_buffering ≡ true) (few : procs ≤ max_procs) (f : IsFresh n) where
  served-Reach : {s : Spec} {m : Node l} → Served c procs shared n s m → Reach c procs n m
  served-Reach start = here
  served-Reach (put_step fuel p dest src nbytes r lt fits e) =
      put_local-Reach lt fuel _ dest src nbytes (served-Reach r) _ _ e
  served-Reach (get_step fuel p dest src nbytes r lt fits apart e private) =
      get_local-Reach lt fuel _ dest src nbytes (served-Reach r) _ _ e
  served-Reach (end_step p status r lt) = later (served-Reach r) (finish_step p status lt)

  served-Keeps : {s : Spec} {m : Node l} → Served c procs shared n s m → Keeps procs shared n s m
  served-Keeps start = record {
    buffers = fresh-Buffered f;
    share = refl;
    owned = λ q x v e. absurd (cc e);
    bytes = λ x sh. refl;
    views = λ q x lt sh.
        ap (λ o. byte_from (buffer_of o) n.mem (block_of n x) x) (fresh_entry f q (block_of n x));
  }
  served-Keeps {m = m'} (put_step {s} {m} {status = status} fuel p dest src nbytes r lt fits e) =
      put-Keeps c wb procs shared n fuel p dest src nbytes lt s m m' (served-Keeps r) status fits e
  served-Keeps {s = s} {m = m'}
        (get_step {m = m} {status = status} fuel p dest src nbytes r lt fits apart e private) =
      get-Keeps c wb procs shared n fuel p dest src nbytes lt s m m' (served-Keeps r) status fits
        apart private e
  served-Keeps (end_step {s} {m} p status r lt) =
      end-Keeps c wb procs shared n p lt s m
        (Reach-Inv v (IsFresh-Inv f procs few) (served-Reach r)) (served-Keeps r) status

  -- With WRITE_BUFFERING, and without READ_VERSIONING and LATE_ACQUIRE, after any sequence of puts,
  -- gets, commits and aborts of at most `max_procs` processors on a fresh processor's memory, whose
  -- ranges start at a block or lie within one: memory holds at each shared address the committed
  -- byte, and each transaction sees there the byte that it has put itself, or else the committed
  -- one. A commit makes all that the transaction has put the committed bytes at once, and an abort
  -- forgets it.
  pub view-refines :
      {s : Spec} {m : Node l} (q x : ℕ)
      → Served c procs shared n s m
      → q < procs
      → shared x
      → (m.mem x ≡ s.memory x) × (view m q x ≡ sees s q x)
  view-refines q x r lt sh = let k = served-Keeps r in (k.bytes x sh, k.views q x lt sh)

  -- In every such state, for a range that starts at a block or lies within one and that the
  -- destination does not meet: a get that succeeds delivers, for each shared address of the range,
  -- the byte that the transaction has put itself, or else the committed one.
  pub get_local-serves :
      {s : Spec} {m m' : Node l} (fuel p dest src nbytes i : ℕ)
      → Served c procs shared n s m
      → p < procs
      → Fits (share_bytes m) src nbytes
      → Apart dest src nbytes
      → get_local c fuel m p dest src nbytes ≡ ok (m', succeed)
      → i < nbytes
      → shared (src + i)
      → m'.mem (dest + i) ≡ sees s p (src + i)
  get_local-serves {m = m} {m'} fuel p dest src nbytes i r lt fits apart e below sh =
      let k = served-Keeps r in
      let (b', mem, seen, writers) =
        get_local-view c wb fuel m p k.buffers dest src nbytes m' succeed fits apart e in
      mem (dest + i) ∙ write_bytes-inside m.mem dest nbytes i _ below ∙ k.views p (src + i) lt sh
