-- ===== src/Stm/Cluster/Protocol.antt =====
-- The protocol of all processors, in any interleaving: what a transaction does between two looks at
-- shared state, on whichever processor, and how far the end of each transaction has come.
use cluster_stm.Common.{
  ℕ, ◌+◌, ◌^◌, ◌<◌, ◌≡◌, ◌≢◌, ◌⊎◌, true, none, List, [], ◌∷◌, ◌==◌, if◌then◌else◌, elem,
}
use cluster_stm.Common.Family.{update}
use cluster_stm.Stm.Types.{LockType, Config, StmStatus, ok}
use cluster_stm.Stm.Node.{Libs, Node}
use cluster_stm.Stm.Open.{open_block}
use cluster_stm.Stm.Copy.{copy_chunk}
use cluster_stm.Stm.Finish.{stm_finish_local}
use cluster_stm.Stm.Locking.{IsAligned}
use cluster_stm.Stm.Cluster.{Cluster, set_node, touch, remotes, entable}
use cluster_stm.Stm.Cluster.Remote.{clear_remotes}

-- A transaction is under way, or it ends: these processors have not answered yet.
pub data Phase : Type 0 where
  running : Phase
  finishing : StmStatus → List ℕ → Phase

pub record World (l : Libs) : Type 0 where
  pub cluster : Cluster l
  pub phase : ℕ → Phase

-- The first answer of `m` is taken off the list.
abbrev pub without : ℕ → List ℕ → List ℕ
without m [] = []
without m (p ∷ ps) = if m == p then ps else p ∷ without m ps

-- Nothing changes that locks depend on.
pub record SameLocks {l : Libs} (n n' : Node l) : Type 0 where
  pub same_share : n'.share_power ≡ n.share_power
  pub same_base : n'.meta_base ≡ n.meta_base
  pub same_meta : n'.meta ≡ n.meta
  pub same_datasets : (q : ℕ) → (n'.tx_dors q).dataset ≡ (n.tx_dors q).dataset

-- Nor what the end of a transaction depends on.
pub record IsQuiet {l : Libs} (n n' : Node l) : Type 0 where
  pub same_locks : SameLocks n n'
  pub same_remotes : (q : ℕ) → (n'.tx_dors q).remote_procs ≡ (n.tx_dors q).remote_procs

module _ {l : Libs} where
  abbrev pub at : World l → ℕ → Node l → World l
  at w m n = record w { cluster = set_node w.cluster m n }

  -- The processors that `p` has recorded that it touched.
  abbrev pub touched_by : Cluster l → ℕ → l.procs.Map
  touched_by cl p = ((cl.nodes p).tx_dors p).remote_procs

  -- `m` is the transaction's own processor, or recorded.
  abbrev pub MayUse : Cluster l → (p m : ℕ) → Type 0
  MayUse cl p m = (m ≡ p) ⊎ ((m + 1 < 2 ^ 63) × (l.procs.get (touched_by cl p) (entable m) ≢ none))

  abbrev pub finished : Config → World l → (p m : ℕ) → StmStatus → Node l
  finished c w p m status = (stm_finish_local c (w.cluster.nodes m) p status).0

  -- One access of a processor. Its transaction opens and copies on processors that it has recorded,
  -- and ends with a request to each of these, which are answered in any order.
  pub data Move (c : Config) (procs : ℕ) (w : World l) : World l → Type 0 where
    touch_move :
        (p m : ℕ) → w.phase p ≡ running → Move c procs w (at w p (touch (w.cluster.nodes p) p m))
    open_move :
        (p m a : ℕ) (t : LockType)
        → w.phase p ≡ running
        → p < procs
        → MayUse w.cluster p m
        → IsAligned (w.cluster.nodes m).share_power a
        → Move c procs w (at w m (open_block c (w.cluster.nodes m) p a t).0)
    chunk_move :
        {n' : Node l} (p m a offset prv count : ℕ) (t : LockType)
        → w.phase p ≡ running
        → MayUse w.cluster p m
        → copy_chunk (w.cluster.nodes m) p a offset prv count t ≡ ok n'
        → Move c procs w (at w m n')
    quiet_move : {n' : Node l} (m : ℕ) → IsQuiet (w.cluster.nodes m) n' → Move c procs w (at w m n')
    finish_move :
        (p : ℕ) (status : StmStatus)
        → w.phase p ≡ running
        → p < procs
        → Move c procs w (record {
          cluster = set_node w.cluster p (finished c w p p status);
          phase = update w.phase p (finishing status (remotes (finished c w p p status) p));
        })
    reply_move :
        (p m : ℕ) (status : StmStatus) (ms : List ℕ)
        → w.phase p ≡ finishing status ms
        → p < procs
        → elem m ms ≡ true
        → Move c procs w (record {
          cluster = set_node w.cluster m (finished c w p m status);
          phase = update w.phase p (finishing status (without m ms));
        })
    end_move :
        (p : ℕ) (status : StmStatus)
        → w.phase p ≡ finishing status []
        → Move c procs w (record {
          cluster = set_node w.cluster p (clear_remotes (w.cluster.nodes p) p);
          phase = update w.phase p running;
        })

  pub data Moves (c : Config) (procs : ℕ) (w : World l) : World l → Type 0 where
    here : Moves c procs w w
    later : {w' w'' : World l} → Moves c procs w w' → Move c procs w' w'' → Moves c procs w w''
