-- ===== src/Stm/Locking/Steps.antt =====
-- All that transactions do on one processor, in any interleaving, and what holds at every point.
use mathlib.Core.Path.{subst}
use cluster_stm.Common.{ℕ, ◌<◌, ◌≡◌, inl, inr, some, ap, Option-cases}
use cluster_stm.Stm.Types.{ok-injective, ok, LockType, read, write, Config, StmStatus}
use cluster_stm.Stm.Hashmap.{get-store_self, get-store_ne}
use cluster_stm.Stm.Node.{DatasetEntry, Libs, Node, entry_of, write_bytes, read_bytes}
use cluster_stm.Stm.Open.{open_block}
use cluster_stm.Stm.Copy.{copy_chunk, memcpy, buffer_of}
use cluster_stm.Stm.Finish.{stm_finish_local}
use cluster_stm.Stm.Locking.Addresses.{IsAligned}
use cluster_stm.Stm.Locking.Invariant.{IsVisible, Inv, Inv-keep, mode_of}
use cluster_stm.Stm.Locking.Opening.{open_read-Inv, open_write-Inv, store-IsKeyed}
use cluster_stm.Stm.Locking.Finishing.{stm_finish_local-Inv}

-- One access to the shared state: a block is opened, bytes are copied, or a transaction ends.
pub data Step {l : Libs} (c : Config) (procs : ℕ) (n : Node l) : Node l → Type 0 where
  open_step :
      (p a : ℕ) (t : LockType)
      → p < procs
      → IsAligned n.share_power a
      → Step c procs n (open_block c n p a t).0
  chunk_step :
      {n' : Node l} (p a offset prv count : ℕ) (t : LockType)
      → copy_chunk n p a offset prv count t ≡ ok n'
      → Step c procs n n'
  memcpy_step : (dest src nbytes : ℕ) → Step c procs n (memcpy n dest src nbytes)
  finish_step :
      (p : ℕ) (status : StmStatus) → p < procs → Step c procs n (stm_finish_local c n p status).0

pub data Reach {l : Libs} (c : Config) (procs : ℕ) (n : Node l) : Node l → Type 0 where
  here : Reach c procs n n
  later : {n' n'' : Node l} → Reach c procs n n' → Step c procs n' n'' → Reach c procs n n''

pub open_block-Inv :
    {l : Libs} {procs : ℕ} {c : Config} {n : Node l} (v : IsVisible c) (p a : ℕ) (t : LockType)
    → p < procs
    → Inv procs n
    → IsAligned n.share_power a
    → Inv procs (open_block c n p a t).0
unfolding open_block
open_block-Inv v p a read lt inv al = open_read-Inv v p a lt inv al
open_block-Inv v p a write lt inv al = open_write-Inv v p a lt inv al

module _ {l : Libs} {procs : ℕ} {n : Node l} (inv : Inv procs n) where
  -- The lock state does not depend on the contents of memory.
  pub mem-Inv : (mem : ℕ → ℕ) → Inv procs (record n { mem = mem })
  mem-Inv mem = record { few = inv.few; guarded = inv.guarded; keyed = inv.keyed }

  memcpy-Inv : (dest src k : ℕ) → Inv procs (memcpy n dest src k)
  unfolding memcpy
  memcpy-Inv dest src k = mem-Inv _

  pub copy_chunk-Inv :
      {n' : Node l} (p a offset prv count : ℕ) (t : LockType)
      → copy_chunk n p a offset prv count t ≡ ok n'
      → Inv procs n'
  unfolding copy_chunk
  copy_chunk-Inv p a offset prv count read h = elim (Option-cases (buffer_of (entry_of n p a))) [
    | inl e ↦ subst (Inv procs) (ok-injective (rw (e, copy_chunk) at h)) (memcpy-Inv _ _ _)
    | inr (b, e) ↦ subst (Inv procs) (ok-injective (rw (e, copy_chunk) at h)) (mem-Inv _)
  ]
  copy_chunk-Inv p a offset prv count write h = elim (Option-cases (entry_of n p a)) [
    | inl e ↦ absurd (cc (rw (e, copy_chunk) at h))
    | inr (e, have) ↦ elim (Option-cases e.wb_data) [
      | inl e' ↦ absurd (cc (rw (have, copy_chunk, e') at h))
      | inr (b, e') ↦ subst (Inv procs) (ok-injective (rw (have, copy_chunk, e') at h)) (
          let ds = (n.tx_dors p).dataset in
          let f : DatasetEntry = record e {
            wb_data = some (write_bytes b offset count (read_bytes n.mem prv));
          } in
          Inv-keep inv p a (inv.keyed p a e have) (l.datasets.store ds a f)
            (λ k ne. ap mode_of (get-store_ne l.datasets ds a f e have k ne))
            (store-IsKeyed l n.share_power ds a (inv.keyed p a e have) (inv.keyed p) f e have)
            (rw (get-store_self l.datasets ds a f e have, have)))
    ]
  ]

-- Every step keeps the lock invariant, in the configurations with visible readers and early locks:
-- each word describes exactly the entries of the descriptors for its block.
pub Step-Inv :
    {l : Libs} {c : Config} {procs : ℕ} {n n' : Node l}
    → IsVisible c
    → Inv procs n
    → Step c procs n n'
    → Inv procs n'
Step-Inv v inv (open_step p a t lt al) = open_block-Inv v p a t lt inv al
Step-Inv v inv (chunk_step p a offset prv count t e) = copy_chunk-Inv inv p a offset prv count t e
Step-Inv v inv (memcpy_step dest src k) = memcpy-Inv inv dest src k
Step-Inv v inv (finish_step p status lt) = stm_finish_local-Inv v p lt status inv

pub Reach-Inv :
    {l : Libs} {c : Config} {procs : ℕ} {n n' : Node l}
    → IsVisible c
    → Inv procs n
    → Reach c procs n n'
    → Inv procs n'
Reach-Inv v inv here = inv
Reach-Inv v inv (later r s) = Step-Inv v (Reach-Inv v inv r) s
