-- ===== src/Stm/Cluster/Interleaved/Quiet.antt =====
-- What changes neither locks nor what the end of a transaction depends on.
use cluster_stm.Common.Words.{handlerarg}
use cluster_stm.Common.{
  ◌&&◌, ltb, ℕ, ◌+◌, ◌^◌, ◌%◌, ◌≡◌, sym, ap, refl, inl, inr, Bool-cases, eq-or-ne, ==_ne, ==_refl,
  ◌==◌,
}
use cluster_stm.Stm.Types.{Config, StmStatus, commit, abort}
use cluster_stm.Stm.Node.{Buffer, Libs, Node, TxDor, set_tx_dor}
use cluster_stm.Stm.Copy.{memcpy}
use cluster_stm.Stm.Cluster.{stm_start}
use cluster_stm.Stm.Cluster.Remote.{count}
use cluster_stm.Stm.Cluster.Calls.{stm_get_reply_handler}
use cluster_stm.Stm.Cluster.Protocol.{IsQuiet}

pub IsQuiet-same :
    {l : Libs} (n n' : Node l)
    → n'.share_power ≡ n.share_power
    → n'.meta_base ≡ n.meta_base
    → n'.meta ≡ n.meta
    → n'.tx_dors ≡ n.tx_dors
    → IsQuiet n n'
IsQuiet-same n n' share base meta dors = record {
  same_locks = record {
    same_share = share;
    same_base = base;
    same_meta = meta;
    same_datasets = λ q. ap (λ d. (d q).dataset) dors;
  };
  same_remotes = λ q. ap (λ d. (d q).remote_procs) dors;
}

pub memcpy-IsQuiet : {l : Libs} (n : Node l) (dest src k : ℕ) → IsQuiet n (memcpy n dest src k)
unfolding memcpy
memcpy-IsQuiet n dest src k = IsQuiet-same n _ refl refl refl refl

-- A write of a descriptor that leaves its dataset and its record of processors.
pub dor-IsQuiet :
    {l : Libs} (n : Node l) (p : ℕ) (d : TxDor l)
    → d.dataset ≡ (n.tx_dors p).dataset
    → d.remote_procs ≡ (n.tx_dors p).remote_procs
    → IsQuiet n (set_tx_dor n p d)
dor-IsQuiet n p d entries recorded = record {
  same_locks = record {
    same_share = refl;
    same_base = refl;
    same_meta = refl;
    same_datasets = λ q. elim (eq-or-ne p q) [
      | inl e ↦ rw (sym e, ==_refl p) entries
      | inr ne ↦ rw (==_ne p q ne) refl
    ];
  };
  same_remotes = λ q. elim (eq-or-ne p q) [
    | inl e ↦ rw (sym e, ==_refl p) recorded
    | inr ne ↦ rw (==_ne p q ne) refl
  ];
}

pub stm_start-IsQuiet : {l : Libs} (n : Node l) (p : ℕ) → IsQuiet n (stm_start n p)
unfolding stm_start
stm_start-IsQuiet n p = elim (Bool-cases (((n.tx_dors p).tx_depth + 1) % 2 ^ 16 == 1)) [
  | inl first ↦ rw first (dor-IsQuiet n p _ refl refl)
  | inr inner ↦ rw inner (dor-IsQuiet n p _ refl refl)
]

pub reply-IsQuiet :
    {l : Libs} (n : Node l) (b : Buffer) (k dest : ℕ)
    → IsQuiet n (stm_get_reply_handler n b k dest).0
unfolding stm_get_reply_handler
reply-IsQuiet n b k dest = elim (Bool-cases (ltb 0 (handlerarg k) && ltb (handlerarg k) (2 ^ 31))) [
  | inl bytes ↦ rw bytes (IsQuiet-same n _ refl refl refl refl)
  | inr no_more ↦ rw no_more (IsQuiet-same n n refl refl refl refl)
]

pub count-IsQuiet : {l : Libs} (c : Config) (n : Node l) (s : StmStatus) → IsQuiet n (count c n s)
count-IsQuiet c n commit = IsQuiet-same n _ refl refl refl refl
count-IsQuiet c n abort = IsQuiet-same n _ refl refl refl refl
