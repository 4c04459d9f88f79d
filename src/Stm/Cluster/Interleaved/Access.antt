-- ===== src/Stm/Cluster/Interleaved/Access.antt =====
-- The accesses of a transaction on one processor of the cluster are moves.
use mathlib.Core.Path.{subst, fun_ext}
use cluster_stm.Common.{arith, ℕ, ◌<◌, ◌≡◌, sym, ap, refl, inl, inr, eq-or-ne, ==_ne, ==_refl}
use cluster_stm.Common.Family.{update, update_self}
use cluster_stm.Stm.Types.{ok, LockType, Config}
use cluster_stm.Stm.Node.{Libs, Node}
use cluster_stm.Stm.Copy.{copy_chunk}
use cluster_stm.Stm.Open.{open_block}
use cluster_stm.Stm.Locking.{IsAligned, IsKept}
use cluster_stm.Stm.Cluster.{Cluster, set_node}
use cluster_stm.Stm.Cluster.Protocol.{
  Phase, running, World, IsQuiet, at, touched_by, MayUse, Move, open_move, chunk_move, quiet_move,
  Moves, later,
}
use cluster_stm.Stm.Cluster.Interleaved.Quiet.{memcpy-IsQuiet}

module _ {ℓ} {A : Type ℓ} (f : ℕ → A) (p : ℕ) where
  pub update-update : (a b : A) → update (update f p a) p b ≡ update f p b
  update-update a b = fun_ext (λ q. ground arith)

  pub update-eq : (a : A) → a ≡ f p → update f p a ≡ f
  update-eq a e = fun_ext (λ q. update_self f p q a e)

module _ {l : Libs} (cl : Cluster l) (m : ℕ) where
  pub node-at : (n : Node l) → (set_node cl m n).nodes m ≡ n
  node-at n = rw (==_refl m) refl

  pub set-set : (n n' : Node l) → set_node (set_node cl m n) m n' ≡ set_node cl m n'
  set-set n n' = ap (λ f. record { nodes = f }) (update-update cl.nodes m n n')

  pub set_self : set_node cl m (cl.nodes m) ≡ cl
  set_self = ap (λ f. record { nodes = f }) (update-eq cl.nodes m (cl.nodes m) refl)

  pub MayUse-set : (p : ℕ) (n : Node l) → MayUse cl p m → MayUse (set_node cl m n) p m
  MayUse-set p n may = elim (eq-or-ne m p) [
    | inl e ↦ inl e
    | inr ne ↦ rw (touched_by, ==_ne m p ne) may
  ]

module _ {l : Libs} (c : Config) (procs : ℕ) (w₀ : World l) (ph : ℕ → Phase) (p : ℕ)
    (run : ph p ≡ running) (lt : p < procs) where
  -- Moves lead to this cluster, with the transaction of `p` under way.
  abbrev pub Leads : Cluster l → Type 0
  Leads cl = Moves c procs w₀ (record { cluster = cl; phase = ph })

  module _ (cl : Cluster l) (m : ℕ) where
    abbrev pub with_node : Node l → World l
    with_node n = record { cluster = set_node cl m n; phase = ph }

    pub moved :
        (n n' : Node l)
        → Move c procs (with_node n) (at (with_node n) m n')
        → Leads (set_node cl m n)
        → Leads (set_node cl m n')
    moved n n' mv r = subst Leads (set-set cl m n n') (later r mv)

    pub quiet : (n n' : Node l) → IsQuiet n n' → Leads (set_node cl m n) → Leads (set_node cl m n')
    quiet n n' k = moved n n' (quiet_move m (subst (λ x. IsQuiet x n') (sym (node-at cl m n)) k))

    pub accesses-IsKept :
        (t : LockType) → MayUse cl p m → IsKept (λ n. Leads (set_node cl m n)) c p t
    accesses-IsKept t may = record {
      opens = λ n a al. moved n (open_block c n p a t).0 (
          subst
            (λ x.
              IsAligned x.share_power a
              → Move c procs (with_node n) (at (with_node n) m (open_block c x p a t).0))
            (node-at cl m n) (open_move p m a t run lt (MayUse-set cl m p n may)) al);
      chunks = λ n n' a offset prv k e. moved n n' (
          chunk_move p m a offset prv k t run (MayUse-set cl m p n may)
            (subst (λ x. copy_chunk x p a offset prv k t ≡ ok n') (sym (node-at cl m n)) e));
      copies = λ _ n dest src k. quiet n _ (memcpy-IsQuiet n dest src k);
    }

  pub quiet_at :
      (cl : Cluster l) (m : ℕ) (n : Node l)
      → IsQuiet (cl.nodes m) n
      → Leads cl
      → Leads (set_node cl m n)
  quiet_at cl m n k r = later r (quiet_move m k)
