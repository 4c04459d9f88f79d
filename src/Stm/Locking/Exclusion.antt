-- ===== src/Stm/Locking/Exclusion.antt =====
-- A fresh processor, and who can hold what where the lock invariant holds.
use cluster_stm.Common.{◌∙◌, ℕ, ◌<◌, ◌≤◌, ◌≡◌, ◌≢◌, refl, sym, none, some, arith, ap}
use cluster_stm.Common.Family.{total-eq-zero}
use cluster_stm.Stm.Types.{LockType, read, write}
use cluster_stm.Stm.Node.{DatasetEntry, Libs, Node, TxDor, meta_at, entry_of, init_tx_dor}
use cluster_stm.Stm.Locking.Word.{Guards, shared, exclusive, reads, max_procs, Guards-compatible}
use cluster_stm.Stm.Locking.Addresses.{IsAligned}
use cluster_stm.Stm.Locking.Invariant.{Inv, mode_of, modes}

-- After `stm_init`: descriptors as `init_tx_dor` leaves them, and metadata that is all zero.
pub record IsFresh {l : Libs} (n : Node l) : Type 0 where
  pub descriptors : (q : ℕ) → n.tx_dors q ≡ init_tx_dor q
  pub words : (a : ℕ) → n.meta a ≡ 0

module _ {l : Libs} {n : Node l} (f : IsFresh n) where
  pub idle : (a q : ℕ) → modes n a q ≡ none
  unfolding init_tx_dor
  idle a q =
      ap (λ (d : TxDor l). mode_of (l.datasets.get d.dataset a)) (f.descriptors q)
      ∙ ap mode_of (l.datasets.get-init a)

  pub IsFresh-Inv : (procs : ℕ) → procs ≤ max_procs → Inv procs n
  unfolding init_tx_dor
  IsFresh-Inv procs few = record {
    few = few;
    guarded = λ a al.
        shared
          (omega (
            arith,
            f.words (meta_at n a),
            total-eq-zero reads procs (modes n a) (λ q k. ap reads (idle a q)),
          ))
          (λ q k own. cc (idle a q));
    keyed = λ q b e h. absurd (cc (ap mode_of h, idle b q));
  }

module _ {l : Libs} {procs : ℕ} {n : Node l} (inv : Inv procs n) where
  -- Two processors that have a block open both have it open for reading.
  pub Inv-exclusive :
      (a p q : ℕ) {e e' : DatasetEntry}
      → p < procs
      → q < procs
      → p ≢ q
      → entry_of n p a ≡ some e
      → entry_of n q a ≡ some e'
      → (e.type ≡ read) × (e'.type ≡ read)
  Inv-exclusive a p q {e} {e'} k k' ne mine yours =
      let g = inv.guarded a (inv.keyed p a e mine) in
      let only = λ (w : e.type ≡ write). Guards-compatible g p q k k' ne (rw (mine, w)) in
      let other =
        λ (w : e'.type ≡ write). Guards-compatible g q p k' k (λ s. ne (sym s)) (rw (yours, w)) in
      (
        reading e.type (λ w. cc (only w, ap mode_of yours)),
        reading e'.type (λ w. cc (other w, ap mode_of mine)),
      )
    where
      reading : (t : LockType) → t ≢ write → t ≡ read
      reading read h = refl
      reading write h = absurd (h refl)

  -- The word of a block that nobody has open is zero.
  pub Inv-released :
      (a : ℕ)
      → IsAligned n.share_power a
      → ((q : ℕ) → q < procs → entry_of n q a ≡ none)
      → n.meta (meta_at n a) ≡ 0
  Inv-released a al gone = go (inv.guarded a al)
    where
      go : Guards procs (n.meta (meta_at n a)) (modes n a) → n.meta (meta_at n a) ≡ 0
      go (shared e _) = omega (
        arith,
        total-eq-zero reads procs (modes n a) (λ q k. ap (λ o. reads (mode_of o)) (gone q k)),
      )
      go (exclusive w k e own _) = absurd (cc (ap mode_of (gone w k)))
