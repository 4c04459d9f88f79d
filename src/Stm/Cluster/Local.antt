-- ===== src/Stm/Cluster/Local.antt =====
-- What the accesses of a transaction leave of the descriptors of one processor.
use mathlib.Core.Path.{subst}
use cluster_stm.Common.{
  ◌∙◌, ℕ, ◌≡◌, ◌≢◌, sym, ap, refl, inl, inr, none, some, arith, Option-cases, Bool-cases, ==_ne,
  ◌==◌, Option,
}
use cluster_stm.Stm.Types.{LockType, read, write, Config, ok, ok-injective, is_write}
use cluster_stm.Stm.Node.{DatasetEntry, Libs, Node, entry_of, set_dataset, meta_at}
use cluster_stm.Stm.Open.{open_block, open_read, open_write, acquire_write, can_write, promote}
use cluster_stm.Stm.Meta.{test_write_bit}
use cluster_stm.Stm.Copy.{copy_chunk, buffer_of}

-- Only the dataset of `p` has changed.
pub record IsBy {l : Libs} (p : ℕ) (n n' : Node l) : Type 0 where
  pub others : (q : ℕ) → q ≢ p → n'.tx_dors q ≡ n.tx_dors q
  pub recorded : (q : ℕ) → (n'.tx_dors q).remote_procs ≡ (n.tx_dors q).remote_procs

module _ {l : Libs} (p : ℕ) (n : Node l) where
  IsBy-refl : IsBy p n n
  IsBy-refl = record { others = λ q ne. refl; recorded = λ q. refl }

  -- The descriptors are those after a write of the dataset of `p`.
  IsBy-set :
      (n' : Node l) (ds : l.datasets.Map) → n'.tx_dors ≡ (set_dataset n p ds).tx_dors → IsBy p n n'
  IsBy-set n' ds e = record {
    others = λ q ne. ap (λ d. d q) e ∙ rw (==_ne p q (λ s. ne (sym s)));
    recorded = λ q. ap (λ d. (d q).remote_procs) e ∙ elim (Bool-cases (p == q)) [
      | inl same ↦ ground (arith, same)
      | inr other ↦ ground (arith, other)
    ];
  }

  module _ (c : Config) where
    open_read-IsBy : (a : ℕ) → IsBy p n (open_read c n p a).0
    unfolding open_read
    open_read-IsBy a = elim (Option-cases (entry_of n p a)) [
      | inr (e, have) ↦ rw (open_read, have) IsBy-refl
      | inl new ↦ elim (Bool-cases (test_write_bit (n.meta (meta_at n a)))) [
        | inl busy ↦ rw (open_read, new, busy) IsBy-refl
        | inr idle ↦
            rw (open_read, new, idle)
              (elim (Bool-cases c.read_versioning) [
                | inl ver ↦ rw ver (IsBy-set _ _ refl)
                | inr vis ↦ rw vis (IsBy-set _ _ refl)
              ])
      ]
    ]

    acquire_write-IsBy : (a : ℕ) (e : Option DatasetEntry) → IsBy p n (acquire_write c n p a e).0
    unfolding acquire_write
    acquire_write-IsBy a e = elim (Bool-cases (can_write c (n.meta (meta_at n a)) e)) [
      | inl can ↦ rw (acquire_write, can) (IsBy-set _ _ refl)
      | inr barred ↦ rw (acquire_write, barred) IsBy-refl
    ]

IsBy-trans : {l : Libs} {p : ℕ} {n n' n'' : Node l} → IsBy p n n' → IsBy p n' n'' → IsBy p n n''
IsBy-trans b b' = record {
  others = λ q ne. b'.others q ne ∙ b.others q ne;
  recorded = λ q. b'.recorded q ∙ b.recorded q;
}

module _ {l : Libs} (p : ℕ) (n : Node l) (c : Config) where
  open_write-IsBy : (a : ℕ) → IsBy p n (open_write c n p a).0
  unfolding open_write
  open_write-IsBy a = elim (Option-cases (entry_of n p a)) [
    | inl new ↦ rw (open_write, new) (acquire_write-IsBy p n c a none)
    | inr (e, have) ↦
        rw (open_write, have)
          (elim (Bool-cases (is_write e.type)) [
            | inl mine ↦ rw mine (IsBy-refl p n)
            | inr reads ↦
                let n' = set_dataset n p (l.datasets.store (n.tx_dors p).dataset a (promote c e)) in
                rw reads (
                  IsBy-trans (IsBy-set p n n' _ refl)
                    (acquire_write-IsBy p n' c a (some (promote c e))))
          ])
  ]

  pub open_block-IsBy : (a : ℕ) (t : LockType) → IsBy p n (open_block c n p a t).0
  unfolding open_block
  open_block-IsBy a read = open_read-IsBy p n c a
  open_block-IsBy a write = open_write-IsBy a

module _ {l : Libs} (p : ℕ) (n : Node l) where
  -- The same for a copy between private memory and one block.
  pub copy_chunk-IsBy :
      {n' : Node l} (a offset prv count : ℕ) (t : LockType)
      → copy_chunk n p a offset prv count t ≡ ok n'
      → IsBy p n n'
  unfolding copy_chunk
  copy_chunk-IsBy a offset prv count read h = elim (Option-cases (buffer_of (entry_of n p a))) [
    | inl e ↦ subst (IsBy p n) (ok-injective (rw (e, copy_chunk) at h)) (same _)
    | inr (b, e) ↦ subst (IsBy p n) (ok-injective (rw (e, copy_chunk) at h)) (same _)
  ]
    where
      same : (mem : ℕ → ℕ) → IsBy p n (record n { mem = mem })
      same mem = record { others = λ q ne. refl; recorded = λ q. refl }
  copy_chunk-IsBy a offset prv count write h = elim (Option-cases (entry_of n p a)) [
    | inl e ↦ absurd (cc (rw (e, copy_chunk) at h))
    | inr (e, have) ↦ elim (Option-cases e.wb_data) [
      | inl e' ↦ absurd (cc (rw (have, copy_chunk, e') at h))
      | inr (b, e') ↦
          subst (IsBy p n) (ok-injective (rw (have, copy_chunk, e') at h)) (IsBy-set p n _ _ refl)
    ]
  ]
