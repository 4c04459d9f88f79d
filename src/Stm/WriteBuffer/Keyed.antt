-- ===== src/Stm/WriteBuffer/Keyed.antt =====
-- With WRITE_BUFFERING, what a transaction does before its end leaves memory as it is.
use mathlib.Core.Path.{subst}
use cluster_stm.Common.{
  ◌∙◌, ℕ, ◌≡◌, sym, ap, refl, inl, inr, true, Option, none, some, Option-cases, Bool-cases, ◌==◌,
  ==_refl,
}
use cluster_stm.Stm.Types.{LockType, read, write, Config, ok, ok-injective, is_write}
use cluster_stm.Stm.Hashmap.{get-store_self}
use cluster_stm.Stm.Meta.{test_write_bit}
use cluster_stm.Stm.Node.{DatasetEntry, Libs, Node, entry_of, meta_at, set_dataset}
use cluster_stm.Stm.Open.{open_block, open_read, open_write, acquire_write, can_write, promote}
use cluster_stm.Stm.Copy.{copy_chunk, buffer_of, memcpy}
use cluster_stm.Stm.Locking.{
  IsAligned, IsKeyed, put-IsKeyed, store-IsKeyed, IsKept, open_block-share,
}

-- Every dataset holds whole blocks.
abbrev pub AllKeyed : {l : Libs} → Node l → Type 0
AllKeyed {l} n = (q : ℕ) → IsKeyed l n.share_power (n.tx_dors q).dataset

-- Memory is as it was, and datasets hold whole blocks.
pub record Untouched {l : Libs} (n n' : Node l) : Type 0 where
  pub same_mem : n'.mem ≡ n.mem
  pub same_share : n'.share_power ≡ n.share_power
  pub keyed : AllKeyed n'

pub Untouched-trans :
    {l : Libs} {n n' n'' : Node l} → Untouched n n' → Untouched n' n'' → Untouched n n''
Untouched-trans u u' = record {
  same_mem = u'.same_mem ∙ u.same_mem;
  same_share = u'.same_share ∙ u.same_share;
  keyed = u'.keyed;
}

module _ {l : Libs} (n : Node l) (p : ℕ) (keyed : AllKeyed n) where
  pub Untouched-refl : Untouched n n
  Untouched-refl = record { same_mem = refl; same_share = refl; keyed = keyed }

  -- Only the dataset of `p` changes, and the metadata.
  pub Untouched-set :
      (n' : Node l) (ds : l.datasets.Map)
      → IsKeyed l n.share_power ds
      → n'.mem ≡ n.mem
      → n'.share_power ≡ n.share_power
      → n'.tx_dors ≡ (set_dataset n p ds).tx_dors
      → Untouched n n'
  Untouched-set n' ds k mem share dors = record {
    same_mem = mem;
    same_share = share;
    keyed = λ q b e h.
        subst (λ s. IsAligned s b) (sym share)
          (by q b e (ap (λ d. l.datasets.get (d q).dataset b) (sym dors) ∙ h));
  }
    where
      by :
          (q b : ℕ) (e : DatasetEntry)
          → entry_of (set_dataset n p ds) q b ≡ some e
          → IsAligned n.share_power b
      by q b e h = elim (Bool-cases (p == q)) [
        | inl same ↦ k b e (rw (entry_of, same) at h)
        | inr other ↦ keyed q b e (rw (entry_of, other) at h)
      ]

  module _ (c : Config) (a : ℕ) (al : IsAligned n.share_power a) where
    open_read-Untouched : Untouched n (open_read c n p a).0
    unfolding open_read
    open_read-Untouched = elim (Option-cases (entry_of n p a)) [
      | inr (e, have) ↦ rw (open_read, have) Untouched-refl
      | inl new ↦ elim (Bool-cases (test_write_bit (n.meta (meta_at n a)))) [
        | inl busy ↦ rw (open_read, new, busy) Untouched-refl
        | inr idle ↦
            let k = λ (e : DatasetEntry).
              put-IsKeyed l n.share_power (n.tx_dors p).dataset a al (keyed p) e new in
            rw (open_read, new, idle)
              (elim (Bool-cases c.read_versioning) [
                | inl ver ↦ rw ver (Untouched-set _ _ (k _) refl refl refl)
                | inr vis ↦ rw vis (Untouched-set _ _ (k _) refl refl refl)
              ])
      ]
    ]

    acquire_write-Untouched :
        (e : Option DatasetEntry) → entry_of n p a ≡ e → Untouched n (acquire_write c n p a e).0
    unfolding acquire_write
    acquire_write-Untouched none new = elim (Bool-cases (can_write c (n.meta (meta_at n a)) none)) [
      | inl can ↦
          rw (acquire_write, can)
            (Untouched-set _ _
              (put-IsKeyed l n.share_power (n.tx_dors p).dataset a al (keyed p) _ new) refl refl
              refl)
      | inr barred ↦ rw (acquire_write, barred) Untouched-refl
    ]
    acquire_write-Untouched (some e) have =
        elim (Bool-cases (can_write c (n.meta (meta_at n a)) (some e))) [
          | inl can ↦
              rw (acquire_write, can)
                (Untouched-set _ _
                  (store-IsKeyed l n.share_power (n.tx_dors p).dataset a al (keyed p) _ e have) refl
                  refl refl)
          | inr barred ↦ rw (acquire_write, barred) Untouched-refl
        ]

module _ {l : Libs} (n : Node l) (p : ℕ) (keyed : AllKeyed n) (c : Config) (a : ℕ)
    (al : IsAligned n.share_power a) where
  open_write-Untouched : Untouched n (open_write c n p a).0
  unfolding open_write
  open_write-Untouched = elim (Option-cases (entry_of n p a)) [
    | inl new ↦ rw (open_write, new) (acquire_write-Untouched n p keyed c a al none new)
    | inr (e, have) ↦
        rw (open_write, have)
          (elim (Bool-cases (is_write e.type)) [
            | inl mine ↦ rw mine (Untouched-refl n p keyed)
            | inr reads ↦
                let ds = (n.tx_dors p).dataset in
                let n' = set_dataset n p (l.datasets.store ds a (promote c e)) in
                let stored =
                  Untouched-set n p keyed n' _
                    (store-IsKeyed l n.share_power ds a al (keyed p) (promote c e) e have) refl refl
                    refl in
                rw reads (
                  Untouched-trans stored (
                    acquire_write-Untouched n' p stored.keyed c a al (some (promote c e)) (
                      rw (entry_of, ==_refl p)
                        (get-store_self l.datasets ds a (promote c e) e have))))
          ])
  ]

  pub open_block-Untouched : (t : LockType) → Untouched n (open_block c n p a t).0
  unfolding open_block
  open_block-Untouched read = open_read-Untouched n p keyed c a al
  open_block-Untouched write = open_write-Untouched

-- A put goes to the write buffers.
write_chunk-Untouched :
    {l : Libs} (n n' : Node l) (p a offset prv count : ℕ)
    → AllKeyed n
    → copy_chunk n p a offset prv count write ≡ ok n'
    → Untouched n n'
unfolding copy_chunk
write_chunk-Untouched {l} n n' p a offset prv count keyed h = elim (Option-cases (entry_of n p a)) [
  | inl e ↦ absurd (cc (rw (e, copy_chunk) at h))
  | inr (e, have) ↦ elim (Option-cases e.wb_data) [
    | inl e' ↦ absurd (cc (rw (have, copy_chunk, e') at h))
    | inr (b, e') ↦ subst (Untouched n) (ok-injective (rw (have, copy_chunk, e') at h)) (
        Untouched-set n p keyed _ _
          (store-IsKeyed l n.share_power (n.tx_dors p).dataset a (keyed p a e have) (keyed p) _ e
            have)
          refl refl refl)
  ]
]

module _ {l : Libs} (n : Node l) (c : Config) (p : ℕ) where
  pub put-IsKept : c.write_buffering ≡ true → IsKept (Untouched n) c p write
  put-IsKept wb = record {
    opens = λ m a al u. Untouched-trans u (open_block-Untouched m p u.keyed c a al write);
    chunks = λ m m' a offset prv k e u.
        Untouched-trans u (write_chunk-Untouched m m' p a offset prv k u.keyed e);
    copies = λ direct. absurd (cc (wb, direct));
  }

-- No access changes the size of the blocks.
copy_chunk-share :
    {l : Libs} (t : LockType) (n n' : Node l) (p a offset prv count : ℕ)
    → copy_chunk n p a offset prv count t ≡ ok n'
    → n'.share_power ≡ n.share_power
unfolding copy_chunk memcpy
copy_chunk-share {l} read n n' p a offset prv count h =
    elim (Option-cases (buffer_of (entry_of n p a))) [
      | inl e ↦ ap (λ (m : Node l). m.share_power) (sym (ok-injective (rw (e, copy_chunk) at h)))
      | inr (b, e) ↦
          ap (λ (m : Node l). m.share_power) (sym (ok-injective (rw (e, copy_chunk) at h)))
    ]
copy_chunk-share {l} write n n' p a offset prv count h = elim (Option-cases (entry_of n p a)) [
  | inl e ↦ absurd (cc (rw (e, copy_chunk) at h))
  | inr (e, have) ↦ elim (Option-cases e.wb_data) [
    | inl e' ↦ absurd (cc (rw (have, copy_chunk, e') at h))
    | inr (b, e') ↦
        ap (λ (m : Node l). m.share_power) (sym (ok-injective (rw (have, copy_chunk, e') at h)))
  ]
]

pub share-IsKept :
    {l : Libs} (power : ℕ) (c : Config) (p : ℕ) (t : LockType)
    → IsKept (λ (m : Node l). m.share_power ≡ power) c p t
unfolding memcpy
share-IsKept power c p t = record {
  opens = λ n a al same. open_block-share c n p a t ∙ same;
  chunks = λ n n' a offset prv count e same. copy_chunk-share t n n' p a offset prv count e ∙ same;
  copies = λ direct n dest src nbytes same. same;
}
