-- ===== src/Stm/Locking/Opening.antt =====
-- `open_read` and `open_write` keep the lock invariant.
use mathlib.Core.Path.{subst}
use cluster_stm.Common.{
  ◌%◌, ◌^◌, ◌∙◌, ℕ, ◌*◌, ◌<◌, ◌≡◌, ◌≢◌, refl, sym, ◌⊎◌, inl, inr, true, false, Option, none, some,
  ◌==◌, arith, ap, Bool-cases, Option-cases, ==→eq, ==_refl,
}
use cluster_stm.Stm.Types.{LockType, read, write, Config, succeed, fail}
use cluster_stm.Stm.Meta.{test_write_bit, inc_readers, set_write_bit}
use cluster_stm.Stm.Hashmap.{get-put_self, get-put_ne, get-store_self, get-store_ne}
use cluster_stm.Stm.Node.{
  DatasetEntry, Buffer, Libs, Node, meta_at, entry_of, set_meta, set_dataset, read_bytes,
}
use cluster_stm.Stm.Open.{
  open_read, open_write, acquire_write, new_dataset_entry, can_write, grant_write, promote,
}
use cluster_stm.Stm.Locking.Word.{Guards-read, Guards-write}
use cluster_stm.Stm.Locking.Addresses.{IsAligned}
use cluster_stm.Stm.Locking.Invariant.{IsVisible, IsKeyed, Inv, Inv-set, Inv-keep, mode_of, modes}

pub type-cases : (t : LockType) → (t ≡ write) ⊎ (t ≡ read)
type-cases read = inr refl
type-cases write = inl refl

grant_write-type : (c : Config) (b : Buffer) (e : DatasetEntry) → (grant_write c b e).type ≡ write
unfolding grant_write
grant_write-type c b e = ground arith

module _ (l : Libs) (s : ℕ) (m : l.datasets.Map) (a : ℕ) (al : IsAligned s a)
    (keyed : IsKeyed l s m) where
  pub put-IsKeyed :
      (v : DatasetEntry) → l.datasets.get m a ≡ none → IsKeyed l s (l.datasets.put m a v)
  put-IsKeyed v new b e h = elim (Bool-cases (a == b)) [
    | inl same ↦ subst (λ k. IsAligned s k) (==→eq a b same) al
    | inr other ↦ keyed b e (ground (arith, l.datasets.get-put m a b v new))
  ]

  pub store-IsKeyed :
      (v w : DatasetEntry) → l.datasets.get m a ≡ some w → IsKeyed l s (l.datasets.store m a v)
  store-IsKeyed v w old b e h = elim (Bool-cases (a == b)) [
    | inl same ↦ subst (λ k. IsAligned s k) (==→eq a b same) al
    | inr other ↦ keyed b e (ground (arith, l.datasets.get-store m a b v w old))
  ]

-- What the two operations do on each branch of this configuration.
module _ {l : Libs} {c : Config} (v : IsVisible c) (n : Node l) (p a : ℕ) where
  pub open_read_old :
      {e : DatasetEntry} → entry_of n p a ≡ some e → open_read c n p a ≡ (n, succeed)
  unfolding open_read
  open_read_old h = ground arith

  pub open_read_busy :
      entry_of n p a ≡ none
      → test_write_bit (n.meta (meta_at n a)) ≡ true
      → open_read c n p a ≡ (n, fail)
  unfolding open_read
  open_read_busy new busy = ground arith

  pub open_read_new :
      entry_of n p a ≡ none
      → test_write_bit (n.meta (meta_at n a)) ≡ false
      → open_read c n p a ≡ (
        set_meta
            (set_dataset n p (l.datasets.put (n.tx_dors p).dataset a (new_dataset_entry read 0)))
            (meta_at n a)
            (inc_readers (n.meta (meta_at n a))),
        succeed,
      )
  unfolding open_read
  open_read_new new free = ground (arith, v.unversioned)

pub can_write_free :
    (c : Config)
    → IsVisible c
    → (m : ℕ) (entry : Option DatasetEntry) → can_write c m entry ≡ true
    → (m ≡ 0) ⊎ ((m ≡ 2) × (entry ≢ none))
unfolding can_write
can_write_free c v m none h = ground (arith, v.early, v.unversioned)
can_write_free c v m (some e) h = ground (arith, v.early, v.unversioned)

module _ {l : Libs} {c : Config} (v : IsVisible c) (n : Node l) (p a : ℕ) where
  -- The state after a write lock was taken.
  abbrev pub write_locked : l.datasets.Map → Node l
  write_locked ds = set_meta (set_dataset n p ds) (meta_at n a) (set_write_bit (p * 2 % 2 ^ 32))

  pub acquire_write_fail :
      (entry : Option DatasetEntry)
      → can_write c (n.meta (meta_at n a)) entry ≡ false
      → acquire_write c n p a entry ≡ (n, fail)
  unfolding acquire_write
  acquire_write_fail entry h = rw h

  pub acquire_write-none :
      can_write c (n.meta (meta_at n a)) none ≡ true
      → acquire_write c n p a none ≡ (
        write_locked (
            l.datasets.put
              (n.tx_dors p).dataset
              a
              (grant_write c (read_bytes n.mem a) (new_dataset_entry write 0))),
        succeed,
      )
  unfolding acquire_write
  acquire_write-none h = rw (h, v.early, v.unversioned)

  pub acquire_write-some :
      (e : DatasetEntry)
      → can_write c (n.meta (meta_at n a)) (some e) ≡ true
      → acquire_write c n p a (some e) ≡ (
        write_locked
            (l.datasets.store (n.tx_dors p).dataset a (grant_write c (read_bytes n.mem a) e)),
        succeed,
      )
  unfolding acquire_write
  acquire_write-some e h = rw (h, v.early, v.unversioned)

  pub open_write-none : entry_of n p a ≡ none → open_write c n p a ≡ acquire_write c n p a none
  unfolding open_write
  open_write-none h = rw (h, open_write)

  pub open_write_held :
      {e : DatasetEntry}
      → entry_of n p a ≡ some e
      → e.type ≡ write
      → open_write c n p a ≡ (n, succeed)
  unfolding open_write
  open_write_held h w = rw (h, open_write, w)

  pub open_write_read :
      {e : DatasetEntry}
      → entry_of n p a ≡ some e
      → e.type ≡ read
      → open_write c n p a
        ≡ acquire_write c
            (set_dataset n p (l.datasets.store (n.tx_dors p).dataset a e))
            p
            a
            (some e)
  unfolding open_write promote
  open_write_read h r = rw (h, open_write, r, v.early)

module _ {l : Libs} {procs : ℕ} {c : Config} (v : IsVisible c) (p a : ℕ) (lt : p < procs) where
  Inv-read :
      {n : Node l}
      → Inv procs n
      → IsAligned n.share_power a
      → entry_of n p a ≡ none
      → test_write_bit (n.meta (meta_at n a)) ≡ false
      → Inv procs (
          set_meta
            (set_dataset n p (l.datasets.put (n.tx_dors p).dataset a (new_dataset_entry read 0)))
            (meta_at n a)
            (inc_readers (n.meta (meta_at n a))))
  unfolding new_dataset_entry
  Inv-read {n} inv al new free =
      let ds = (n.tx_dors p).dataset in
      let e = new_dataset_entry read 0 in
      let w = inc_readers (n.meta (meta_at n a)) in
      Inv-set inv p a al (l.datasets.put ds a e)
        (λ b ne. ap mode_of (get-put_ne l.datasets ds a e new b ne))
        (put-IsKeyed l n.share_power ds a al (inv.keyed p) e new) w
        (rw (get-put_self l.datasets ds a e new)
          (Guards-read p lt inv.few (inv.guarded a al) (ap mode_of new) free))

  pub open_read-Inv :
      {n : Node l} → Inv procs n → IsAligned n.share_power a → Inv procs (open_read c n p a).0
  open_read-Inv {n} inv al = elim (Option-cases (entry_of n p a)) [
    | inr (e, have) ↦ rw (open_read_old v n p a have) inv
    | inl new ↦ elim (Bool-cases (test_write_bit (n.meta (meta_at n a)))) [
      | inl busy ↦ rw (open_read_busy v n p a new busy) inv
      | inr free ↦ rw (open_read_new v n p a new free) (Inv-read inv al new free)
    ]
  ]

  -- What `open_write` does when it succeeds: a WRITE entry, and this processor's word.
  Inv-write :
      {n : Node l} (ds : l.datasets.Map) (e : DatasetEntry)
      → Inv procs n
      → IsAligned n.share_power a
      → e.type ≡ write
      → l.datasets.get ds a ≡ some e
      → ((b : ℕ) → b ≢ a → l.datasets.get ds b ≡ entry_of n p b)
      → IsKeyed l n.share_power ds
      → (n.meta (meta_at n a) ≡ 0) ⊎ ((n.meta (meta_at n a) ≡ 2) × (modes n a p ≡ some read))
      → Inv procs (set_meta (set_dataset n p ds) (meta_at n a) (set_write_bit (p * 2 % 2 ^ 32)))
  Inv-write {n} ds e inv al wr got others keyed free =
      Inv-set inv p a al ds (λ b ne. ap mode_of (others b ne)) keyed
        (set_write_bit (p * 2 % 2 ^ 32)) (rw (got, wr) (Guards-write p lt (inv.guarded a al) free))

  acquire_write-none-Inv :
      {n : Node l}
      → Inv procs n
      → IsAligned n.share_power a
      → entry_of n p a ≡ none
      → Inv procs (acquire_write c n p a none).0
  acquire_write-none-Inv {n} inv al new =
      let ds = (n.tx_dors p).dataset in
      let e = grant_write c (read_bytes n.mem a) (new_dataset_entry write 0) in
      elim (Bool-cases (can_write c (n.meta (meta_at n a)) none)) [
        | inr busy ↦ rw (acquire_write_fail v n p a none busy) inv
        | inl free ↦ rw (acquire_write-none v n p a free) (
            Inv-write (l.datasets.put ds a e) e inv al (grant_write-type c _ _)
              (get-put_self l.datasets ds a e new) (get-put_ne l.datasets ds a e new)
              (put-IsKeyed l n.share_power ds a al (inv.keyed p) e new)
              (ground (arith, can_write_free c v _ none free)))
      ]

  acquire_write-some-Inv :
      {n : Node l} {e : DatasetEntry}
      → Inv procs n
      → IsAligned n.share_power a
      → entry_of n p a ≡ some e
      → e.type ≡ read
      → Inv procs (acquire_write c n p a (some e)).0
  acquire_write-some-Inv {n} {e} inv al have rd =
      let ds = (n.tx_dors p).dataset in
      let e' = grant_write c (read_bytes n.mem a) e in
      elim (Bool-cases (can_write c (n.meta (meta_at n a)) (some e))) [
        | inr busy ↦ rw (acquire_write_fail v n p a (some e) busy) inv
        | inl free ↦ rw (acquire_write-some v n p a e free) (
            Inv-write (l.datasets.store ds a e') e' inv al (grant_write-type c _ _)
              (get-store_self l.datasets ds a e' e have) (get-store_ne l.datasets ds a e' e have)
              (store-IsKeyed l n.share_power ds a al (inv.keyed p) e' e have)
              (elim (can_write_free c v _ (some e) free) [
                | inl zero' ↦ inl zero'
                | inr two ↦ inr (two.0, rw (have, rd))
              ]))
      ]

  pub open_write-Inv :
      {n : Node l} → Inv procs n → IsAligned n.share_power a → Inv procs (open_write c n p a).0
  open_write-Inv {n} inv al = elim (Option-cases (entry_of n p a)) [
    | inl new ↦ rw (open_write-none v n p a new) (acquire_write-none-Inv inv al new)
    | inr (e, have) ↦ open_held e have (type-cases e.type)
  ]
    where
      ds : l.datasets.Map
      ds = (n.tx_dors p).dataset

      open_held :
          (e : DatasetEntry)
          → entry_of n p a ≡ some e
          → (e.type ≡ write) ⊎ (e.type ≡ read)
          → Inv procs (open_write c n p a).0
      open_held e have (inl wr) = rw (open_write_held v n p a have wr) inv
      open_held e have (inr rd) =
          let got = get-store_self l.datasets ds a e e have in
          rw (open_write_read v n p a have rd) (
            acquire_write-some-Inv
              (Inv-keep inv p a al (l.datasets.store ds a e)
                (λ b ne. ap mode_of (get-store_ne l.datasets ds a e e have b ne))
                (store-IsKeyed l n.share_power ds a al (inv.keyed p) e e have)
                (ap mode_of (got ∙ sym have)))
              al (rw (==_refl p, entry_of) got) rd)
