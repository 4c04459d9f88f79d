-- ===== src/Stm/UndoLog/Opening.antt =====
-- What one `open_read` or `open_write` changes, as the rest of the processor sees it.
use cluster_stm.Common.{
  ◌∙◌, ℕ, ◌≡◌, ◌≢◌, sym, ap, refl, ◌⊎◌, inl, inr, false, none, some, arith, Option-cases,
  Bool-cases, ==_refl, ==_ne,
}
use cluster_stm.Stm.Types.{LockType, read, write, Config, Status, succeed, fail}
use cluster_stm.Stm.Hashmap.{get-put_self, get-put_ne, get-store_self, get-store_ne}
use cluster_stm.Stm.Meta.{test_write_bit}
use cluster_stm.Stm.Node.{Buffer, set_meta}
use cluster_stm.Stm.Node.{DatasetEntry, Libs, Node, meta_at, entry_of, set_dataset, read_bytes}
use cluster_stm.Stm.Open.{
  open_block, open_read, open_write, acquire_write, new_dataset_entry, grant_write, can_write,
}
use cluster_stm.Stm.Locking.{
  IsVisible, modes, mode_of, open_read_old, open_read_busy, open_read_new, open_write-none,
  open_write_held, open_write_read, acquire_write_fail, acquire_write-none, acquire_write-some,
  type-cases,
}
use cluster_stm.Stm.UndoLog.View.{undo_of, IsOpen}

-- The entry of the processor for the block, before and after.
pub data Entered {l : Libs} (n n' : Node l) (p a : ℕ) (t : LockType) (s : Status) : Type 0 where
  refused : s ≡ fail → entry_of n' p a ≡ entry_of n p a → Entered n n' p a t s
  kept : entry_of n' p a ≡ entry_of n p a → IsOpen t (modes n' a p) → Entered n n' p a t s
  reading : t ≡ read → entry_of n p a ≡ none → modes n' a p ≡ some read → Entered n n' p a t s
  writing :
      t ≡ write
      → s ≡ succeed
      → undo_of (entry_of n p a) ≡ none
      → modes n' a p ≡ some write
      → undo_of (entry_of n' p a) ≡ some (read_bytes n.mem a)
      → Entered n n' p a t s

pub record Effect {l : Libs} (n n' : Node l) (p a : ℕ) (t : LockType) (s : Status) : Type 0 where
  pub same_mem : n'.mem ≡ n.mem
  pub same_share : n'.share_power ≡ n.share_power
  pub same_entries : (q b : ℕ) → (q ≢ p) ⊎ (b ≢ a) → entry_of n' q b ≡ entry_of n q b
  pub entered : Entered n n' p a t s

module _ {l : Libs} (n : Node l) (p a : ℕ) where
  -- Nothing changes but the dataset of `p`, and of that only what it holds for `a`.
  entries_but :
      (ds : l.datasets.Map)
      → ((b : ℕ) → b ≢ a → l.datasets.get ds b ≡ entry_of n p b)
      → (q b : ℕ) → (q ≢ p) ⊎ (b ≢ a)
      → entry_of (set_dataset n p ds) q b ≡ entry_of n q b
  entries_but ds others q b (inl ne) = rw (entry_of, ==_ne p q (λ e. ne (sym e)))
  entries_but ds others q b (inr ne) = ground (arith, others b ne)

  entry_self : (ds : l.datasets.Map) → entry_of (set_dataset n p ds) p a ≡ l.datasets.get ds a
  entry_self ds = rw (entry_of, ==_refl p)

granted :
    (c : Config)
    → c.write_buffering ≡ false
    → (block : Buffer) (e : DatasetEntry)
    → (mode_of (some (grant_write c block e)) ≡ some write)
      × (undo_of (some (grant_write c block e)) ≡ some block)
unfolding grant_write
granted c direct block e = (ground (arith, direct), ground (arith, direct))

module _ {l : Libs} {c : Config} (v : IsVisible c) (direct : c.write_buffering ≡ false)
    (p a : ℕ) where
  -- A state with the same entries and the same memory.
  held :
      {n n' : Node l} {t : LockType} {s : Status}
      → n'.mem ≡ n.mem
      → n'.share_power ≡ n.share_power
      → ((q b : ℕ) → entry_of n' q b ≡ entry_of n q b)
      → Entered n n' p a t s
      → Effect n n' p a t s
  held m s e k = record { same_mem = m; same_share = s; same_entries = λ q b _. e q b; entered = k }

  unmoved : {n : Node l} {t : LockType} {s : Status} → Entered n n p a t s → Effect n n p a t s
  unmoved k = held refl refl (λ q b. refl) k

  changed :
      {t : LockType} {s : Status} (n : Node l) (ds : l.datasets.Map) (word : ℕ)
      → ((b : ℕ) → b ≢ a → l.datasets.get ds b ≡ entry_of n p b)
      → Entered n (set_meta (set_dataset n p ds) (meta_at n a) word) p a t s
      → Effect n (set_meta (set_dataset n p ds) (meta_at n a) word) p a t s
  changed n ds word others k = record {
    same_mem = refl;
    same_share = refl;
    same_entries = entries_but n p a ds others;
    entered = k;
  }

  open_read-Effect : (n : Node l) → Effect n (open_read c n p a).0 p a read (open_read c n p a).1
  unfolding new_dataset_entry
  open_read-Effect n = elim (Option-cases (entry_of n p a)) [
    | inr (e, have) ↦
        rw (open_read_old v n p a have) (unmoved (kept refl (λ gone. cc (ap mode_of have, gone))))
    | inl new ↦ elim (Bool-cases (test_write_bit (n.meta (meta_at n a)))) [
      | inl busy ↦ rw (open_read_busy v n p a new busy) (unmoved (refused refl refl))
      | inr free ↦
          let ds = (n.tx_dors p).dataset in
          let e = new_dataset_entry read 0 in
          rw (open_read_new v n p a new free) (
            changed {t = read} {s = succeed} n (l.datasets.put ds a e) _
              (get-put_ne l.datasets ds a e new)
              (reading refl new (
                ap mode_of
                  (entry_self n p a (l.datasets.put ds a e) ∙ get-put_self l.datasets ds a e new))))
    ]
  ]

  acquired :
      (n : Node l) (ds : l.datasets.Map) (e : DatasetEntry) (word : ℕ)
      → undo_of (entry_of n p a) ≡ none
      → l.datasets.get ds a ≡ some (grant_write c (read_bytes n.mem a) e)
      → ((b : ℕ) → b ≢ a → l.datasets.get ds b ≡ entry_of n p b)
      → Effect n (set_meta (set_dataset n p ds) (meta_at n a) word) p a write succeed
  acquired n ds e word clean got others =
      let (wr, log) = granted c direct (read_bytes n.mem a) e in
      let here = entry_self n p a ds ∙ got in
      changed n ds word others
        (writing refl refl clean (ap mode_of here ∙ wr) (ap undo_of here ∙ log))

  acquire_write-none-Effect :
      (n : Node l)
      → entry_of n p a ≡ none
      → Effect n (acquire_write c n p a none).0 p a write (acquire_write c n p a none).1
  acquire_write-none-Effect n new =
      let ds = (n.tx_dors p).dataset in
      let e = new_dataset_entry write 0 in
      let f = grant_write c (read_bytes n.mem a) e in
      elim (Bool-cases (can_write c (n.meta (meta_at n a)) none)) [
        | inr busy ↦ rw (acquire_write_fail v n p a none busy) (unmoved (refused refl refl))
        | inl free ↦ rw (acquire_write-none v n p a free) (
            acquired n (l.datasets.put ds a f) e _ (rw new) (get-put_self l.datasets ds a f new)
              (get-put_ne l.datasets ds a f new))
      ]

  acquire_write-some-Effect :
      (n : Node l) (e : DatasetEntry)
      → entry_of n p a ≡ some e
      → e.type ≡ read
      → Effect n (acquire_write c n p a (some e)).0 p a write (acquire_write c n p a (some e)).1
  acquire_write-some-Effect n e have rd =
      let ds = (n.tx_dors p).dataset in
      let f = grant_write c (read_bytes n.mem a) e in
      elim (Bool-cases (can_write c (n.meta (meta_at n a)) (some e))) [
        | inr busy ↦ rw (acquire_write_fail v n p a (some e) busy) (unmoved (refused refl refl))
        | inl free ↦ rw (acquire_write-some v n p a e free) (
            acquired n (l.datasets.store ds a f) e _ (rw (have, rd))
              (get-store_self l.datasets ds a f e have) (get-store_ne l.datasets ds a f e have))
      ]

  -- An entry that is stored as it was.
  restored :
      (n : Node l) (e : DatasetEntry)
      → entry_of n p a ≡ some e
      → (q b : ℕ)
      → entry_of (set_dataset n p (l.datasets.store (n.tx_dors p).dataset a e)) q b ≡ entry_of n q b
  restored n e have q b = ground (arith, l.datasets.get-store (n.tx_dors p).dataset a b e e have)

  Entered-from :
      {n n₁ n' : Node l} {t : LockType} {s : Status}
      → entry_of n₁ p a ≡ entry_of n p a
      → n₁.mem ≡ n.mem
      → Entered n₁ n' p a t s
      → Entered n n' p a t s
  Entered-from e m (refused f k) = refused f (k ∙ e)
  Entered-from e m (kept k w) = kept (k ∙ e) w
  Entered-from e m (reading k i r) = reading k (sym e ∙ i) r
  Entered-from e m (writing k w i r log) =
      writing k w (ap undo_of (sym e) ∙ i) r (log ∙ ap (λ mem. some (read_bytes mem a)) m)

  Effect-from :
      {n n₁ n' : Node l} {t : LockType} {s : Status}
      → ((q b : ℕ) → entry_of n₁ q b ≡ entry_of n q b)
      → n₁.mem ≡ n.mem
      → n₁.share_power ≡ n.share_power
      → Effect n₁ n' p a t s
      → Effect n n' p a t s
  Effect-from e m s f = record {
    same_mem = f.same_mem ∙ m;
    same_share = f.same_share ∙ s;
    same_entries = λ q b ne. f.same_entries q b ne ∙ e q b;
    entered = Entered-from (e p a) m f.entered;
  }

  open_write-Effect :
      (n : Node l) → Effect n (open_write c n p a).0 p a write (open_write c n p a).1
  open_write-Effect n = elim (Option-cases (entry_of n p a)) [
    | inl new ↦ rw (open_write-none v n p a new) (acquire_write-none-Effect n new)
    | inr (e, have) ↦ elim (type-cases e.type) [
      | inl wr ↦
          rw (open_write_held v n p a have wr) (unmoved (kept refl (ap mode_of have ∙ ap some wr)))
      | inr rd ↦ rw (open_write_read v n p a have rd) (
          Effect-from (restored n e have) refl refl (
            acquire_write-some-Effect (set_dataset n p (l.datasets.store (n.tx_dors p).dataset a e))
              e (restored n e have p a ∙ have) rd))
    ]
  ]

  pub open_block-Effect :
      (n : Node l) (t : LockType) → Effect n (open_block c n p a t).0 p a t (open_block c n p a t).1
  unfolding open_block
  open_block-Effect n read = open_read-Effect n
  open_block-Effect n write = open_write-Effect n
