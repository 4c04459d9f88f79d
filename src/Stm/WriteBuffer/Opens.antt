-- ===== src/Stm/WriteBuffer/Opens.antt =====
-- Opening blocks changes no view.
use cluster_stm.Common.{
  ◌∙◌, ℕ, ◌+◌, ◌-◌, ◌≤◌, ◌≡◌, sym, ap, refl, inl, inr, true, false, Option, none, some, arith,
  Bool-cases, Option-cases, ◌==◌, if◌then◌else◌, ==_refl, eq-or-ne,
}
use cluster_stm.Common.Blocks.{align_down, align_down_bounds}
use cluster_stm.Stm.Types.{LockType, Config, read, write, is_write}
use cluster_stm.Stm.Hashmap.{get-store_self}
use cluster_stm.Stm.Meta.{test_write_bit, share_pos}
use cluster_stm.Stm.Node.{
  DatasetEntry, Libs, Node, entry_of, set_dataset, share_bytes, meta_at, read_bytes,
}
use cluster_stm.Stm.Open.{
  open_local, open_block, open_read, open_write, acquire_write, can_write, promote, grant_write,
  new_dataset_entry,
}
use cluster_stm.Stm.Copy.{buffer_of}
use cluster_stm.Stm.Finish.Memory.{byte_from}
use cluster_stm.Stm.Locking.{
  modes, mode_of, IsAligned, put-IsKeyed, store-IsKeyed, Gives, open_local-Gives,
}
use cluster_stm.Stm.WriteBuffer.Keyed.{AllKeyed, Untouched, Untouched-refl, Untouched-set}
use cluster_stm.Stm.WriteBuffer.View.{
  buffer_at, AllPlain, Unseen, Unseen-trans, set-AllPlain, set-writers, view-set_here,
  view-set_elsewhere,
}

not_write : (t : LockType) → is_write t ≡ false → t ≡ read
not_write read h = refl
not_write write h = absurd (cc h)

promoted :
    (c : Config) (e : DatasetEntry)
    → ((promote c e).wb_data ≡ e.wb_data) × ((promote c e).type ≡ e.type)
unfolding promote
promoted c e = (ground arith, ground arith)

module _ {l : Libs} (n : Node l) (p : ℕ) (keyed : AllKeyed n) (plain : AllPlain n) where
  pub Unseen-refl : Unseen n n
  Unseen-refl = record {
    untouched = Untouched-refl n p keyed;
    same_view = λ q x. refl;
    plain = plain;
    writers = λ q a h. h;
  }

  module _ (a : ℕ) (al : IsAligned n.share_power a) where
    -- An entry comes or changes whose buffer, if it has one, holds the bytes that were seen.
    set-Unseen :
        (ds : l.datasets.Map) (f : DatasetEntry)
        → ((b : ℕ) → l.datasets.get ds b ≡ (if a == b then some f else entry_of n p b))
        → (f.type ≡ read → f.wb_data ≡ none)
        → (modes n a p ≡ some write → f.type ≡ write)
        → ((x : ℕ) → a ≤ x → byte_from f.wb_data n.mem a x ≡ byte_from (buffer_at n p a) n.mem a x)
        → (n' : Node l) → Untouched n n'
        → n'.tx_dors ≡ (set_dataset n p ds).tx_dors
        → Unseen n n'
    set-Unseen ds f changed f_plain f_writes seen n' u dors = record {
      untouched = u;
      plain = set-AllPlain n p a plain ds f changed f_plain n' dors;
      writers = set-writers n p a plain ds f changed f_plain n' dors f_writes;
      same_view = λ q x. elim (eq-or-ne q p) [
        | inr ne ↦
            view-set_elsewhere n p a plain ds f changed f_plain n' dors u.same_share q x (inl ne)
              (ap (λ m. m x) u.same_mem)
        | inl me ↦ elim (eq-or-ne (align_down x (share_bytes n)) a) [
          | inr ne ↦
              view-set_elsewhere n p a plain ds f changed f_plain n' dors u.same_share q x (inr ne)
                (ap (λ m. m x) u.same_mem)
          | inl in_a ↦ rw me (
              view-set_here n p a plain ds f changed f_plain n' dors u.same_share x in_a
              ∙ ap (λ mem. byte_from f.wb_data mem a x) u.same_mem
              ∙ seen x (at_least x in_a)
              ∙ ap (λ b. byte_from (buffer_at n p b) n.mem b x) (sym in_a))
        ]
      ];
    }
      where
        at_least : (x : ℕ) → align_down x (share_bytes n) ≡ a → a ≤ x
        at_least x e =
            let low = (align_down_bounds (share_bytes n) (share_pos n.share_power) x).0 in
            omega (arith, e, low)

    -- The entry for a block that was not open, or a new value of the one for a block that was.
    put-Unseen :
        (f : DatasetEntry)
        → entry_of n p a ≡ none
        → (f.type ≡ read → f.wb_data ≡ none)
        → ((x : ℕ) → a ≤ x → byte_from f.wb_data n.mem a x ≡ n.mem x)
        → (n' : Node l) → n'.mem ≡ n.mem
        → n'.share_power ≡ n.share_power
        → n'.tx_dors ≡ (set_dataset n p (l.datasets.put (n.tx_dors p).dataset a f)).tx_dors
        → Unseen n n'
    put-Unseen f new f_plain seen n' mem share dors =
        let ds = (n.tx_dors p).dataset in
        set-Unseen (l.datasets.put ds a f) f (λ b. l.datasets.get-put ds a b f new) f_plain
          (λ w. absurd (cc (w, ap mode_of new)))
          (λ x lo. seen x lo ∙ ap (λ o. byte_from (buffer_of o) n.mem a x) (sym new)) n'
          (Untouched-set n p keyed n' _ (put-IsKeyed l n.share_power ds a al (keyed p) f new) mem
            share dors)
          dors

    store-Unseen :
        (f e : DatasetEntry)
        → entry_of n p a ≡ some e
        → (f.type ≡ read → f.wb_data ≡ none)
        → (e.type ≡ write → f.type ≡ write)
        → ((x : ℕ) → a ≤ x → byte_from f.wb_data n.mem a x ≡ byte_from e.wb_data n.mem a x)
        → (n' : Node l) → n'.mem ≡ n.mem
        → n'.share_power ≡ n.share_power
        → n'.tx_dors ≡ (set_dataset n p (l.datasets.store (n.tx_dors p).dataset a f)).tx_dors
        → Unseen n n'
    store-Unseen f e old f_plain f_writes seen n' mem share dors =
        let ds = (n.tx_dors p).dataset in
        set-Unseen (l.datasets.store ds a f) f (λ b. l.datasets.get-store ds a b f e old) f_plain
          (λ w. f_writes (cc (w, ap mode_of old)))
          (λ x lo. seen x lo ∙ ap (λ o. byte_from (buffer_of o) n.mem a x) (sym old)) n'
          (Untouched-set n p keyed n' _ (store-IsKeyed l n.share_power ds a al (keyed p) f e old)
            mem share dors)
          dors

    module _ (c : Config) (wb : c.write_buffering ≡ true) where
      open_read-Unseen : Unseen n (open_read c n p a).0
      unfolding open_read
      open_read-Unseen = elim (Option-cases (entry_of n p a)) [
        | inr (e, have) ↦ rw (open_read, have) Unseen-refl
        | inl new ↦ elim (Bool-cases (test_write_bit (n.meta (meta_at n a)))) [
          | inl busy ↦ rw (open_read, new, busy) Unseen-refl
          | inr idle ↦
              rw (open_read, new, idle)
                (elim (Bool-cases c.read_versioning) [
                  | inl ver ↦ rw ver (put-Unseen _ new (λ t. refl) (λ x lo. refl) _ refl refl refl)
                  | inr vis ↦ rw vis (put-Unseen _ new (λ t. refl) (λ x lo. refl) _ refl refl refl)
                ])
        ]
      ]

      buffered :
          (e : DatasetEntry)
          → ((grant_write c (read_bytes n.mem a) e).wb_data ≡ some (read_bytes n.mem a))
            × ((grant_write c (read_bytes n.mem a) e).type ≡ write)
      unfolding grant_write
      buffered e = ground (arith, wb)

      copy_seen :
          (e : DatasetEntry) (x : ℕ)
          → a ≤ x
          → byte_from (grant_write c (read_bytes n.mem a) e).wb_data n.mem a x ≡ n.mem x
      unfolding read_bytes
      copy_seen e x lo =
          let back : a + (x - a) ≡ x = omega (arith, lo) in rw (buffered e).0 (ap n.mem back)

      acquire_write-Unseen :
          (o : Option DatasetEntry)
          → entry_of n p a ≡ o
          → buffer_of o ≡ none
          → Unseen n (acquire_write c n p a o).0
      unfolding acquire_write
      acquire_write-Unseen none new e' =
          elim (Bool-cases (can_write c (n.meta (meta_at n a)) none)) [
            | inr barred ↦ rw (acquire_write, barred) Unseen-refl
            | inl can ↦
                rw (acquire_write, can)
                  (put-Unseen _ new (λ t. absurd (cc (t, (buffered (new_dataset_entry write 0)).1)))
                    (copy_seen (new_dataset_entry write 0)) _ refl refl refl)
          ]
      acquire_write-Unseen (some e) have bare =
          elim (Bool-cases (can_write c (n.meta (meta_at n a)) (some e))) [
            | inr barred ↦ rw (acquire_write, barred) Unseen-refl
            | inl can ↦
                rw (acquire_write, can)
                  (store-Unseen _ e have (λ t. absurd (cc (t, (buffered e).1)))
                    (λ _. (buffered e).1) (λ x lo. copy_seen e x lo ∙ rw bare refl) _ refl refl
                    refl)
          ]

module _ {l : Libs} (c : Config) (wb : c.write_buffering ≡ true) (n : Node l) (p : ℕ)
    (keyed : AllKeyed n) (plain : AllPlain n) (a : ℕ) (al : IsAligned n.share_power a) where
  open_write-Unseen : Unseen n (open_write c n p a).0
  unfolding open_write
  open_write-Unseen = elim (Option-cases (entry_of n p a)) [
    | inl new ↦ rw (open_write, new) (acquire_write-Unseen n p keyed plain a al c wb none new refl)
    | inr (e, have) ↦
        rw (open_write, have)
          (elim (Bool-cases (is_write e.type)) [
            | inl mine ↦ rw mine (Unseen-refl n p keyed plain)
            | inr reads ↦ rw reads (
                let ds = (n.tx_dors p).dataset in
                let bare = plain p a e have (not_write e.type reads) in
                let e' = promote c e in
                let n' = set_dataset n p (l.datasets.store ds a e') in
                let same = promoted c e in
                let stored =
                  store-Unseen n p keyed plain a al e' e have (λ t. same.0 ∙ bare) (λ t. same.1 ∙ t)
                    (λ x lo. rw same.0 refl) n' refl refl refl in
                Unseen-trans stored (
                  acquire_write-Unseen n' p stored.untouched.keyed stored.plain a al c wb (some e')
                    (rw (entry_of, ==_refl p) (get-store_self l.datasets ds a e' e have))
                    (same.0 ∙ bare)))
          ])
  ]

  pub open_block-Unseen : (t : LockType) → Unseen n (open_block c n p a t).0
  unfolding open_block
  open_block-Unseen read = open_read-Unseen n p keyed plain a al c wb
  open_block-Unseen write = open_write-Unseen

module _ {l : Libs} (c : Config) (wb : c.write_buffering ≡ true) (n : Node l) (p : ℕ) where
  -- Opening a range of blocks is not seen by anybody, the transaction itself included.
  pub open_local-Unseen :
      (fuel : ℕ) (loc nbytes : ℕ) (t : LockType)
      → AllKeyed n
      → AllPlain n
      → Gives (Unseen n) (open_local c fuel n p loc nbytes t)
  open_local-Unseen fuel loc nbytes t keyed plain =
      open_local-Gives (Unseen n) c p t
        (λ m a al u. Unseen-trans u (open_block-Unseen c wb m p u.untouched.keyed u.plain a al t))
        fuel n loc nbytes (Unseen-refl n p keyed plain)
