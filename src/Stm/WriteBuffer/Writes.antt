-- ===== src/Stm/WriteBuffer/Writes.antt =====
-- What `memcpy_wb` writes to the transactional store.
use mathlib.Core.Path.{subst}
use Prim.Native.Nat.{min}
use native.Mathlib.Nat.{min-le_left, min-le_right}
use cluster_stm.Common.{
  ◌∙◌, ℕ, zero, suc, ◌+◌, ◌-◌, ◌≤◌, ◌<◌, ◌≡◌, sym, ap, refl, inl, inr, none, some, arith,
  Bool-cases, Option-cases, ◌==◌, ==→eq, if◌then◌else◌, eq-or-ne,
}
use cluster_stm.Common.Blocks.{align_down, align_down_bounds, align_down_eq}
use cluster_stm.Stm.Types.{ok, ok-injective, >>=-eq-ok, write, read}
use cluster_stm.Stm.Meta.{share_pos}
use cluster_stm.Stm.Node.{
  DatasetEntry, Buffer, Libs, Node, entry_of, set_dataset, share_bytes, read_bytes, write_bytes,
}
use cluster_stm.Stm.Copy.{buffer_of, copy_chunk, copy_loop, memcpy_wb}
use cluster_stm.Stm.Finish.Memory.{byte_from}
use cluster_stm.Stm.Locking.{modes, mode_of, type-cases, IsAligned, store-IsKeyed}
use cluster_stm.Stm.WriteBuffer.Keyed.{AllKeyed, Untouched-set}
use cluster_stm.Stm.UndoLog.Transfers.{write_bytes-outside}
use cluster_stm.Stm.WriteBuffer.View.{
  buffer_at, view, AllPlain, set-AllPlain, set-writers, entry-set_here, view-set_here,
  view-set_elsewhere,
}
use cluster_stm.Stm.WriteBuffer.Ranges.{
  Written, Written-none, Written-trans, Written-cast, rounds, Fits, first_round,
}

write_bytes-shift :
    (b v : ℕ → ℕ) (buf : Buffer) (a offset count x : ℕ)
    → a ≤ x
    → b (x - a) ≡ v x
    → write_bytes b offset count buf (x - a) ≡ write_bytes v (a + offset) count buf x
unfolding write_bytes
write_bytes-shift b v buf a offset count x lo same =
    let at : x - a - offset ≡ x - (a + offset) = omega arith in ground (arith, same, ap buf at)

module _ {l : Libs} (p : ℕ) where
  -- Bytes of one block go to its buffer.
  stored-Written :
      (n : Node l) (a offset prv count : ℕ) (e : DatasetEntry) (b : Buffer)
      → AllKeyed n
      → AllPlain n
      → offset + count ≤ share_bytes n
      → entry_of n p a ≡ some e
      → e.wb_data ≡ some b
      → Written p n
          (set_dataset n p (
            l.datasets.store
              (n.tx_dors p).dataset
              a
              (record e { wb_data = some (write_bytes b offset count (read_bytes n.mem prv)) })))
          (a + offset)
          count
          prv
  stored-Written n a offset prv count e b keyed plain room have buf = record {
    untouched =
        Untouched-set n p keyed n' _ (store-IsKeyed l n.share_power ds a al (keyed p) f e have) refl
          refl refl;
    plain = set-AllPlain n p a plain _ f changed f_plain n' refl;
    others =
        λ q x ne. view-set_elsewhere n p a plain _ f changed f_plain n' refl refl q x (inl ne) refl;
    writers = set-writers n p a plain _ f changed f_plain n' refl (λ w. f_write);
    held = λ x lo hi.
        ap (λ b. modes n' b p) (inside x lo hi)
        ∙ ap mode_of (entry-set_here n p a plain _ f changed f_plain n' refl)
        ∙ ap some f_write;
    mine = λ x. elim (eq-or-ne (align_down x (share_bytes n)) a) [
      | inl in_a ↦
          view-set_here n p a plain _ f changed f_plain n' refl refl x in_a
          ∙ write_bytes-shift b (view n p) (read_bytes n.mem prv) a offset count x (at_least x in_a)
              (sym (seen x in_a))
      | inr out ↦
          view-set_elsewhere n p a plain _ f changed f_plain n' refl refl p x (inr out) refl
          ∙ sym (
              write_bytes-outside (view n p) (a + offset) count x _ (λ lo hi. out (inside x lo hi)))
    ];
  }
    where
      ds : l.datasets.Map
      ds = (n.tx_dors p).dataset

      al : IsAligned n.share_power a
      al = keyed p a e have

      f : DatasetEntry
      f = record e { wb_data = some (write_bytes b offset count (read_bytes n.mem prv)) }

      n' : Node l
      n' = set_dataset n p (l.datasets.store ds a f)

      changed :
          (k : ℕ)
          → l.datasets.get (l.datasets.store ds a f) k ≡ (if a == k then some f else entry_of n p k)
      changed k = l.datasets.get-store ds a k f e have

      f_plain : f.type ≡ read → f.wb_data ≡ none
      f_plain t = absurd (cc (buf, plain p a e have t))

      f_write : f.type ≡ write
      f_write = elim (type-cases e.type) [
        | inl w ↦ w
        | inr r ↦ absurd (cc (buf, plain p a e have r))
      ]

      at_least : (x : ℕ) → align_down x (share_bytes n) ≡ a → a ≤ x
      at_least x in_a =
          let low = (align_down_bounds (share_bytes n) (share_pos n.share_power) x).0 in
          omega (arith, in_a, low)

      inside : (x : ℕ) → a + offset ≤ x → x < a + offset + count → align_down x (share_bytes n) ≡ a
      inside x lo hi =
          align_down_eq (share_bytes n) (share_pos n.share_power) a x al (omega arith) (omega arith)

      seen : (x : ℕ) → align_down x (share_bytes n) ≡ a → view n p x ≡ b (x - a)
      seen x in_a =
          ap (λ k. byte_from (buffer_at n p k) n.mem k x) in_a
          ∙ ap (λ o. byte_from (buffer_of o) n.mem a x) have
          ∙ ap (λ o. byte_from o n.mem a x) buf

  copy_chunk-Written :
      (n : Node l) {n' : Node l} (a offset prv count : ℕ)
      → AllKeyed n
      → AllPlain n
      → offset + count ≤ share_bytes n
      → copy_chunk n p a offset prv count write ≡ ok n'
      → Written p n n' (a + offset) count prv
  unfolding copy_chunk
  copy_chunk-Written n a offset prv count keyed plain room h =
      elim (Option-cases (entry_of n p a)) [
        | inl e ↦ absurd (cc (rw (e, copy_chunk) at h))
        | inr (e, have) ↦ elim (Option-cases e.wb_data) [
          | inl e' ↦ absurd (cc (rw (have, copy_chunk, e') at h))
          | inr (b, e') ↦
              subst (λ m. Written p n m (a + offset) count prv)
                (ok-injective (rw (have, copy_chunk, e') at h))
                (stored-Written n a offset prv count e b keyed plain room have e')
        ]
      ]

  -- The loop goes on a block above its pointers.
  copy_loop-Written :
      (fuel : ℕ) (n : Node l) {n' : Node l} (a prv copied nbytes : ℕ)
      → AllKeyed n
      → AllPlain n
      → copied ≤ nbytes
      → copy_loop fuel n p a prv copied nbytes write ≡ ok n'
      → Written p n n' (a + share_bytes n) (nbytes - copied) (prv + share_bytes n)
  unfolding copy_loop
  copy_loop-Written zero n a prv copied nbytes keyed plain le h = absurd (cc)
  copy_loop-Written (suc fuel) n {n'} a prv copied nbytes keyed plain le h =
      elim (Bool-cases (nbytes - copied == 0)) [
        | inl done ↦
            let none_left : nbytes - copied ≡ 0 = ==→eq (nbytes - copied) 0 done in
            subst (λ m. Written p n m (a + share_bytes n) (nbytes - copied) (prv + share_bytes n))
              (ok-injective (rw (done, copy_loop) at h))
              (rw none_left (Written-none p n _ _ keyed plain))
        | inr more ↦
            let (m, one, rest) = >>=-eq-ok _ _ (rw (more, copy_loop) at h) in
            let k = min (nbytes - copied) (share_bytes n) in
            let w = Written-cast p n m (omega arith) refl (
              copy_chunk-Written n (a + share_bytes n) 0 (prv + share_bytes n) k keyed plain
                (omega (arith, min-le_right (nbytes - copied) (share_bytes n))) one) in
            let v =
              copy_loop-Written fuel m (a + share_bytes n) (prv + share_bytes n) (copied + k) nbytes
                w.untouched.keyed w.plain
                (omega (arith, min-le_left (nbytes - copied) (share_bytes n))) rest in
            Written-cast p n n' refl (omega (arith, min-le_left (nbytes - copied) (share_bytes n)))
              (Written-trans p w v (
                rw w.untouched.same_share
                  (rounds (a + share_bytes n) (prv + share_bytes n) copied nbytes (share_bytes n))))
      ]

  -- The whole copy, of a range that starts at a block or lies within one.
  pub memcpy_wb-Written :
      (fuel : ℕ) (n : Node l) {n' : Node l} (tx_ptr prv_ptr nbytes : ℕ)
      → AllKeyed n
      → AllPlain n
      → Fits (share_bytes n) tx_ptr nbytes
      → memcpy_wb fuel n p tx_ptr prv_ptr nbytes write ≡ ok n'
      → Written p n n' tx_ptr nbytes prv_ptr
  unfolding memcpy_wb
  memcpy_wb-Written fuel n {n'} tx prv nbytes keyed plain fits h =
      let s = share_bytes n in
      let a = align_down tx s in
      let k = min nbytes (s - (tx - a)) in
      let (m, one, rest) = >>=-eq-ok _ _ h in
      let bounds = align_down_bounds s (share_pos n.share_power) tx in
      let le = min-le_left nbytes (s - (tx - a)) in
      let w =
        copy_chunk-Written n a (tx - a) prv k keyed plain
          (omega (arith, bounds.0, bounds.1, min-le_right nbytes (s - (tx - a)))) one in
      let v = copy_loop-Written fuel m a prv k nbytes w.untouched.keyed w.plain le rest in
      Written-cast p n n' (omega (arith, bounds.0)) (omega (arith, le)) (
        Written-trans p w v
          (rw w.untouched.same_share (first_round s a tx prv nbytes fits bounds.0)))
