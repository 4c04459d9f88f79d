-- ===== src/Stm/WriteBuffer/Reads.antt =====
-- What `memcpy_wb` brings from the transactional store.
use mathlib.Core.Path.{subst}
use Prim.Native.Nat.{min}
use native.Mathlib.Nat.{min-le_left, min-le_right}
use cluster_stm.Common.{
  ◌∙◌, ℕ, zero, suc, ◌+◌, ◌-◌, ◌≤◌, ◌<◌, ◌≡◌, ◌⊎◌, sym, ap, refl, inl, inr, arith, Bool-cases,
  Option-cases, ◌==◌, ==→eq, leb, ltb, ◌&&◌,
}
use cluster_stm.Common.Blocks.{align_down, align_down_bounds, align_down_eq, align_down_mod}
use cluster_stm.Stm.Types.{ok, ok-injective, >>=-eq-ok, read}
use cluster_stm.Stm.Meta.{share_pos}
use cluster_stm.Stm.Node.{Buffer, Libs, Node, share_bytes, read_bytes, write_bytes}
use cluster_stm.Stm.Copy.{buffer_of, copy_chunk, copy_loop, memcpy_wb, memcpy}
use cluster_stm.Stm.Finish.Memory.{byte_from}
use cluster_stm.Stm.Locking.{IsAligned, next-IsAligned}
use cluster_stm.Stm.UndoLog.Transfers.{write_bytes-outside}
use cluster_stm.Stm.WriteBuffer.View.{buffer_at, view, byte_from-cong}
use cluster_stm.Stm.WriteBuffer.Ranges.{Follows, write_bytes-follow, rounds, Fits, first_round}

-- The `count` bytes from `addr` on, as the transaction of `p` sees them, have come to `prv`.
pub record Fetched {l : Libs} (p : ℕ) (n n' : Node l) (addr count prv : ℕ) : Type 0 where
  pub same_dors : n'.tx_dors ≡ n.tx_dors
  pub same_share : n'.share_power ≡ n.share_power
  pub bytes : (x : ℕ) → n'.mem x ≡ write_bytes n.mem prv count (λ i. view n p (addr + i)) x

-- What is read is not where it goes.
abbrev pub Apart : (dest src count : ℕ) → Type 0
Apart dest src count = (count ≡ 0) ⊎ ((dest + count ≤ src) ⊎ (src + count ≤ dest))

pub write_bytes-cong :
    (mem mem' : ℕ → ℕ) (dest count : ℕ) (b b' : Buffer) (x : ℕ)
    → mem x ≡ mem' x
    → ((i : ℕ) → i < count → b i ≡ b' i)
    → write_bytes mem dest count b x ≡ write_bytes mem' dest count b' x
unfolding write_bytes
write_bytes-cong mem mem' dest count b b' x base same =
    elim (Bool-cases (leb dest x && ltb x (dest + count))) [
      | inl on ↦ rw on (same (x - dest) (ground (arith, on)))
      | inr off ↦ rw off base
    ]

rest_Apart :
    (dest src total count dest' src' count' : ℕ)
    → Apart dest src total
    → count + count' ≡ total
    → Follows src count dest src' count' dest'
    → Apart dest' src' count'
rest_Apart dest src total count dest' src' count' apart e (inl f) = inl f
rest_Apart dest src total count dest' src' count' apart e (inr (f, f')) = elim apart [
  | inl h ↦ inl (omega (arith, h, e))
  | inr (inl h) ↦ inr (inl (omega (arith, h, e, f, f')))
  | inr (inr h) ↦ inr (inr (omega (arith, h, e, f, f')))
]

-- Memory may change where one does not look.
pub view-mem :
    {l : Libs} (n n' : Node l) (p x : ℕ)
    → n'.tx_dors ≡ n.tx_dors
    → n'.share_power ≡ n.share_power
    → n'.mem x ≡ n.mem x
    → view n' p x ≡ view n p x
view-mem {l} n n' p x dors share same = rw share (
    let b = align_down x (share_bytes n) in
    byte_from-cong (buffer_at n' p b) (buffer_at n p b) n'.mem n.mem b x
      (ap (λ d. buffer_of (l.datasets.get (d p).dataset b)) dors) same)

module _ {l : Libs} (p : ℕ) where
  Fetched-none : (n : Node l) (addr prv : ℕ) → Fetched p n n addr 0 prv
  unfolding write_bytes
  Fetched-none n addr prv = record {
    same_dors = refl;
    same_share = refl;
    bytes = λ x. ground arith;
  }

  Fetched-trans :
      {n m n' : Node l} {addr count prv addr' count' prv' : ℕ}
      → Fetched p n m addr count prv
      → Fetched p m n' addr' count' prv'
      → Follows addr count prv addr' count' prv'
      → Apart prv addr (count + count')
      → Fetched p n n' addr (count + count') prv
  Fetched-trans {n} {m} {n'} {addr} {count} {prv} {addr'} {count'} {prv'} w w' f apart = record {
    same_dors = w'.same_dors ∙ w.same_dors;
    same_share = w'.same_share ∙ w.same_share;
    bytes = λ x. w'.bytes x ∙ join x f;
  }
    where
      seen : (y : ℕ) → addr ≤ y → y < addr + (count + count') → view m p y ≡ view n p y
      seen y lo hi =
          view-mem n m p y w.same_dors w.same_share
            (w.bytes y ∙ write_bytes-outside n.mem prv count y _ (λ lo' hi'. omega (arith, apart)))

      join :
          (x : ℕ)
          → Follows addr count prv addr' count' prv'
          → write_bytes m.mem prv' count' (λ i. view m p (addr' + i)) x
            ≡ write_bytes n.mem prv (count + count') (λ i. view n p (addr + i)) x
      join x (inl e) =
          write_bytes-follow n.mem m.mem (λ i. view n p (addr + i)) (λ i. view m p (addr' + i)) prv
            count prv' count' x (inl e) (w.bytes x)
      join x (inr (e, e')) =
          write_bytes-follow n.mem m.mem (λ i. view n p (addr + i)) (λ i. view m p (addr' + i)) prv
            count prv' count' x
            (inr (
              e',
              λ i below.
                  seen (addr' + i) (omega (arith, e)) (omega (arith, e))
                  ∙ ap (view n p) (omega (arith, e)),
            ))
            (w.bytes x)

  Fetched-cast :
      (n n' : Node l) {addr addr' count count' prv : ℕ}
      → addr ≡ addr'
      → count ≡ count'
      → Fetched p n n' addr count prv
      → Fetched p n n' addr' count' prv
  Fetched-cast n n' {addr' = addr'} {count = count} {prv = prv} e e' w =
      subst (λ k. Fetched p n n' addr' k prv) e' (subst (λ a. Fetched p n n' a count prv) e w)

  copy_chunk-Fetched :
      (n : Node l) {n' : Node l} (a offset prv count : ℕ)
      → IsAligned n.share_power a
      → offset + count ≤ share_bytes n
      → copy_chunk n p a offset prv count read ≡ ok n'
      → Fetched p n n' (a + offset) count prv
  unfolding copy_chunk memcpy read_bytes
  copy_chunk-Fetched n {n'} a offset prv count al room h = elim (Option-cases (buffer_at n p a)) [
    | inl e ↦
        subst (λ m. Fetched p n m (a + offset) count prv) (ok-injective (rw (e, copy_chunk) at h))
          (record {
            same_dors = refl;
            same_share = refl;
            bytes = λ x.
                write_bytes-cong n.mem n.mem prv count _ _ x refl
                  (λ i below. sym (at i below ∙ ap (λ o. byte_from o n.mem a (a + offset + i)) e));
          })
    | inr (b, e) ↦
        subst (λ m. Fetched p n m (a + offset) count prv) (ok-injective (rw (e, copy_chunk) at h))
          (record {
            same_dors = refl;
            same_share = refl;
            bytes = λ x. write_bytes-cong n.mem n.mem prv count _ _ x refl (λ i below.
                ap b (omega arith)
                ∙ sym (at i below ∙ ap (λ o. byte_from o n.mem a (a + offset + i)) e));
          })
  ]
    where
      at :
          (i : ℕ)
          → i < count
          → view n p (a + offset + i) ≡ byte_from (buffer_at n p a) n.mem a (a + offset + i)
      at i below =
          ap (λ k. byte_from (buffer_at n p k) n.mem k (a + offset + i))
            (align_down_eq (share_bytes n) (share_pos n.share_power) a (a + offset + i) al
              (omega arith) (omega arith))

  copy_loop-Fetched :
      (fuel : ℕ) (n : Node l) {n' : Node l} (a prv copied nbytes : ℕ)
      → IsAligned n.share_power a
      → copied ≤ nbytes
      → Apart (prv + share_bytes n) (a + share_bytes n) (nbytes - copied)
      → copy_loop fuel n p a prv copied nbytes read ≡ ok n'
      → Fetched p n n' (a + share_bytes n) (nbytes - copied) (prv + share_bytes n)
  unfolding copy_loop
  copy_loop-Fetched zero n a prv copied nbytes al le apart h = absurd (cc)
  copy_loop-Fetched (suc fuel) n {n'} a prv copied nbytes al le apart h =
      elim (Bool-cases (nbytes - copied == 0)) [
        | inl done ↦
            let none_left : nbytes - copied ≡ 0 = ==→eq (nbytes - copied) 0 done in
            subst (λ m. Fetched p n m (a + share_bytes n) (nbytes - copied) (prv + share_bytes n))
              (ok-injective (rw (done, copy_loop) at h)) (rw none_left (Fetched-none n _ _))
        | inr more ↦
            let (m, one, rest) = >>=-eq-ok _ _ (rw (more, copy_loop) at h) in
            let s = share_bytes n in
            let k = min (nbytes - copied) s in
            let al' = next-IsAligned n.share_power a al in
            let left = min-le_left (nbytes - copied) s in
            let w = Fetched-cast n m (omega arith) refl (
              copy_chunk-Fetched n (a + s) 0 (prv + s) k al'
                (omega (arith, min-le_right (nbytes - copied) s)) one) in
            let next = rounds (a + s) (prv + s) copied nbytes s in
            let all : k + (nbytes - (copied + k)) ≡ nbytes - copied = omega (arith, left) in
            let v =
              copy_loop-Fetched fuel m (a + s) (prv + s) (copied + k) nbytes
                (subst (λ p. IsAligned p (a + s)) (sym w.same_share) al') (omega (arith, left))
                (rw w.same_share
                  (rest_Apart (prv + s) (a + s) (nbytes - copied) k _ _ _ apart all next))
                rest in
            Fetched-cast n n' refl all (
              Fetched-trans w v (rw w.same_share next)
                (subst (Apart (prv + s) (a + s)) (sym all) apart))
      ]

  -- The whole copy, of a range that starts at a block or lies within one.
  pub memcpy_wb-Fetched :
      (fuel : ℕ) (n : Node l) {n' : Node l} (tx prv nbytes : ℕ)
      → Fits (share_bytes n) tx nbytes
      → Apart prv tx nbytes
      → memcpy_wb fuel n p tx prv nbytes read ≡ ok n'
      → Fetched p n n' tx nbytes prv
  unfolding memcpy_wb
  memcpy_wb-Fetched fuel n {n'} tx prv nbytes fits apart h =
      let s = share_bytes n in
      let a = align_down tx s in
      let k = min nbytes (s - (tx - a)) in
      let (m, one, rest) = >>=-eq-ok _ _ h in
      let bounds = align_down_bounds s (share_pos n.share_power) tx in
      let al : IsAligned n.share_power a = align_down_mod s (share_pos n.share_power) tx in
      let le = min-le_left nbytes (s - (tx - a)) in
      let w = Fetched-cast n m (omega (arith, bounds.0)) refl (
        copy_chunk-Fetched n a (tx - a) prv k al
          (omega (arith, bounds.0, bounds.1, min-le_right nbytes (s - (tx - a)))) one) in
      let next : Follows tx k prv (a + s) (nbytes - k) (prv + s) =
        subst (λ b. Follows b k prv (a + s) (nbytes - k) (prv + s)) (omega (arith, bounds.0))
          (first_round s a tx prv nbytes fits bounds.0) in
      let all : k + (nbytes - k) ≡ nbytes = omega (arith, le) in
      let v =
        copy_loop-Fetched fuel m a prv k nbytes (subst (λ p. IsAligned p a) (sym w.same_share) al)
          le (rw w.same_share (rest_Apart prv tx nbytes k _ _ _ apart all next)) rest in
      Fetched-cast n n' refl all
        (Fetched-trans w v (rw w.same_share next) (subst (Apart prv tx) (sym all) apart))
