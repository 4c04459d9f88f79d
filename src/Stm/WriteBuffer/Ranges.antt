-- ===== src/Stm/WriteBuffer/Ranges.antt =====
-- Ranges of bytes that a transaction has written, and how they join.
use mathlib.Core.Path.{subst}
use Prim.Native.Nat.{min}
use native.Mathlib.Nat.{min-eq_left, min-eq_right}
use cluster_stm.Common.{some, true, false, ltb}
use cluster_stm.Stm.Types.{write}
use cluster_stm.Stm.Node.{share_bytes}
use cluster_stm.Stm.Meta.{share_size_bytes}
use cluster_stm.Stm.Locking.{modes}
use cluster_stm.Common.{
  ◌∙◌, ℕ, ◌+◌, ◌-◌, ◌≤◌, ◌<◌, ◌≡◌, ◌≢◌, ◌⊎◌, ap, refl, inl, inr, arith, Bool-cases, leb, ltb, ◌&&◌,
}
use cluster_stm.Common.Blocks.{align_down}
use cluster_stm.Stm.Node.{Buffer, Libs, Node, read_bytes, write_bytes}
use cluster_stm.Stm.WriteBuffer.Keyed.{AllKeyed, Untouched, Untouched-refl, Untouched-trans}
use cluster_stm.Stm.WriteBuffer.View.{view, AllPlain}

-- The transaction of `p` sees `count` new bytes from `addr` on, those of memory at `prv`.
pub record Written {l : Libs} (p : ℕ) (n n' : Node l) (addr count prv : ℕ) : Type 0 where
  pub untouched : Untouched n n'
  pub plain : AllPlain n'
  pub others : (q x : ℕ) → q ≢ p → view n' q x ≡ view n q x
  pub writers : (q a : ℕ) → modes n a q ≡ some write → modes n' a q ≡ some write
  pub held :
      (x : ℕ) → addr ≤ x → x < addr + count → modes n' (align_down x (share_bytes n)) p ≡ some write
  pub mine : (x : ℕ) → view n' p x ≡ write_bytes (view n p) addr count (read_bytes n.mem prv) x

-- A copy goes on where the one before ended, or copies nothing.
abbrev pub Follows : (addr count prv addr' count' prv' : ℕ) → Type 0
Follows addr count prv addr' count' prv' =
    (count' ≡ 0) ⊎ ((addr' ≡ addr + count) × (prv' ≡ prv + count))

pub write_bytes-follow :
    (v v' : ℕ → ℕ) (buf buf' : Buffer) (addr count addr' count' x : ℕ)
    → (count' ≡ 0) ⊎ ((addr' ≡ addr + count) × ((i : ℕ) → i < count' → buf' i ≡ buf (count + i)))
    → v' x ≡ write_bytes v addr count buf x
    → write_bytes v' addr' count' buf' x ≡ write_bytes v addr (count + count') buf x
unfolding write_bytes
write_bytes-follow v v' buf buf' addr count addr' count' x (inl e) h = ground (arith, e, h)
write_bytes-follow v v' buf buf' addr count addr' count' x (inr (e, same)) h =
    elim (Bool-cases (leb addr' x && ltb x (addr' + count'))) [
      | inl on ↦
          let at : buf' (x - addr') ≡ buf (x - addr) =
            same (x - addr') (ground (arith, on)) ∙ ap buf (ground (arith, on)) in
          rw on (at ∙ ground (arith, on))
      | inr off ↦ rw off (h ∙ ground (arith, off))
    ]

module _ {l : Libs} (p : ℕ) where
  pub Written-none :
      (n : Node l) (addr prv : ℕ) → AllKeyed n → AllPlain n → Written p n n addr 0 prv
  unfolding write_bytes
  Written-none n addr prv keyed plain = record {
    untouched = Untouched-refl n p keyed;
    plain = plain;
    others = λ q x ne. refl;
    writers = λ q a h. h;
    held = λ x lo hi. absurd (omega arith);
    mine = λ x. ground arith;
  }

  pub Written-trans :
      {n m n' : Node l} {addr count prv addr' count' prv' : ℕ}
      → Written p n m addr count prv
      → Written p m n' addr' count' prv'
      → Follows addr count prv addr' count' prv'
      → Written p n n' addr (count + count') prv
  Written-trans {n} {m} {n'} {addr} {count} {prv} {addr'} {count'} {prv'} w w' f = record {
    untouched = Untouched-trans w.untouched w'.untouched;
    plain = w'.plain;
    others = λ q x ne. w'.others q x ne ∙ w.others q x ne;
    writers = λ q a h. w'.writers q a (w.writers q a h);
    held = λ x lo hi. hold f x lo hi (Bool-cases (ltb x (addr + count)));
    mine = λ x.
        w'.mine x
        ∙ ap (λ mem. write_bytes (view m p) addr' count' (read_bytes mem prv') x)
            w.untouched.same_mem
        ∙ write_bytes-follow (view n p) (view m p) (read_bytes n.mem prv) (read_bytes n.mem prv')
            addr count addr' count' x (carry f) (w.mine x);
  }
    where
      hold :
          Follows addr count prv addr' count' prv'
          → (x : ℕ) → addr ≤ x
          → x < addr + (count + count')
          → (ltb x (addr + count) ≡ true) ⊎ (ltb x (addr + count) ≡ false)
          → modes n' (align_down x (share_bytes n)) p ≡ some write
      hold f' x lo hi (inl near) = w'.writers p _ (w.held x lo (ground (arith, near)))
      hold (inl e) x lo hi (inr far) = absurd (ground (arith, far, e))
      hold (inr (e, e')) x lo hi (inr far) =
          subst (λ s. modes n' (align_down x (share_size_bytes s)) p ≡ some write)
            w.untouched.same_share (w'.held x (ground (arith, far, e)) (omega (arith, e)))

      carry :
          Follows addr count prv addr' count' prv'
          → (count' ≡ 0)
            ⊎ ((addr' ≡ addr + count)
                × ((i : ℕ)
                    → i < count'
                    → read_bytes n.mem prv' i ≡ read_bytes n.mem prv (count + i)))
      carry (inl e) = inl e
      carry (inr (e, e')) = inr (e, λ i below. unfold read_bytes in ap n.mem (omega (arith, e')))

-- A round that copies less than a block is the last one.
pub rounds :
    (a prv copied nbytes size : ℕ)
    → Follows a
        (min (nbytes - copied) size)
        prv
        (a + size)
        (nbytes - (copied + min (nbytes - copied) size))
        (prv + size)
rounds a prv copied nbytes size = elim (Bool-cases (leb (nbytes - copied) size)) [
  | inl last ↦
      let all : min (nbytes - copied) size ≡ nbytes - copied = min-eq_left (ground (arith, last)) in
      inl (omega (arith, all))
  | inr more ↦
      let whole : min (nbytes - copied) size ≡ size = min-eq_right (ground (arith, more)) in
      inr (omega (arith, whole), omega (arith, whole))
]

pub Written-cast :
    {l : Libs} (p : ℕ) (n n' : Node l) {addr addr' count count' prv : ℕ}
    → addr ≡ addr'
    → count ≡ count'
    → Written p n n' addr count prv
    → Written p n n' addr' count' prv
Written-cast p n n' {addr' = addr'} {count = count} {prv = prv} e e' w =
    subst (λ k. Written p n n' addr' k prv) e' (subst (λ a. Written p n n' a count prv) e w)

-- A range starts at a block, or lies within one.
abbrev pub Fits : (size addr nbytes : ℕ) → Type 0
Fits size addr nbytes =
    (align_down addr size ≡ addr) ⊎ (addr + nbytes ≤ align_down addr size + size)

-- The first round of a copy ends at the end of a block, or is the only one.
pub first_round :
    (s a tx prv nbytes : ℕ)
    → (a ≡ tx) ⊎ (tx + nbytes ≤ a + s)
    → a ≤ tx
    → Follows
        (a + (tx - a))
        (min nbytes (s - (tx - a)))
        prv
        (a + s)
        (nbytes - min nbytes (s - (tx - a)))
        (prv + s)
first_round s a tx prv nbytes fits lo = elim (Bool-cases (leb nbytes (s - (tx - a)))) [
  | inl last ↦
      let all : min nbytes (s - (tx - a)) ≡ nbytes = min-eq_left (ground (arith, last)) in
      inl (omega (arith, all))
  | inr more ↦
      let whole : min nbytes (s - (tx - a)) ≡ s - (tx - a) = min-eq_right (ground (arith, more)) in
      let above : s - (tx - a) < nbytes = ground (arith, more) in
      elim fits [
        | inl e ↦ inr (omega (arith, whole, e), omega (arith, whole, e))
        | inr room ↦ absurd (omega (arith, room, above, lo))
      ]
]
