-- ===== src/Stm/UndoLog/Isolation.antt =====
-- Isolation: what `stm_get` and `stm_put` do to the committed contents, and what they read.
use cluster_stm.Common.{
  ◌∙◌, ℕ, ◌+◌, ◌^◌, ◌<◌, ◌≤◌, ◌≡◌, sym, ap, refl, ◌⊎◌, inl, inr, false, Option, none, some, arith,
  Bool-cases, ltb, leb, ◌&&◌,
}
use mathlib.Core.Path.{subst}
use cluster_stm.Stm.Meta.{share_size_bytes}
use cluster_stm.Common.Blocks.{align_down}
use cluster_stm.Stm.Types.{ok, LockType, read, write, Config, Status, succeed}
use cluster_stm.Stm.Node.{Libs, Node, share_bytes, read_bytes}
use cluster_stm.Stm.Open.{open_local}
use cluster_stm.Stm.Copy.{memcpy, get_local, put_local}
use cluster_stm.Stm.Locking.{IsVisible, modes}
use cluster_stm.Stm.UndoLog.View.{committed, block_of, IsOpen, Sound}
use cluster_stm.Stm.UndoLog.Kept.{Kept}
use cluster_stm.Stm.UndoLog.Loop.{open_local-Outcome}
use cluster_stm.Stm.UndoLog.Opened.{committed-cong}
use cluster_stm.Stm.UndoLog.Transfers.{
  Transfer, copied, stopped, put_local-Transfer, get_local-Transfer, write_bytes-outside,
  write_bytes-inside, written-committed, read-committed, memcpy-Sound,
}

module _ {l : Libs} {procs : ℕ} (p : ℕ) (lt : p < procs) (dest src nbytes : ℕ) where
  memcpy-outside :
      (m : Node l) (x : ℕ)
      → (dest ≤ x → x < dest + nbytes → ⊥)
      → committed procs (memcpy m dest src nbytes) x ≡ committed procs m x
  unfolding memcpy
  memcpy-outside m x out =
      committed-cong procs m (memcpy m dest src nbytes) x refl
        (write_bytes-outside m.mem dest nbytes x _ out) refl

  memcpy-inside :
      (m : Node l) (i : ℕ)
      → i < nbytes
      → (memcpy m dest src nbytes).mem (dest + i) ≡ m.mem (src + i)
  unfolding memcpy read_bytes
  memcpy-inside m i below = write_bytes-inside m.mem dest nbytes i _ below

  memcpy-written :
      (m : Node l) (x : ℕ)
      → Sound procs m
      → (dest ≤ x → x < dest + nbytes → modes m (block_of m x) p ≡ some write)
      → committed procs (memcpy m dest src nbytes) x ≡ committed procs m x
  unfolding memcpy
  memcpy-written m x sm own = elim (Bool-cases (leb dest x && ltb x (dest + nbytes))) [
    | inl inside ↦
        written-committed sm p x _ lt (own (ground (arith, inside)) (ground (arith, inside)))
    | inr out ↦ memcpy-outside m x (λ lo hi. ground (arith, out))
  ]

module _ {l : Libs} {procs : ℕ} {c : Config} (v : IsVisible c) (direct : c.write_buffering ≡ false)
    (p : ℕ) (lt : p < procs) (fuel : ℕ) (n : Node l) (s : Sound procs n) (dest src nbytes : ℕ)
    (fits : nbytes + share_bytes n + share_bytes n < 2 ^ 32) (n' : Node l) (status : Status) where
  -- The bytes at `src` are in place at `dest`.
  abbrev Arrived : Node l → Type 0
  Arrived m = status ≡ succeed → (i : ℕ) → i < nbytes → m.mem (dest + i) ≡ n.mem (src + i)

  -- Without WRITE_BUFFERING, READ_VERSIONING and LATE_ACQUIRE, from a state where the lock invariant
  -- holds and every block that is open for writing has its undo log, for ranges that with two blocks
  -- more stay below 2^32 bytes: `stm_put` of the processor's own memory, when it ends with an answer,
  -- leads to such a state again and leaves the committed contents of every address as they were, and
  -- if it succeeds, memory holds the bytes that were put.
  pub put_local-committed :
      put_local c fuel n p dest src nbytes ≡ ok (n', status)
      → Sound procs n'
        × ((x : ℕ) → committed procs n' x ≡ committed procs n x)
        × (status ≡ succeed → (i : ℕ) → i < nbytes → n'.mem (dest + i) ≡ n.mem (src + i))
  put_local-committed h = go (put_local-Transfer c direct dest src nbytes n' status fuel p n h)
    where
      go :
          Transfer (open_local c fuel n p dest nbytes write) dest src nbytes n' status
          → Sound procs n' × ((x : ℕ) → committed procs n' x ≡ committed procs n x) × Arrived n'
      go (stopped e lost) =
          let (k, cov) = open_local-Outcome v direct p lt write fuel n dest nbytes s fits _ e in
          (k.sound, k.same, λ won. absurd (cc (won, lost)))
      go (copied m e done won) =
          let (k, cov) = open_local-Outcome v direct p lt write fuel n dest nbytes s fits _ e in
          subst
            (λ (w : Node l).
              Sound procs w × ((x : ℕ) → committed procs w x ≡ committed procs n x) × Arrived w)
            done
            (
              memcpy-Sound k.sound dest src nbytes,
              λ x. memcpy-written p lt dest src nbytes m x k.sound (cov refl x) ∙ k.same x,
              λ _ i below.
                  memcpy-inside p lt dest src nbytes m i below
                  ∙ ap (λ mem. mem (src + i)) k.same_bytes,
            )

  -- The byte at `x` is the committed one, unless the processor itself writes its block.
  abbrev Clean : Node l → ℕ → Type 0
  Clean m x = (n.mem x ≡ committed procs n x) ⊎ (modes m (block_of n x) p ≡ some write)

  opened-Clean :
      (m : Node l) (x : ℕ) → Kept procs p n m → IsOpen read (modes m (block_of m x) p) → Clean m x
  opened-Clean m x k o = by_mode (modes m (block_of m x) p) refl
    where
      by_mode : (t : Option LockType) → modes m (block_of m x) p ≡ t → Clean m x
      by_mode none e = absurd (o e)
      by_mode (some read) e =
          inl (
            ap (λ mem. mem x) (sym k.same_bytes) ∙ sym (read-committed k.sound p x lt e) ∙ k.same x)
      by_mode (some write) e =
          inr (
            subst (λ w. modes m (align_down x (share_size_bytes w)) p ≡ some write) k.same_blocks e)

  -- In the same states, `stm_get` of the processor's own memory, when it ends with an answer, leads
  -- to such a state again and leaves the committed contents of every address outside its destination
  -- as they were. If it succeeds, the bytes of memory have arrived, and each is the committed one,
  -- unless the processor itself has the byte's block open for writing.
  pub get_local-committed :
      get_local c fuel n p dest src nbytes ≡ ok (n', status)
      → Sound procs n'
        × ((x : ℕ)
            → (dest ≤ x → x < dest + nbytes → ⊥)
            → committed procs n' x ≡ committed procs n x)
        × (status ≡ succeed
            → (i : ℕ) → i < nbytes
            → (n'.mem (dest + i) ≡ n.mem (src + i))
              × ((n.mem (src + i) ≡ committed procs n (src + i))
                  ⊎ (modes n' (block_of n (src + i)) p ≡ some write)))
  get_local-committed h = go (get_local-Transfer c direct dest src nbytes n' status fuel p n h)
    where
      Result : Node l → Type 0
      Result w =
          Sound procs w
          × ((x : ℕ)
              → (dest ≤ x → x < dest + nbytes → ⊥)
              → committed procs w x ≡ committed procs n x)
          × (status ≡ succeed
              → (i : ℕ) → i < nbytes
              → (w.mem (dest + i) ≡ n.mem (src + i)) × Clean w (src + i))

      go : Transfer (open_local c fuel n p src nbytes read) dest src nbytes n' status → Result n'
      go (stopped e lost) =
          let (k, cov) = open_local-Outcome v direct p lt read fuel n src nbytes s fits _ e in
          (k.sound, λ x _. k.same x, λ won. absurd (cc (won, lost)))
      go (copied m e done won) =
          let (k, cov) = open_local-Outcome v direct p lt read fuel n src nbytes s fits _ e in
          subst Result done (
            memcpy-Sound k.sound dest src nbytes,
            λ x out. memcpy-outside p lt dest src nbytes m x out ∙ k.same x,
            λ _ i below. (
              memcpy-inside p lt dest src nbytes m i below ∙ ap (λ mem. mem (src + i)) k.same_bytes,
              unfold memcpy in
                  opened-Clean m (src + i) k
                    (cov refl (src + i) (omega arith) (omega (arith, below))),
            ),
          )
