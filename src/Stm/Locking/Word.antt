-- ===== src/Stm/Locking/Word.antt =====
-- One metadata word against the modes in which the processors hold its block.
use cluster_stm.Common.{
  ◌%◌, ℕ, ◌+◌, ◌*◌, ◌^◌, ◌<◌, ◌≤◌, ◌≡◌, ◌≢◌, ◌⊎◌, inl, inr, false, Option, none, some, arith,
  eq-or-ne, ap,
}
use cluster_stm.Common.Family.{
  update, total, total-update, weight-le-total, pair-le-total, total-eq-zero, total-le,
}
use cluster_stm.Stm.Types.{LockType, read, write}
use cluster_stm.Stm.Meta.{test_write_bit, set_write_bit, inc_readers, dec_readers}

-- The mode in which each processor holds the block.
abbrev pub Modes : Type 0
Modes = ℕ → Option LockType

abbrev pub reads : Option LockType → ℕ
reads none = 0
reads (some read) = 1
reads (some write) = 0

-- `word` is the number of readers, doubled, or the one holder, a writer, with the write bit.
pub data Guards (procs word : ℕ) (modes : Modes) : Type 0 where
  shared :
      word ≡ 2 * total reads procs modes
      → ((q : ℕ) → q < procs → modes q ≢ some write)
      → Guards procs word modes
  exclusive :
      (p : ℕ)
      → p < procs
      → word ≡ p * 2 % 2 ^ 32 + 1
      → modes p ≡ some write
      → ((q : ℕ) → q < procs → q ≢ p → modes q ≡ none)
      → Guards procs word modes

reads-le : (m : Option LockType) → reads m ≤ 1
reads-le m = ground arith

-- More processors than this do not fit in GASNet's node numbers.
abbrev pub max_procs : ℕ
max_procs = 2 ^ 32

module _ {procs word : ℕ} {modes : Modes} (p : ℕ) (lt : p < procs) where
  pub Guards-read :
      procs ≤ max_procs
      → Guards procs word modes
      → modes p ≡ none
      → test_write_bit word ≡ false
      → Guards procs (inc_readers word) (update modes p (some read))
  unfolding test_write_bit inc_readers
  Guards-read few (shared e none_writes) idle free =
      shared
        (ground (
          arith,
          total-update reads procs modes (some read) lt,
          total-le reads procs modes reads-le,
        ))
        (λ q k. ground (arith, none_writes q k))
  Guards-read few (exclusive w k e own others) idle free = absurd (ground arith)

  pub Guards-write :
      Guards procs word modes
      → (word ≡ 0) ⊎ ((word ≡ 2) × (modes p ≡ some read))
      → Guards procs (set_write_bit (p * 2 % 2 ^ 32)) (update modes p (some write))
  unfolding set_write_bit
  Guards-write (shared e none_writes) free = exclusive p lt (omega arith) (ground arith) λ q k ne.
      ground (
        arith,
        none_writes q k,
        weight-le-total reads procs modes q k,
        pair-le-total reads procs modes p q lt k,
      )
  Guards-write (exclusive w k e own others) free = absurd (ground arith)

  pub Guards-release_read :
      procs ≤ max_procs
      → Guards procs word modes
      → modes p ≡ some read
      → Guards procs (dec_readers word) (update modes p none)
  unfolding dec_readers
  Guards-release_read few (shared e none_writes) mine =
      shared
        (ground
          (arith, total-update reads procs modes none lt, total-le reads procs modes reads-le))
        (λ q k. ground (arith, none_writes q k))
  Guards-release_read few (exclusive w k e own others) mine =
      absurd
        (elim (eq-or-ne p w) [ inl same ↦ ground arith | inr ne ↦ ground (arith, others p lt ne) ])

  pub Guards-release_write :
      Guards procs word modes → modes p ≡ some write → Guards procs 0 (update modes p none)
  Guards-release_write (shared e none_writes) mine = absurd (none_writes p lt mine)
  Guards-release_write (exclusive w k e own others) mine =
      let cleared : (q : ℕ) → q < procs → update modes p none q ≡ none = λ q r.
        elim (eq-or-ne p w) [
          | inl same ↦ ground (arith, others q r)
          | inr ne ↦ absurd (ground (arith, others p lt ne))
        ] in
      shared
        (omega
          (arith, total-eq-zero reads procs (update modes p none) λ q r. ap reads (cleared q r)))
        (λ q r. ground (arith, cleared q r))

-- Two processors hold one block only as readers.
pub Guards-compatible :
    {procs word : ℕ} {modes : Modes}
    → Guards procs word modes
    → (p q : ℕ) → p < procs
    → q < procs
    → p ≢ q
    → modes p ≡ some write
    → modes q ≡ none
Guards-compatible (shared e none_writes) p q k r ne own = absurd (none_writes p k own)
Guards-compatible (exclusive w k' e mine others) p q k r ne own = elim (eq-or-ne p w) [
  | inl same ↦ others q r (λ e'. ne (ground arith))
  | inr other ↦ absurd (ground (arith, others p k other))
]
