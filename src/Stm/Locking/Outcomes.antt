-- ===== src/Stm/Locking/Outcomes.antt =====
-- When a block can be opened: the answer of `open_read` and `open_write`, exactly.
use cluster_stm.Common.{
  ◌∙◌, ℕ, ◌<◌, ◌≡◌, ◌≢◌, ◌↔◌, refl, sym, ◌⊎◌, inl, inr, true, false, Option, none, some, arith, ap,
  Bool-cases, Option-cases,
}
use cluster_stm.Common.Family.{total-single, weight-le-total, pair-le-total}
use cluster_stm.Stm.Types.{read, write, Config, succeed}
use cluster_stm.Stm.Meta.{test_write_bit}
use cluster_stm.Stm.Node.{DatasetEntry, Libs, Node, meta_at, entry_of, set_dataset}
use cluster_stm.Stm.Open.{open_read, open_write, acquire_write, can_write}
use cluster_stm.Stm.Locking.Word.{Modes, Guards, shared, exclusive, reads, Guards-compatible}
use cluster_stm.Stm.Locking.Addresses.{IsAligned}
use cluster_stm.Stm.Locking.Invariant.{IsVisible, Inv, mode_of, modes}
use cluster_stm.Stm.Locking.Opening.{
  can_write_free, open_read_old, open_read_busy, open_read_new, open_write-none, open_write_held,
  open_write_read, type-cases,
}

-- No other processor writes; no other processor holds the block at all.
abbrev pub NoOtherWriter : ℕ → ℕ → Modes → Type 0
NoOtherWriter procs p m = (q : ℕ) → q < procs → q ≢ p → m q ≢ some write

abbrev pub NoOtherHolder : ℕ → ℕ → Modes → Type 0
NoOtherHolder procs p m = (q : ℕ) → q < procs → q ≢ p → m q ≡ none

module _ {procs word : ℕ} {m : Modes} (p : ℕ) (lt : p < procs)
    (not_writing : m p ≢ some write) where
  readable_iff : Guards procs word m → (test_write_bit word ≡ false) ↔ NoOtherWriter procs p m
  unfolding test_write_bit
  readable_iff (shared e none_writes) = (λ _ q k _. none_writes q k, λ _. ground arith)
  readable_iff (exclusive w k e own others) =
      (λ h. absurd (ground arith), λ h. absurd (h w k (λ s. not_writing (ground arith)) own))

  writable_iff :
      Guards procs word m
      → ((word ≡ 0) ⊎ ((word ≡ 2) × (m p ≡ some read))) ↔ NoOtherHolder procs p m
  writable_iff (shared e none_writes) = (
    λ free q k ne. ground (
      arith,
      none_writes q k,
      weight-le-total reads procs m q k,
      pair-le-total reads procs m p q lt k,
    ),
    λ h. ground (arith, total-single reads procs m p lt (λ i k ne. ap reads (h i k ne))),
  )
  writable_iff (exclusive w k e own others) = (
    λ free. absurd (ground arith),
    λ h. absurd (ground (arith, h w k (λ s. not_writing (ground arith)))),
  )

can_write_if :
    (c : Config)
    → IsVisible c
    → (w : ℕ) (entry : Option DatasetEntry) → (w ≡ 0) ⊎ ((w ≡ 2) × (entry ≢ none))
    → can_write c w entry ≡ true
unfolding can_write
can_write_if c v w none h = ground (arith, v.early, v.unversioned)
can_write_if c v w (some e) h = ground (arith, v.early, v.unversioned)

acquire_write-succeeds_iff :
    {l : Libs} (c : Config) (n : Node l) (p a : ℕ) (entry : Option DatasetEntry)
    → ((acquire_write c n p a entry).1 ≡ succeed)
      ↔ (can_write c (n.meta (meta_at n a)) entry ≡ true)
unfolding acquire_write
acquire_write-succeeds_iff c n p a entry =
    elim (Bool-cases (can_write c (n.meta (meta_at n a)) entry)) [
      | inl e ↦ (λ _. e, λ _. rw e)
      | inr e ↦ (λ s. absurd (cc (rw e at s)), λ h. absurd (cc (sym e ∙ h)))
    ]

module _ {l : Libs} {procs : ℕ} {c : Config} (v : IsVisible c) (n : Node l) (p a : ℕ)
    (lt : p < procs) (inv : Inv procs n) (al : IsAligned n.share_power a) where
  -- Without READ_VERSIONING and LATE_ACQUIRE, where the lock invariant holds, `open_read` of a
  -- block succeeds exactly when no other processor has the block open for writing.
  pub open_read-succeeds_iff : ((open_read c n p a).1 ≡ succeed) ↔ NoOtherWriter procs p (modes n a)
  open_read-succeeds_iff = elim (Option-cases (entry_of n p a)) [
    | inr (e, have) ↦ (
      λ _ q k ne own. cc (Guards-compatible (inv.guarded a al) q p k lt ne own, ap mode_of have),
      λ _. rw (open_read_old v n p a have),
    )
    | inl new ↦
        let iff =
          readable_iff p lt (λ (w : modes n a p ≡ some write). cc (ap mode_of new))
            (inv.guarded a al) in
        elim (Bool-cases (test_write_bit (n.meta (meta_at n a)))) [
          | inl busy ↦ (
            λ s. absurd (cc (rw (open_read_busy v n p a new busy) at s)),
            λ h. absurd (cc (sym busy ∙ iff.1 h)),
          )
          | inr free ↦ (λ _. iff.0 free, λ _. rw (open_read_new v n p a new free))
        ]
  ]

  -- In the same way, `open_write` of a block succeeds exactly when no other processor has the block
  -- open. (The configuration has neither READ_VERSIONING nor LATE_ACQUIRE, and the lock invariant
  -- holds.)
  pub open_write-succeeds_iff :
      ((open_write c n p a).1 ≡ succeed) ↔ NoOtherHolder procs p (modes n a)
  open_write-succeeds_iff = elim (Option-cases (entry_of n p a)) [
    | inl new ↦ rw (open_write-none v n p a new) (
        let iff =
          writable_iff p lt (λ (w : modes n a p ≡ some write). cc (ap mode_of new))
            (inv.guarded a al) in
        let run = acquire_write-succeeds_iff c n p a none in
        (
          λ s. iff.0 (ground (arith, can_write_free c v _ none (run.0 s))),
          λ h. run.1 (can_write_if c v _ none (ground (arith, iff.1 h, ap mode_of new))),
        ))
    | inr (e, have) ↦ elim (type-cases e.type) [
      | inl wr ↦ rw (open_write_held v n p a have wr) (
        λ _ q k ne. Guards-compatible (inv.guarded a al) p q lt k (λ s. ne (sym s)) (rw (have, wr)),
        λ _. refl,
      )
      | inr rd ↦ rw (open_write_read v n p a have rd) (
          let iff =
            writable_iff p lt (λ (w : modes n a p ≡ some write). cc (ap mode_of have, rd))
              (inv.guarded a al) in
          let run =
            acquire_write-succeeds_iff c
              (set_dataset n p (l.datasets.store (n.tx_dors p).dataset a e)) p a (some e) in
          (
            λ s. iff.0 (elim (can_write_free c v _ (some e) (run.0 s)) [
              | inl z ↦ inl z
              | inr two ↦ inr (two.0, rw (have, rd))
            ]),
            λ h. run.1 (
                can_write_if c v _ (some e)
                  (elim (iff.1 h) [ inl z ↦ inl z | inr two ↦ inr (two.0, λ x. cc) ])),
          ))
    ]
  ]
