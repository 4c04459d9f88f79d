-- ===== src/Stm/Finish/Entries.antt =====
-- What `stm_finish_local` does to the descriptors of a processor.
use cluster_stm.Common.{
  ℕ, ◌≡◌, ◌≢◌, sym, ap, inl, inr, none, arith, Bool-cases, ==_refl, ==_ne, ◌==◌,
}
use cluster_stm.Stm.Types.{Config, StmStatus}
use cluster_stm.Stm.Node.{Libs, Node, entry_of}
use cluster_stm.Stm.Finish.{stm_finish_local, finish_entries-tx_dors, finish_entries-share}

module _ {l : Libs} (c : Config) (status : StmStatus) where
  module _ (n : Node l) (p : ℕ) where
    abbrev pub ended : Node l
    ended = (stm_finish_local c n p status).0

    pub ended-share : ended.share_power ≡ n.share_power
    unfolding stm_finish_local
    ended-share = finish_entries-share c status n (l.datasets.entries (n.tx_dors p).dataset)

    pub ended_self : (b : ℕ) → entry_of ended p b ≡ none
    unfolding stm_finish_local
    ended_self b = rw (entry_of, ==_refl p) (l.datasets.get-init b)

    pub ended-other : (q b : ℕ) → q ≢ p → entry_of ended q b ≡ entry_of n q b
    unfolding stm_finish_local
    ended-other q b ne =
        rw (entry_of, ==_ne p q (λ e. ne (sym e)))
          (ap (λ d. l.datasets.get (d q).dataset b)
            (finish_entries-tx_dors c status n (l.datasets.entries (n.tx_dors p).dataset)))

    pub ended-recorded : (q : ℕ) → (ended.tx_dors q).remote_procs ≡ (n.tx_dors q).remote_procs
    unfolding stm_finish_local
    ended-recorded q = elim (Bool-cases (p == q)) [
      | inl same ↦ ground (arith, same)
      | inr other ↦ rw other (
          ap (λ d. (d q).remote_procs)
            (finish_entries-tx_dors c status n (l.datasets.entries (n.tx_dors p).dataset)))
    ]
