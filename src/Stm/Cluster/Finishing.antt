-- ===== src/Stm/Cluster/Finishing.antt =====
-- What the end of a transaction does on every processor that it touched.
use cluster_stm.Common.{elem}
use cluster_stm.Common.{
  ℕ, ◌+◌, ◌-◌, ◌%◌, ◌^◌, ◌<◌, ◌≡◌, ◌≢◌, ◌∙◌, refl, sym, ap, inl, inr, false, List, [], ◌∷◌, ◌==◌,
  if◌then◌else◌, arith, Bool-cases, ==_refl, ==_ne, ==→eq,
}
use cluster_stm.Stm.Types.{Config, StmStatus, commit}
use cluster_stm.Stm.Node.{Libs, Node, set_tx_dor}
use cluster_stm.Stm.Finish.{stm_finish_local, stm_validate_local}
use cluster_stm.Stm.Cluster.{Cluster, Ending, returned, set_node, remotes, stm_start}
use cluster_stm.Stm.Cluster.Remote.{finish_remotes, decide, stm_finish_home, stm_commit, commit_at}

abbrev pub NoDup : List ℕ → Type 0
NoDup [] = Unit
NoDup (p ∷ ps) = (elem p ps ≡ false) × NoDup ps

module _ {l : Libs} (cl : Cluster l) (src_proc : ℕ) where
  abbrev pub Validates : List ℕ → Type 0
  Validates [] = Unit
  Validates (p ∷ ps) = (stm_validate_local (cl.nodes p) src_proc ≡ commit) × Validates ps

module _ {l : Libs} (c : Config) where
  remotes-finish :
      (n : Node l) (src_proc : ℕ) (status : StmStatus)
      → remotes (stm_finish_local c n src_proc status).0 src_proc ≡ remotes n src_proc
  unfolding stm_finish_local remotes
  remotes-finish n src_proc status = rw (==_refl src_proc)

  finish_remotes-at :
      (src_proc : ℕ) (status : StmStatus) (q : ℕ) (ps : List ℕ) (cl : Cluster l)
      → NoDup ps
      → (finish_remotes c cl src_proc status ps).nodes q
        ≡ (if elem q ps then (stm_finish_local c (cl.nodes q) src_proc status).0 else cl.nodes q)
  unfolding finish_remotes
  finish_remotes-at src_proc status q [] cl d = refl
  finish_remotes-at src_proc status q (p ∷ ps) cl (new, d) =
      finish_remotes-at src_proc status q ps _ d ∙ elim (Bool-cases (q == p)) [
        | inl e ↦ rw (e, ==→eq q p e) (rw (new, ==_refl p))
        | inr ne ↦ rw (ne, ==_ne p q (λ s. cc (sym ne, ==_refl q, s)))
      ]

  -- After `stm_finish_home`, each other processor has finished the transaction with the status that
  -- acquiring and validating left if the transaction had touched it, and is as before if it had
  -- not. (The table has each remote processor once.)
  pub stm_finish_home-everywhere :
      (grt_id src_proc q : ℕ) (cl : Cluster l) (wanted : StmStatus)
      → NoDup (remotes ((decide c grt_id cl src_proc wanted).0.nodes grt_id) src_proc)
      → q ≢ grt_id
      → (stm_finish_home c grt_id cl src_proc wanted).0.nodes q ≡ (
          if elem q (remotes ((decide c grt_id cl src_proc wanted).0.nodes grt_id) src_proc)
          then (stm_finish_local c
              ((decide c grt_id cl src_proc wanted).0.nodes q)
              src_proc
              (decide c grt_id cl src_proc wanted).1).0
          else (decide c grt_id cl src_proc wanted).0.nodes q)
  unfolding stm_finish_home
  stm_finish_home-everywhere grt_id src_proc q cl wanted d ne =
      let r = decide c grt_id cl src_proc wanted in
      let same = remotes-finish (r.0.nodes grt_id) src_proc r.1 in
      rw (==_ne grt_id q (λ s. ne (sym s)), same)
        (finish_remotes-at src_proc r.1 q _ _ d ∙ rw (==_ne grt_id q (λ s. ne (sym s))))

  abbrev at_depth : Node l → ℕ → ℕ → Node l
  at_depth n src_proc k = set_tx_dor n src_proc (record (n.tx_dors src_proc) { tx_depth = k })

  stm_start-inner :
      (n : Node l) (src_proc : ℕ)
      → 0 < (n.tx_dors src_proc).tx_depth
      → (n.tx_dors src_proc).tx_depth + 1 < 2 ^ 16
      → stm_start n src_proc ≡ at_depth n src_proc ((n.tx_dors src_proc).tx_depth + 1)
  unfolding stm_start
  stm_start-inner n src_proc deep fits =
      let k = (n.tx_dors src_proc).tx_depth in
      let whole : (k + 1) % 2 ^ 16 ≡ k + 1 = omega arith in
      let not_first : (k + 1 == 1) ≡ false = ground arith in rw (stm_start, whole, not_first)

  commit_at-inner :
      (cl : Cluster l) (grt_id src_proc k : ℕ)
      → 0 < k
      → commit_at c grt_id cl src_proc k
        ≡ (set_node cl grt_id (at_depth (cl.nodes grt_id) src_proc k), returned)
  unfolding commit_at
  commit_at-inner cl grt_id src_proc k pos = rw (commit_at, ==_ne k 0 (λ e. omega (arith, e)))

  same_depth :
      (n : Node l) (src_proc r k : ℕ)
      → k ≡ (n.tx_dors src_proc).tx_depth
      → (at_depth (at_depth n src_proc (k + 1)) src_proc k).tx_dors r ≡ n.tx_dors r
  same_depth n src_proc r k e = elim (Bool-cases (src_proc == r)) [
    | inl q ↦ rw (sym (==→eq src_proc r q), ==_refl src_proc, e)
    | inr q ↦ rw q
  ]

  stm_commit-inner :
      (cl : Cluster l) (grt_id src_proc : ℕ)
      → 1 < ((cl.nodes grt_id).tx_dors src_proc).tx_depth
      → ((cl.nodes grt_id).tx_dors src_proc).tx_depth < 2 ^ 16
      → stm_commit c grt_id cl src_proc ≡ (
        set_node cl grt_id (
            at_depth
              (cl.nodes grt_id)
              src_proc
              (((cl.nodes grt_id).tx_dors src_proc).tx_depth - 1)),
        returned,
      )
  unfolding stm_commit
  stm_commit-inner cl grt_id src_proc deep fits =
      let k = ((cl.nodes grt_id).tx_dors src_proc).tx_depth in
      let less : (k + (2 ^ 16 - 1)) % 2 ^ 16 ≡ k - 1 = omega arith in
      ap (commit_at c grt_id cl src_proc) less
      ∙ commit_at-inner cl grt_id src_proc (k - 1) (omega arith)

  -- A transaction that starts inside another one commits without any effect: it returns, and every
  -- descriptor is as it was. (The depth fits in 16 bits.)
  stm_commit-nested :
      (grt_id src_proc q r : ℕ) (cl : Cluster l)
      → 0 < ((cl.nodes grt_id).tx_dors src_proc).tx_depth
      → ((cl.nodes grt_id).tx_dors src_proc).tx_depth + 1 < 2 ^ 16
      → ((stm_commit c grt_id
            (set_node cl grt_id (stm_start (cl.nodes grt_id) src_proc))
            src_proc).1
          ≡ returned)
        × (((stm_commit c grt_id
                  (set_node cl grt_id (stm_start (cl.nodes grt_id) src_proc))
                  src_proc).0.nodes
                q).tx_dors
              r
            ≡ (cl.nodes q).tx_dors r)
  stm_commit-nested grt_id src_proc q r cl deep fits =
      let k = ((cl.nodes grt_id).tx_dors src_proc).tx_depth in
      let cl' = set_node cl grt_id (at_depth (cl.nodes grt_id) src_proc (k + 1)) in
      let less : ((at_depth (cl.nodes grt_id) src_proc (k + 1)).tx_dors src_proc).tx_depth - 1 ≡ k =
        rw (==_refl src_proc) (omega arith) in
      let run =
        ap (λ n. stm_commit c grt_id (set_node cl grt_id n) src_proc)
          (stm_start-inner (cl.nodes grt_id) src_proc deep fits)
        ∙ stm_commit-inner cl' grt_id src_proc (rw (==_refl grt_id, ==_refl src_proc) (omega arith))
            (rw (==_refl grt_id, ==_refl src_proc) (omega arith)) in
      (
        ap (λ (s : Cluster l × Ending). s.1) run,
        ap (λ (s : Cluster l × Ending). (s.0.nodes q).tx_dors r) run
            ∙ elim (Bool-cases (grt_id == q)) [
              | inl e ↦
                  rw (sym (==→eq grt_id q e), ==_refl grt_id, less)
                    (same_depth (cl.nodes grt_id) src_proc r k refl)
              | inr e ↦ rw e
            ],
      )
