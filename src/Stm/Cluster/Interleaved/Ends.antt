-- ===== src/Stm/Cluster/Interleaved/Ends.antt =====
-- The end of a transaction is a sequence of moves.
use mathlib.Core.Path.{subst}
use cluster_stm.Common.{
  ◌∙◌, ℕ, ◌<◌, ◌≡◌, sym, ap, refl, inl, inr, Bool-cases, ==_refl, List, [], ◌∷◌, ◌==◌,
}
use cluster_stm.Common.Family.{update}
use cluster_stm.Stm.Types.{Config, Status, succeed, fail, StmStatus, abort}
use cluster_stm.Stm.Node.{Libs}
use cluster_stm.Stm.Finish.{stm_finish_local}
use cluster_stm.Stm.Locking.{IsVisible}
use cluster_stm.Stm.Cluster.{Cluster, set_node, remotes}
use cluster_stm.Stm.Cluster.Remote.{
  clear_remotes, decide, finish_remotes, stm_finish_home, stm_finish,
}
use cluster_stm.Stm.Cluster.Calls.{or_abort}
use cluster_stm.Stm.Cluster.Protocol.{
  Phase, running, finishing, World, without, finish_move, reply_move, end_move, Moves, later,
}
use cluster_stm.Stm.Cluster.Interleaved.Access.{update-update, update-eq, Leads, quiet_at}
use cluster_stm.Stm.Cluster.Interleaved.Quiet.{count-IsQuiet}

module _ {l : Libs} (c : Config) (procs : ℕ) (w₀ : World l) (ph : ℕ → Phase) (p : ℕ)
    (run : ph p ≡ running) (lt : p < procs) (status : StmStatus) where
  -- Moves lead to this cluster, with the transaction of `p` at this point of its end.
  abbrev pub EndingAt : Cluster l → Phase → Type 0
  EndingAt cl x = Moves c procs w₀ (record { cluster = cl; phase = update ph p x })

  pub replies :
      (ms : List ℕ) (cl : Cluster l)
      → EndingAt cl (finishing status ms)
      → EndingAt (finish_remotes c cl p status ms) (finishing status [])
  unfolding finish_remotes
  replies [] cl r = r
  replies (m ∷ ms) cl r = replies ms _ (
      subst
        (λ f. Moves c procs w₀ (record {
          cluster = set_node cl m (stm_finish_local c (cl.nodes m) p status).0;
          phase = f;
        }))
        (update-update ph p (finishing status (m ∷ ms)) (finishing status (without m (m ∷ ms)))
          ∙ ap (λ x. update ph p (finishing status x)) (rw (==_refl m) refl))
        (later r (reply_move p m status (m ∷ ms) (rw (==_refl p) refl) lt (rw (==_refl m) refl))))

module _ {l : Libs} {c : Config} (v : IsVisible c) (procs : ℕ) (w₀ : World l) (ph : ℕ → Phase)
    (p : ℕ) (run : ph p ≡ running) (lt : p < procs) where
  abbrev pub LeadsTo : Cluster l → Type 0
  LeadsTo = Leads c procs w₀ ph p run lt

  pub ended-Leads :
      (cl : Cluster l) (status : StmStatus)
      → LeadsTo cl
      → (let n = (stm_finish_local c (cl.nodes p) p status).0 in
          let cl₂ = finish_remotes c (set_node cl p n) p status (remotes n p) in
          LeadsTo (set_node cl₂ p (clear_remotes (cl₂.nodes p) p)))
  ended-Leads cl status r =
      let n = (stm_finish_local c (cl.nodes p) p status).0 in
      let cl₂ = finish_remotes c (set_node cl p n) p status (remotes n p) in
      let heard =
        replies c procs w₀ ph p run lt status (remotes n p) (set_node cl p n)
          (later r (finish_move p status run lt)) in
      subst
        (λ f.
          Moves c procs w₀
            (record { cluster = set_node cl₂ p (clear_remotes (cl₂.nodes p) p); phase = f }))
        (update-update ph p (finishing status []) running ∙ update-eq ph p running (sym run))
        (later heard (end_move p status (rw (==_refl p) refl)))

  -- With visible readers and early locks nothing is left to decide.
  pub decided : (cl : Cluster l) (wanted : StmStatus) → decide c p cl p wanted ≡ (cl, wanted)
  unfolding decide
  decided cl wanted = simp (v.early, v.unversioned) refl

  abbrev pub home_of : Cluster l × StmStatus → Cluster l
  home_of r =
      let n = (stm_finish_local c (r.0.nodes p) p r.1).0 in
      let cl₂ = finish_remotes c (set_node r.0 p n) p r.1 (remotes n p) in
      set_node cl₂ p (clear_remotes (cl₂.nodes p) p)

  pub stm_finish_home-Leads :
      (cl : Cluster l) (wanted : StmStatus)
      → LeadsTo cl
      → LeadsTo (stm_finish_home c p cl p wanted).0
  unfolding stm_finish_home
  stm_finish_home-Leads cl wanted r =
      subst (λ x. LeadsTo (home_of x)) (sym (decided cl wanted)) (ended-Leads cl wanted r)

  pub stm_finish-Leads :
      (cl : Cluster l) (wanted : StmStatus) → LeadsTo cl → LeadsTo (stm_finish c p cl p wanted).0
  unfolding stm_finish
  stm_finish-Leads cl wanted r = elim (Bool-cases (((cl.nodes p).tx_dors p).tx_proc == p)) [
    | inl home ↦
        let (cl', status) = stm_finish_home c p cl p wanted in
        rw home (
          quiet_at c procs w₀ ph p run lt cl' p _ (count-IsQuiet c (cl'.nodes p) status)
            (stm_finish_home-Leads cl wanted r))
    | inr away ↦
        rw away (quiet_at c procs w₀ ph p run lt cl p _ (count-IsQuiet c (cl.nodes p) wanted) r)
  ]

  pub or_abort-Leads :
      (fuel : ℕ) (cl : Cluster l) (s : Status) → LeadsTo cl → LeadsTo (or_abort c fuel p cl p s).0
  or_abort-Leads fuel cl succeed r = r
  or_abort-Leads fuel cl fail r = stm_finish-Leads cl abort r
