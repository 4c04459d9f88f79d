-- ===== src/Stm/Cluster/Remote.antt =====
-- The end of a transaction: `stm_acquire`, `stm_validate`, `stm_finish_home`, `stm_finish` and
-- `stm_commit`. The handlers of the remote processors run in the order of the requests.
use cluster_stm.Common.{ℕ, ◌+◌, ◌-◌, ◌%◌, ◌^◌, List, [], ◌∷◌, ◌==◌, ◌&&◌, if◌then◌else◌}
use cluster_stm.Stm.Types.{Config, StmStatus, commit, abort, is_commit}
use cluster_stm.Stm.Node.{Libs, Node, set_tx_dor}
use cluster_stm.Stm.Finish.{stm_finish_local, stm_acquire_local, stm_validate_local}
use cluster_stm.Stm.Cluster.{Cluster, Ending, returned, jumped, set_node, remotes}

-- `if (status_arr[i] == ABORT) status = ABORT`
abbrev pub both : StmStatus → StmStatus → StmStatus
both commit s = s
both abort s = abort

module _ {l : Libs} (c : Config) where
  -- `stm_acquire_handler` on each processor.
  unfoldable pub acquire_remotes : Cluster l → ℕ → List ℕ → Cluster l × StmStatus
  acquire_remotes cl src_proc [] = (cl, commit)
  acquire_remotes cl src_proc (p ∷ ps) =
      let (n, status) = stm_acquire_local c (cl.nodes p) src_proc in
      let (cl', rest) = acquire_remotes (set_node cl p n) src_proc ps in (cl', both status rest)

  unfoldable pub stm_acquire : (grt_id : ℕ) → Cluster l → ℕ → Cluster l × StmStatus
  unfolding acquire_remotes
  stm_acquire grt_id cl src_proc =
      let (n, status) = stm_acquire_local c (cl.nodes grt_id) src_proc in
      let cl' = set_node cl grt_id n in
      if is_commit status then acquire_remotes cl' src_proc (remotes n src_proc) else (cl', abort)

  -- `stm_finish_handler` on each processor.
  unfoldable pub finish_remotes : Cluster l → ℕ → StmStatus → List ℕ → Cluster l
  finish_remotes cl src_proc status [] = cl
  finish_remotes cl src_proc status (p ∷ ps) =
      finish_remotes (set_node cl p (stm_finish_local c (cl.nodes p) src_proc status).0) src_proc
        status ps

module _ {l : Libs} where
  -- `stm_validate_handler` on each processor.
  unfoldable pub validate_remotes : Cluster l → ℕ → List ℕ → StmStatus
  validate_remotes cl src_proc [] = commit
  validate_remotes cl src_proc (p ∷ ps) =
      both (stm_validate_local (cl.nodes p) src_proc) (validate_remotes cl src_proc ps)

  unfoldable pub stm_validate : (grt_id : ℕ) → Cluster l → ℕ → StmStatus
  unfolding validate_remotes
  stm_validate grt_id cl src_proc =
      if is_commit (stm_validate_local (cl.nodes grt_id) src_proc)
      then validate_remotes cl src_proc (remotes (cl.nodes grt_id) src_proc)
      else abort

  -- `hashmap_clear(remote_procs)`
  abbrev pub clear_remotes : Node l → ℕ → Node l
  clear_remotes n src_proc =
      set_tx_dor n src_proc (record (n.tx_dors src_proc) { remote_procs = l.procs.init })

module _ {l : Libs} (c : Config) where
  -- The status after `stm_acquire` and `stm_validate`, as far as they are compiled.
  unfoldable pub decide : (grt_id : ℕ) → Cluster l → ℕ → StmStatus → Cluster l × StmStatus
  unfolding stm_acquire stm_validate
  decide grt_id cl src_proc status =
      let (cl', acquired) =
        if c.late_acquire && is_commit status
        then stm_acquire c grt_id cl src_proc
        else (cl, status) in
      if c.read_versioning && is_commit acquired
      then (cl', stm_validate grt_id cl' src_proc)
      else (cl', acquired)

  unfoldable pub stm_finish_home : (grt_id : ℕ) → Cluster l → ℕ → StmStatus → Cluster l × StmStatus
  unfolding decide finish_remotes
  stm_finish_home grt_id cl src_proc wanted =
      let (cl₁, status) = decide grt_id cl src_proc wanted in
      let n = (stm_finish_local c (cl₁.nodes grt_id) src_proc status).0 in
      let cl₂ = finish_remotes c (set_node cl₁ grt_id n) src_proc status (remotes n src_proc) in
      (set_node cl₂ grt_id (clear_remotes (cl₂.nodes grt_id) src_proc), status)

  -- `++commit_count` or `++abort_count`
  abbrev pub count : Node l → StmStatus → Node l
  count n commit = record n { commit_count = (n.commit_count + 1) % 2 ^ 64 }
  count n abort = record n { abort_count = (n.abort_count + 1) % 2 ^ 64 }

  unfoldable pub stm_finish : (grt_id : ℕ) → Cluster l → ℕ → StmStatus → Cluster l × Ending
  unfolding stm_finish_home
  stm_finish grt_id cl src_proc wanted =
      let (cl', status) =
        if ((cl.nodes grt_id).tx_dors src_proc).tx_proc == grt_id
        then stm_finish_home grt_id cl src_proc wanted
        else (cl, wanted) in
      (
        set_node cl' grt_id (count (cl'.nodes grt_id) status),
        if is_commit status then returned else jumped,
      )

  -- `stm_commit` once `tx_depth` is `depth`.
  unfoldable pub commit_at : (grt_id : ℕ) → Cluster l → ℕ → (depth : ℕ) → Cluster l × Ending
  unfolding stm_finish
  commit_at grt_id cl src_proc depth =
      let n = cl.nodes grt_id in
      let d = record (n.tx_dors src_proc) { tx_depth = depth } in
      let cl' = set_node cl grt_id (set_tx_dor n src_proc d) in
      if depth == 0 then stm_finish grt_id cl' src_proc commit else (cl', returned)

  unfoldable pub stm_commit : (grt_id : ℕ) → Cluster l → ℕ → Cluster l × Ending
  unfolding commit_at
  stm_commit grt_id cl src_proc =
      commit_at grt_id cl src_proc
        ((((cl.nodes grt_id).tx_dors src_proc).tx_depth + (2 ^ 16 - 1)) % 2 ^ 16)
