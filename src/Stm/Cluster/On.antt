-- ===== src/Stm/Cluster/On.antt =====
-- `stm_on` and `stm_alloc`: work on behalf of a transaction on another processor.
use mathlib.Core.Path.{subst}
use cluster_stm.Common.{
  ℕ, ◌%◌, ◌^◌, ◌<◌, ◌+◌, ◌≡◌, ◌≢◌, ◌∙◌, sym, ap, refl, true, Option, none, some, [], ◌∷◌, ◌++◌,
  ◌==◌, ltb, if◌then◌else◌, arith, elem, ==_refl, ==_ne, lt→ltb,
}
use cluster_stm.Stm.Types.{Run, ok, ◌>>=◌, Config, StmStatus, abort}
use cluster_stm.Stm.Node.{Libs, Node, set_tx_dor}
use cluster_stm.Stm.Finish.{stm_finish_local}
use cluster_stm.Stm.Alloc.{stm_alloc_local, stm_alloc_handler}
use cluster_stm.Stm.Cluster.{Cluster, set_node, touch, remotes}
use cluster_stm.Stm.Cluster.Remote.{stm_finish, stm_finish_home, decide}
use cluster_stm.Stm.Cluster.Tracking.{elem-remotes, touch-records}
use cluster_stm.Stm.Cluster.Finishing.{NoDup, stm_finish_home-everywhere}

-- A function that `stm_on` runs: it gets the processor that it runs on and the one it runs for, and
-- ends with its result or by a jump.
abbrev pub LocalFn : Libs → Type 0 → Type 0
LocalFn l A = (grt_id src_proc : ℕ) → Cluster l → Run (Cluster l × Option A)

-- `if (tx_dor->tx_depth > 0) hashmap_put(...)`
abbrev pub touch_inside : {l : Libs} → Node l → (src_proc proc : ℕ) → Node l
touch_inside n src_proc proc =
    if ltb 0 (n.tx_dors src_proc).tx_depth then touch n src_proc proc else n

module _ {l : Libs} {A : Type 0} (c : Config) where
  -- `stm_on_handler_work` on processor `dest`; a thread of `stm_on_handler_work_pthread` does the
  -- same.
  unfoldable pub stm_on_handler_work :
      (dest : ℕ)
      → Cluster l
      → (src_proc tx_proc tx_depth : ℕ) → LocalFn l A
      → Run (Cluster l × Option A)
  stm_on_handler_work dest cl src_proc tx_proc tx_depth local_fn =
      let n = cl.nodes dest in
      let d = record (n.tx_dors src_proc) { tx_depth = tx_depth; tx_proc = tx_proc } in
      local_fn dest src_proc (set_node cl dest (set_tx_dor n src_proc d))

  -- The reply: after a jump on the other processor the transaction is aborted.
  unfoldable pub stm_on_reply :
      (grt_id : ℕ) → (src_proc : ℕ) → Cluster l × Option A → Cluster l × Option A
  stm_on_reply grt_id src_proc (cl, some result) = (cl, some result)
  stm_on_reply grt_id src_proc (cl, none) = ((stm_finish c grt_id cl src_proc abort).0, none)

  unfoldable pub stm_on :
      (grt_id : ℕ) → Cluster l → (src_proc dest_proc : ℕ) → LocalFn l A → Run (Cluster l × Option A)
  unfolding stm_on_handler_work stm_on_reply
  stm_on grt_id cl src_proc dest_proc local_fn =
      let d = (cl.nodes grt_id).tx_dors src_proc in
      let touched = set_node cl grt_id (touch_inside (cl.nodes grt_id) src_proc dest_proc) in
      if grt_id == dest_proc
      then local_fn grt_id grt_id cl
      else stm_on_handler_work dest_proc touched src_proc d.tx_proc d.tx_depth local_fn
        >>= (λ r. ok (stm_on_reply grt_id src_proc r))

module _ {l : Libs} where
  -- `stm_alloc`; `result` is the allocator's answer on `mem_proc`, and `nbytes` has 32 bits on both ways, and
  -- no sign when it arrives in `stm_alloc_local`.
  unfoldable pub stm_alloc :
      (grt_id : ℕ) → Cluster l → (src_proc mem_proc nbytes result : ℕ) → Cluster l
  unfolding stm_alloc_local stm_alloc_handler
  stm_alloc grt_id cl src_proc mem_proc nbytes result =
      let d = (cl.nodes grt_id).tx_dors src_proc in
      let touched = set_node cl grt_id (touch_inside (cl.nodes grt_id) src_proc mem_proc) in
      if mem_proc == grt_id
      then set_node cl grt_id (stm_alloc_local (cl.nodes grt_id) src_proc (nbytes % 2 ^ 32) result)
      else set_node touched mem_proc
          (stm_alloc_handler (touched.nodes mem_proc) src_proc d.tx_depth (nbytes % 2 ^ 32) result)

  alloc-allocations :
      (n : Node l) (owner nbytes result : ℕ)
      → 0 < (n.tx_dors owner).tx_depth
      → ((stm_alloc_local n owner nbytes result).tx_dors owner).allocations
        ≡ (n.tx_dors owner).allocations ++ (result ∷ [])
  unfolding stm_alloc_local
  alloc-allocations n owner nbytes result inside =
      rw (stm_alloc_local, lt→ltb 0 (n.tx_dors owner).tx_depth inside, ==_refl owner) refl

  handler-allocations :
      (n : Node l) (owner tx_depth nbytes result : ℕ)
      → 0 < tx_depth
      → ((stm_alloc_handler n owner tx_depth nbytes result).tx_dors owner).allocations
        ≡ (n.tx_dors owner).allocations ++ (result ∷ [])
  unfolding stm_alloc_handler
  handler-allocations n owner tx_depth nbytes result inside =
      alloc-allocations (set_tx_dor n owner (record (n.tx_dors owner) { tx_depth = tx_depth }))
        owner nbytes result (rw (==_refl owner) inside)
      ∙ rw (==_refl owner) refl

module _ {l : Libs} (c : Config) where
  -- The abort of a transaction at home does not wait for locks or versions.
  decide-abort :
      (grt_id : ℕ) (cl : Cluster l) (src_proc : ℕ) → decide c grt_id cl src_proc abort ≡ (cl, abort)
  unfolding decide
  decide-abort grt_id cl src_proc = ground arith

  finish_home-abort :
      (grt_id src_proc q : ℕ) (cl : Cluster l)
      → NoDup (remotes (cl.nodes grt_id) src_proc)
      → elem q (remotes (cl.nodes grt_id) src_proc) ≡ true
      → q ≢ grt_id
      → (stm_finish_home c grt_id cl src_proc abort).0.nodes q
        ≡ (stm_finish_local c (cl.nodes q) src_proc abort).0
  finish_home-abort grt_id src_proc q cl once there ne =
      let e = decide-abort grt_id cl src_proc in
      let all =
        stm_finish_home-everywhere c grt_id src_proc q cl abort
          (subst (λ (r : Cluster l × StmStatus). NoDup (remotes (r.0.nodes grt_id) src_proc))
            (sym e) once)
          ne in
      all
      ∙ ap
          (λ (r : Cluster l × StmStatus).
            if elem q (remotes (r.0.nodes grt_id) src_proc)
            then (stm_finish_local c (r.0.nodes q) src_proc r.1).0
            else r.0.nodes q)
          e
      ∙ rw there refl

  finish-home :
      (grt_id src_proc q : ℕ) (cl : Cluster l) (wanted : StmStatus)
      → ((cl.nodes grt_id).tx_dors src_proc).tx_proc ≡ grt_id
      → q ≢ grt_id
      → (stm_finish c grt_id cl src_proc wanted).0.nodes q
        ≡ (stm_finish_home c grt_id cl src_proc wanted).0.nodes q
  unfolding stm_finish stm_finish_home
  finish-home grt_id src_proc q cl wanted home ne =
      rw (stm_finish, home, ==_refl grt_id) (rw (==_ne grt_id q (λ e. ne (sym e))) refl)

  finish-abort :
      (grt_id src_proc q : ℕ) (cl : Cluster l)
      → ((cl.nodes grt_id).tx_dors src_proc).tx_proc ≡ grt_id
      → NoDup (remotes (cl.nodes grt_id) src_proc)
      → elem q (remotes (cl.nodes grt_id) src_proc) ≡ true
      → q ≢ grt_id
      → (stm_finish c grt_id cl src_proc abort).0.nodes q
        ≡ (stm_finish_local c (cl.nodes q) src_proc abort).0
  finish-abort grt_id src_proc q cl home once there ne =
      finish-home grt_id src_proc q cl abort home ne
      ∙ finish_home-abort grt_id src_proc q cl once there ne

module _ {l : Libs} {A : Type 0} (c : Config) where
  stm_on-remote :
      (grt_id src_proc dest_proc : ℕ) (cl : Cluster l) (local_fn : LocalFn l A)
      → grt_id ≢ dest_proc
      → stm_on c grt_id cl src_proc dest_proc local_fn ≡ (
          stm_on_handler_work c dest_proc
            (set_node cl grt_id (touch_inside (cl.nodes grt_id) src_proc dest_proc))
            src_proc
            ((cl.nodes grt_id).tx_dors src_proc).tx_proc
            ((cl.nodes grt_id).tx_dors src_proc).tx_depth
            local_fn
          >>= (λ r. ok (stm_on_reply c grt_id src_proc r)))
  unfolding stm_on
  stm_on-remote grt_id src_proc dest_proc cl local_fn away =
      rw (stm_on, ==_ne grt_id dest_proc away) refl

  -- When a function that `stm_on` runs on another processor jumps, in a transaction whose home is
  -- the calling processor, `stm_on` ends by a jump, and the other processor has finished the
  -- transaction with an abort: its memory and its metadata are those that `stm_finish_local` leaves.
  -- (The function left the other processor in the home's table of remote processors, which has each
  -- one once.)
  pub stm_on-aborts :
      (grt_id src_proc dest_proc : ℕ) (cl cl' : Cluster l) (local_fn : LocalFn l A)
      → grt_id ≢ dest_proc
      → stm_on_handler_work c dest_proc
          (set_node cl grt_id (touch_inside (cl.nodes grt_id) src_proc dest_proc))
          src_proc
          ((cl.nodes grt_id).tx_dors src_proc).tx_proc
          ((cl.nodes grt_id).tx_dors src_proc).tx_depth
          local_fn
        ≡ ok (cl', none)
      → ((cl'.nodes grt_id).tx_dors src_proc).tx_proc ≡ grt_id
      → NoDup (remotes (cl'.nodes grt_id) src_proc)
      → elem dest_proc (remotes (cl'.nodes grt_id) src_proc) ≡ true
      → (cl'' : Cluster l) × (stm_on c grt_id cl src_proc dest_proc local_fn ≡ ok (cl'', none))
        × (cl''.nodes dest_proc ≡ (stm_finish_local c (cl'.nodes dest_proc) src_proc abort).0)
  unfolding stm_on_reply
  stm_on-aborts grt_id src_proc dest_proc cl cl' local_fn away run home once there = (
    (stm_finish c grt_id cl' src_proc abort).0,
    stm_on-remote grt_id src_proc dest_proc cl local_fn away
        ∙ ap (λ x. x >>= (λ r. ok (stm_on_reply c grt_id src_proc r))) run,
    finish-abort c grt_id src_proc dest_proc cl' home once there (λ e. away (sym e)),
  )

module _ {l : Libs} where
  set_node_self : (cl : Cluster l) (p : ℕ) (n : Node l) → (set_node cl p n).nodes p ≡ n
  set_node_self cl p n = rw (==_refl p) refl

  set_node-other :
      (cl : Cluster l) (p q : ℕ) (n : Node l) → p ≢ q → (set_node cl p n).nodes q ≡ cl.nodes q
  set_node-other cl p q n ne = rw (==_ne p q ne) refl

  stm_alloc-records :
      (grt_id src_proc mem_proc nbytes result : ℕ) (cl : Cluster l)
      → mem_proc ≢ grt_id
      → 0 < ((cl.nodes grt_id).tx_dors src_proc).tx_depth
      → (stm_alloc grt_id cl src_proc mem_proc nbytes result).nodes grt_id
        ≡ touch (cl.nodes grt_id) src_proc mem_proc
  unfolding stm_alloc
  stm_alloc-records grt_id src_proc mem_proc nbytes result cl away inside =
      let d = (cl.nodes grt_id).tx_dors src_proc in
      let touched = set_node cl grt_id (touch_inside (cl.nodes grt_id) src_proc mem_proc) in
      let asked =
        set_node touched mem_proc (
          stm_alloc_handler (touched.nodes mem_proc) src_proc d.tx_depth (nbytes % 2 ^ 32)
            result) in
      let sent : stm_alloc grt_id cl src_proc mem_proc nbytes result ≡ asked =
        rw (stm_alloc, ==_ne mem_proc grt_id away) refl in
      ap (λ (cl' : Cluster l). cl'.nodes grt_id) sent
      ∙ set_node-other touched mem_proc grt_id _ away
      ∙ set_node_self cl grt_id _
      ∙ rw (lt→ltb 0 d.tx_depth inside) refl

  touch-tx_proc :
      (n : Node l) (src_proc proc : ℕ)
      → ((touch n src_proc proc).tx_dors src_proc).tx_proc ≡ (n.tx_dors src_proc).tx_proc
  unfolding touch
  touch-tx_proc n src_proc proc = rw (==_refl src_proc) refl

  stm_alloc-allocations :
      (grt_id src_proc mem_proc nbytes result : ℕ) (cl : Cluster l)
      → mem_proc ≢ grt_id
      → 0 < ((cl.nodes grt_id).tx_dors src_proc).tx_depth
      → (((stm_alloc grt_id cl src_proc mem_proc nbytes result).nodes mem_proc).tx_dors
          src_proc).allocations
        ≡ ((cl.nodes mem_proc).tx_dors src_proc).allocations ++ (result ∷ [])
  unfolding stm_alloc
  stm_alloc-allocations grt_id src_proc mem_proc nbytes result cl away inside =
      rw (==_ne mem_proc grt_id away, ==_refl mem_proc, ==_ne grt_id mem_proc (λ e. away (sym e)))
        (handler-allocations (cl.nodes mem_proc) src_proc
          ((cl.nodes grt_id).tx_dors src_proc).tx_depth (nbytes % 2 ^ 32) result inside)

module _ {l : Libs} (c : Config) where
  -- What a transaction allocated with `stm_alloc` on another processor is freed when the transaction
  -- aborts: the abort at its home makes the other processor finish the transaction, and this frees
  -- the new address after what the transaction allocated there before. (The home is the calling
  -- processor, its table has each remote processor once, and their numbers are below 2^31 - 1.)
  pub stm_alloc-freed :
      (grt_id src_proc mem_proc nbytes result : ℕ) (cl : Cluster l)
      → mem_proc ≢ grt_id
      → mem_proc + 1 < 2 ^ 31
      → 0 < ((cl.nodes grt_id).tx_dors src_proc).tx_depth
      → ((cl.nodes grt_id).tx_dors src_proc).tx_proc ≡ grt_id
      → NoDup (remotes (touch (cl.nodes grt_id) src_proc mem_proc) src_proc)
      → ((stm_finish c grt_id
              (stm_alloc grt_id cl src_proc mem_proc nbytes result)
              src_proc
              abort).0.nodes
            mem_proc
          ≡ (stm_finish_local c
              ((stm_alloc grt_id cl src_proc mem_proc nbytes result).nodes mem_proc)
              src_proc
              abort).0)
        × ((stm_finish_local c
              ((stm_alloc grt_id cl src_proc mem_proc nbytes result).nodes mem_proc)
              src_proc
              abort).1
            ≡ ((cl.nodes mem_proc).tx_dors src_proc).allocations ++ (result ∷ []))
  unfolding stm_finish_local
  stm_alloc-freed grt_id src_proc mem_proc nbytes result cl away small inside home once =
      let n = cl.nodes grt_id in
      let cl' = stm_alloc grt_id cl src_proc mem_proc nbytes result in
      let same = stm_alloc-records grt_id src_proc mem_proc nbytes result cl away inside in
      (
        finish-abort c grt_id src_proc mem_proc cl'
            (ap (λ (m : Node l). (m.tx_dors src_proc).tx_proc) same
              ∙ touch-tx_proc n src_proc mem_proc
              ∙ home)
            (subst (λ (m : Node l). NoDup (remotes m src_proc)) (sym same) once)
            (ap (λ (m : Node l). elem mem_proc (remotes m src_proc)) same
              ∙ elem-remotes (touch n src_proc mem_proc) src_proc mem_proc (omega (arith, small))
                  (touch-records n src_proc mem_proc))
            away,
        stm_alloc-allocations grt_id src_proc mem_proc nbytes result cl away inside,
      )
