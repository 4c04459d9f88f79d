-- ===== src/Stm/Cluster/Exclusion.antt =====
-- Locks on all processors, in any interleaving: who can hold what, and what the end of a
-- transaction leaves.
use cluster_stm.Common.{
  ◌∙◌, ℕ, ◌<◌, ◌≤◌, ◌≡◌, ◌≢◌, sym, ap, refl, inl, inr, true, none, some, arith, Option-cases,
  Bool-cases, eq-or-ne, ==_ne, ==_refl, [], ◌==◌, elem, Option,
}
use cluster_stm.Common.Family.{update}
use cluster_stm.Stm.Types.{read, Config, StmStatus}
use cluster_stm.Stm.Node.{DatasetEntry, Libs, Node, entry_of, meta_at}
use cluster_stm.Stm.Finish.Entries.{ended-recorded}
use cluster_stm.Stm.Locking.{
  Inv-exclusive, Inv-released, IsVisible, IsAligned, IsFresh, IsFresh-Inv, idle, max_procs, mode_of,
  open_block-Inv, copy_chunk-Inv,
}
use cluster_stm.Stm.Cluster.{Cluster, set_node, touch, remotes}
use cluster_stm.Stm.Cluster.Remote.{clear_remotes}
use cluster_stm.Stm.Cluster.Local.{open_block-IsBy, copy_chunk-IsBy}
use cluster_stm.Stm.Cluster.Protocol.{
  running, finishing, World, SameLocks, at, touched_by, MayUse, finished, Move, touch_move,
  open_move, chunk_move, quiet_move, finish_move, reply_move, end_move, Moves, here, later,
}
use cluster_stm.Stm.Cluster.Tracking.{
  IsHeld, Tracked, elem-without, elem-remotes, touch-keeps, Visits-mono, SameLocks-Inv, Tracked-at,
  Tracked-by, Tracked-finished,
}

module _ {l : Libs} (n : Node l) (p : ℕ) where
  touch-SameLocks : (m : ℕ) → SameLocks n (touch n p m)
  unfolding touch
  touch-SameLocks m = record {
    same_share = refl;
    same_base = refl;
    same_meta = refl;
    same_datasets =
        λ q. elim (Bool-cases (p == q)) [ inl e ↦ ground (arith, e) | inr e ↦ ground (arith, e) ];
  }

  clear_remotes-SameLocks : SameLocks n (clear_remotes n p)
  clear_remotes-SameLocks = record {
    same_share = refl;
    same_base = refl;
    same_meta = refl;
    same_datasets =
        λ q. elim (Bool-cases (p == q)) [ inl e ↦ ground (arith, e) | inr e ↦ ground (arith, e) ];
  }

cleared-IsHeld :
    {l : Libs} (cl : Cluster l) (p q x : ℕ)
    → IsHeld (set_node cl p (clear_remotes (cl.nodes p) p)) q x
    → IsHeld cl q x
cleared-IsHeld {l} cl p q x (a, held) = elim (eq-or-ne p x) [
  | inr ne ↦ (a, rw (entry_of, ==_ne p x ne) at held)
  | inl e ↦ (
    a,
    λ gone. (rw (sym e, ==_refl p) at held) (
        ap (λ d. l.datasets.get d a) ((clear_remotes-SameLocks (cl.nodes p) p).same_datasets q)
        ∙ ap (λ y. entry_of (cl.nodes y) q a) e
        ∙ gone),
  )
]

module _ {l : Libs} {procs : ℕ} {c : Config} (v : IsVisible c) {w : World l}
    (s : Tracked procs w) where
  same-Tracked :
      (m : ℕ) (n' : Node l)
      → SameLocks (w.cluster.nodes m) n'
      → ((k : ℕ)
          → l.procs.get (touched_by w.cluster m) k ≢ none
          → l.procs.get (n'.tx_dors m).remote_procs k ≢ none)
      → Tracked procs (at w m n')
  same-Tracked m n' k grows =
      Tracked-at w s m n' (SameLocks-Inv k (s.locks m))
        (λ q a held.
          s.known q m (a, λ gone. held (ap (λ d. l.datasets.get d a) (k.same_datasets q) ∙ gone)))
        grows

  end-Tracked :
      (p : ℕ) (status : StmStatus)
      → w.phase p ≡ finishing status []
      → Tracked procs (record {
        cluster = set_node w.cluster p (clear_remotes (w.cluster.nodes p) p);
        phase = update w.phase p running;
      })
  end-Tracked p status over = record {
    locks = λ x. elim (Bool-cases (p == x)) [
      | inl e ↦ rw e (SameLocks-Inv (clear_remotes-SameLocks _ p) (s.locks p))
      | inr e ↦ rw e (s.locks x)
    ];
    known = λ q x held.
        let before = s.known q x (cleared-IsHeld w.cluster p q x held) in
        elim (eq-or-ne p q) [
          | inl e ↦ absurd (cc (rw (sym e, over) at before))
          | inr ne ↦ rw (==_ne p q ne) (
              Visits-mono (w.phase q) w.cluster _ q x (λ k h. rw (touched_by, ==_ne p q ne) h)
                before)
        ];
  }

  Move-Tracked : {w' : World l} → Move c procs w w' → Tracked procs w'
  Move-Tracked (touch_move p m run) =
      same-Tracked p _ (touch-SameLocks _ p m) (touch-keeps (w.cluster.nodes p) p m)
  Move-Tracked (open_move p m a t run lt may al) =
      Tracked-by w s m _ (open_block-Inv v p a t lt (s.locks m) al) p
        (open_block-IsBy p (w.cluster.nodes m) c a t) (rw run may)
  Move-Tracked (chunk_move p m a offset prv count t run may e) =
      Tracked-by w s m _ (copy_chunk-Inv (s.locks m) p a offset prv count t e) p
        (copy_chunk-IsBy p (w.cluster.nodes m) a offset prv count t e) (rw run may)
  Move-Tracked (quiet_move m k) = same-Tracked m _ k.same_locks (λ j h. rw (k.same_remotes m) h)
  Move-Tracked (finish_move p status run lt) =
      Tracked-finished v w s p lt p status _
        (λ x ne held. visited x ne (rw run at (s.known p x held)))
    where
      visited :
          (x : ℕ)
          → x ≢ p
          → MayUse w.cluster p x
          → elem x (remotes (finished c w p p status) p) ≡ true
      visited x ne (inl home) = absurd (ne home)
      visited x ne (inr (small, h)) =
          elem-remotes (finished c w p p status) p x small
            (rw (ended-recorded c status (w.cluster.nodes p) p p) h)
  Move-Tracked (reply_move p m status ms run lt there) =
      Tracked-finished v w s p lt m status _
        (λ x ne held. elem-without x m ms ne (rw run at (s.known p x held)))
  Move-Tracked (end_move p status over) = end-Tracked p status over

Moves-Tracked :
    {l : Libs} {procs : ℕ} {c : Config} {w w' : World l}
    → IsVisible c
    → Tracked procs w
    → Moves c procs w w'
    → Tracked procs w'
Moves-Tracked v s here = s
Moves-Tracked v s (later ms move) = Move-Tracked v (Moves-Tracked v s ms) move

-- Every processor after `stm_init`, and no transaction has begun to end.
pub record IsStarted {l : Libs} (w : World l) : Type 0 where
  pub fresh : (m : ℕ) → IsFresh (w.cluster.nodes m)
  pub begun : (p : ℕ) → w.phase p ≡ running

mode_of-none : (o : Option DatasetEntry) → mode_of o ≡ none → o ≡ none
mode_of-none none h = refl
mode_of-none (some e) h = absurd (cc h)

module _ {l : Libs} {c : Config} {procs : ℕ} {w w' : World l} (v : IsVisible c)
    (few : procs ≤ max_procs) (f : IsStarted w) (r : Moves c procs w w') where
  started-Tracked : Tracked procs w
  started-Tracked = record {
    locks = λ m. IsFresh-Inv (f.fresh m) procs few;
    known = λ p m held. absurd (held.1 (mode_of-none _ (idle (f.fresh m) held.0 p)));
  }

  reached : Tracked procs w'
  reached = Moves-Tracked v started-Tracked r

  -- Without READ_VERSIONING and LATE_ACQUIRE, in every state that moves of at most `max_procs`
  -- processors reach, in any interleaving, from a cluster after `stm_init`: two processors that have
  -- a block of any processor open both have it open for reading, and the metadata word of a block
  -- that no processor has open is zero.
  pub cluster_exclusion :
      (m a : ℕ)
      → ((p q : ℕ) (e e' : DatasetEntry)
          → p < procs
          → q < procs
          → p ≢ q
          → entry_of (w'.cluster.nodes m) p a ≡ some e
          → entry_of (w'.cluster.nodes m) q a ≡ some e'
          → (e.type ≡ read) × (e'.type ≡ read))
        × (IsAligned (w'.cluster.nodes m).share_power a
            → ((q : ℕ) → q < procs → entry_of (w'.cluster.nodes m) q a ≡ none)
            → (w'.cluster.nodes m).meta (meta_at (w'.cluster.nodes m) a) ≡ 0)
  cluster_exclusion m a =
      (λ p q e e'. Inv-exclusive (reached.locks m) a p q, Inv-released (reached.locks m) a)

  -- In every such state, a transaction whose end has heard from every processor that it had recorded
  -- has no block open on any processor.
  pub nothing_left :
      (p m a : ℕ) (status : StmStatus)
      → w'.phase p ≡ finishing status []
      → entry_of (w'.cluster.nodes m) p a ≡ none
  nothing_left p m a status over = elim (Option-cases (entry_of (w'.cluster.nodes m) p a)) [
    | inl gone ↦ gone
    | inr (e, have) ↦ absurd (cc (rw over at (reached.known p m (a, λ gone. cc (gone, have)))))
  ]
