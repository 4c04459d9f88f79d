-- ===== src/Stm/Cluster/Tracking.antt =====
-- Every processor where a transaction has a block open is one that its end visits.
use mathlib.Core.Path.{subst}
use cluster_stm.Common.{
  ◌∙◌, ℕ, ◌+◌, ◌^◌, ◌<◌, ◌≡◌, ◌≢◌, sym, ap, refl, inl, inr, true, none, Bool-cases, eq-or-ne, ==→eq,
  ==_ne, ==_refl, List, [], ◌∷◌, ◌==◌, map, elem, lookup,
}
use cluster_stm.Common.Family.{update}
use cluster_stm.Stm.Types.{Config, StmStatus}
use cluster_stm.Stm.Node.{Libs, Node, entry_of}
use cluster_stm.Stm.Hashmap.{put-keeps, put_there}
use cluster_stm.Stm.Finish.Entries.{ended_self, ended-other, ended-recorded}
use cluster_stm.Stm.Locking.{Guards-cong, mode_of, IsAligned, IsVisible, Inv, stm_finish_local-Inv}
use cluster_stm.Stm.Cluster.{Cluster, set_node, touch, remotes, entable, detable, detable-entable}
use cluster_stm.Stm.Cluster.Local.{IsBy}
use cluster_stm.Stm.Cluster.Protocol.{
  SameLocks, Phase, running, finishing, World, without, at, touched_by, MayUse, finished,
}

-- Where the end of the transaction of `p` finds processor `m`.
abbrev pub Visits : {l : Libs} → Phase → Cluster l → (p m : ℕ) → Type 0
Visits running cl p m = MayUse cl p m
Visits (finishing status ms) cl p m = elem m ms ≡ true

abbrev pub IsHeld : {l : Libs} → Cluster l → (p m : ℕ) → Type 0
IsHeld cl p m = (a : ℕ) × (entry_of (cl.nodes m) p a ≢ none)

pub record Tracked {l : Libs} (procs : ℕ) (w : World l) : Type 0 where
  pub locks : (m : ℕ) → Inv procs (w.cluster.nodes m)
  pub known : (p m : ℕ) → IsHeld w.cluster p m → Visits (w.phase p) w.cluster p m

pub elem-without : (x m : ℕ) (ms : List ℕ) → x ≢ m → elem x ms ≡ true → elem x (without m ms) ≡ true
elem-without x m [] ne h = h
elem-without x m (p ∷ ms) ne h = elim (Bool-cases (m == p)) [
  | inl e ↦ rw e (rw (==_ne x p (λ s. ne (s ∙ sym (==→eq m p e)))) at h)
  | inr e ↦ rw e (elim (Bool-cases (x == p)) [
    | inl first ↦ rw first refl
    | inr on ↦ rw on (elem-without x m ms ne (rw on at h))
  ])
]

elem-map :
    (k : ℕ) (es : List (ℕ × Unit {0}))
    → lookup k es ≢ none
    → elem (detable k) (map (λ (e : ℕ × Unit {0}). detable e.0) es) ≡ true
unfolding lookup
elem-map k [] h = absurd (h refl)
elem-map k ((j, u) ∷ es) h = elim (Bool-cases (k == j)) [
  | inl e ↦ rw (==→eq k j e, ==_refl (detable j)) refl
  | inr e ↦ elim (Bool-cases (detable k == detable j)) [
    | inl same ↦ rw same refl
    | inr other ↦ rw other (elem-map k es (rw e at h))
  ]
]

module _ {l : Libs} where
  -- A processor that was recorded is among those that the end visits.
  pub elem-remotes :
      (n : Node l) (p m : ℕ)
      → m + 1 < 2 ^ 63
      → l.procs.get (n.tx_dors p).remote_procs (entable m) ≢ none
      → elem m (remotes n p) ≡ true
  unfolding remotes
  elem-remotes n p m small h =
      subst (λ x. elem x (remotes n p) ≡ true) (detable-entable m small).0
        (elem-map (entable m) (l.procs.entries (n.tx_dors p).remote_procs)
          (λ gone. h (sym (l.procs.lookup-entries _ (entable m)) ∙ gone)))

  -- What was recorded stays recorded.
  pub touch-keeps :
      (n : Node l) (p m k : ℕ)
      → l.procs.get (n.tx_dors p).remote_procs k ≢ none
      → l.procs.get ((touch n p m).tx_dors p).remote_procs k ≢ none
  unfolding touch
  touch-keeps n p m k h =
      rw (==_refl p) (put-keeps l.procs (n.tx_dors p).remote_procs (entable m) tt k h)

  pub touch-records :
      (n : Node l) (p m : ℕ) → l.procs.get ((touch n p m).tx_dors p).remote_procs (entable m) ≢ none
  unfolding touch
  touch-records n p m = rw (==_refl p) (put_there l.procs (n.tx_dors p).remote_procs (entable m) tt)

  -- A transaction finds what it found before if its own processor has recorded no less.
  pub Visits-mono :
      (ph : Phase) (cl cl' : Cluster l) (p m : ℕ)
      → ((k : ℕ) → l.procs.get (touched_by cl p) k ≢ none → l.procs.get (touched_by cl' p) k ≢ none)
      → Visits ph cl p m
      → Visits ph cl' p m
  Visits-mono running cl cl' p m grows (inl home) = inl home
  Visits-mono running cl cl' p m grows (inr (small, h)) = inr (small, grows (entable m) h)
  Visits-mono (finishing status ms) cl cl' p m grows h = h

module _ {l : Libs} {procs : ℕ} (w : World l) (s : Tracked procs w) (m : ℕ) (n' : Node l)
    (inv : Inv procs n') where
  -- Processor `m` changes, and every transaction goes on as before.
  pub Tracked-at :
      ((q a : ℕ) → entry_of n' q a ≢ none → Visits (w.phase q) w.cluster q m)
      → ((k : ℕ)
          → l.procs.get (touched_by w.cluster m) k ≢ none
          → l.procs.get (n'.tx_dors m).remote_procs k ≢ none)
      → Tracked procs (at w m n')
  Tracked-at entries grows = record {
    locks = λ x. elim (Bool-cases (m == x)) [ inl e ↦ rw e inv | inr e ↦ rw e (s.locks x) ];
    known = λ q x held.
        Visits-mono (w.phase q) w.cluster (at w m n').cluster q x
          (λ k h. elim (eq-or-ne m q) [
            | inl e ↦
                rw (sym e, touched_by, ==_refl m)
                  (grows k (subst (λ y. l.procs.get (touched_by w.cluster y) k ≢ none) (sym e) h))
            | inr ne ↦ rw (touched_by, ==_ne m q ne) h
          ])
          (elim (eq-or-ne m x) [
            | inl e ↦
                subst (λ y. Visits (w.phase q) w.cluster q y) e
                  (entries q held.0 (rw (sym e, ==_refl m) at held.1))
            | inr ne ↦ s.known q x (held.0, rw (entry_of, ==_ne m x ne) at held.1)
          ]);
  }

  -- The same, if only the dataset of `p` changed, whose end will visit `m`.
  pub Tracked-by :
      (p : ℕ)
      → IsBy p (w.cluster.nodes m) n'
      → Visits (w.phase p) w.cluster p m
      → Tracked procs (at w m n')
  Tracked-by p by found =
      Tracked-at
        (λ q a held. elim (eq-or-ne q p) [
          | inl e ↦ rw e found
          | inr ne ↦
              s.known q m
                (a, λ gone. held (ap (λ d. l.datasets.get d.dataset a) (by.others q ne) ∙ gone))
        ])
        (λ k h. rw (by.recorded m) h)

pub SameLocks-Inv :
    {l : Libs} {procs : ℕ} {n n' : Node l} → SameLocks n n' → Inv procs n → Inv procs n'
SameLocks-Inv {l} {procs} {n} {n'} k inv = record {
  few = inv.few;
  guarded = λ a al.
      Guards-cong (cc (k.same_meta, k.same_base, k.same_share))
        (λ q. ap (λ d. mode_of (l.datasets.get d a)) (sym (k.same_datasets q)))
        (inv.guarded a (subst (λ z. IsAligned z a) k.same_share al));
  keyed = λ q b e h.
      subst (λ z. IsAligned z b) (sym k.same_share)
        (inv.keyed q b e (ap (λ d. l.datasets.get d b) (sym (k.same_datasets q)) ∙ h));
}

module _ {l : Libs} {procs : ℕ} {c : Config} (v : IsVisible c) (w : World l) (s : Tracked procs w)
    (p : ℕ) (lt : p < procs) (m : ℕ) (status : StmStatus) where
  abbrev answered : Cluster l
  answered = set_node w.cluster m (finished c w p m status)

  answered-Visits : (ph : Phase) (q x : ℕ) → Visits ph w.cluster q x → Visits ph answered q x
  answered-Visits ph q x = Visits-mono ph w.cluster answered q x (λ k h. elim (eq-or-ne m q) [
    | inl e ↦
        rw (sym e, touched_by, ==_refl m, ended-recorded c status (w.cluster.nodes m) p m)
          (rw (sym e) at h)
    | inr ne ↦ rw (touched_by, ==_ne m q ne) h
  ])

  answered-IsHeld : (q x : ℕ) → IsHeld answered q x → IsHeld w.cluster q x × (q ≡ p → x ≢ m)
  answered-IsHeld q x (a, held) = elim (eq-or-ne m x) [
    | inr ne ↦ ((a, rw (entry_of, ==_ne m x ne) at held), λ _ e. ne (sym e))
    | inl e ↦ elim (eq-or-ne q p) [
      | inl own ↦
          absurd
            ((rw (sym e, own, ==_refl m) at held) (ended_self c status (w.cluster.nodes m) p a))
      | inr ne ↦ (
        (
          a,
          rw (sym e) (λ gone.
              (rw (sym e, ==_refl m) at held)
                (ended-other c status (w.cluster.nodes m) p q a ne ∙ gone)),
        ),
        λ own. absurd (ne own),
      )
    ]
  ]

  -- The transaction of `p` ends on processor `m`, and goes on to another phase.
  pub Tracked-finished :
      (ph : Phase)
      → ((x : ℕ) → x ≢ m → IsHeld w.cluster p x → Visits ph w.cluster p x)
      → Tracked procs (record { cluster = answered; phase = update w.phase p ph })
  Tracked-finished ph rest = record {
    locks = λ x. elim (Bool-cases (m == x)) [
      | inl e ↦ rw e (stm_finish_local-Inv v p lt status (s.locks m))
      | inr e ↦ rw e (s.locks x)
    ];
    known = λ q x held.
        let (before, left) = answered-IsHeld q x held in
        elim (eq-or-ne q p) [
          | inl own ↦
              rw (own, ==_refl p) (answered-Visits ph p x (rest x (left own) (rw own at before)))
          | inr ne ↦
              rw (==_ne p q (λ e. ne (sym e)))
                (answered-Visits (w.phase q) q x (s.known q x before))
        ];
  }
