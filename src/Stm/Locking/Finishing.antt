-- ===== src/Stm/Locking/Finishing.antt =====
-- `stm_finish_local` keeps the lock invariant, and leaves the processor with nothing held.
use mathlib.Core.Path.{subst}
use cluster_stm.Common.{
  ◌∙◌, ℕ, ◌<◌, ◌≤◌, ◌≡◌, refl, sym, inl, inr, false, none, some, ◌==◌, arith, eq-or-ne, ap,
  Bool-cases, ==_ne, ==_refl, List, [], ◌∷◌, lookup, Distinct,
}
use cluster_stm.Common.Family.{update, update_self}
use cluster_stm.Stm.Types.{Config, is_write, StmStatus}
use cluster_stm.Stm.Node.{DatasetEntry, Libs, Node, meta_at}
use cluster_stm.Stm.Finish.{release_word, finish_entry, finish_entries, stm_finish_local}
use cluster_stm.Stm.Locking.Word.{
  Modes, Guards, max_procs, Guards-release_read, Guards-release_write,
}
use cluster_stm.Stm.Locking.Addresses.{IsAligned, meta_addr-ne}
use cluster_stm.Stm.Locking.Invariant.{IsVisible, IsKeyed, Inv, Guards-cong, mode_of, modes}

release_word-Guards :
    {c : Config} {procs w : ℕ} {m : Modes} {p : ℕ} (v : IsVisible c) (status : StmStatus)
    (e : DatasetEntry)
    → p < procs
    → procs ≤ max_procs
    → Guards procs w m
    → m p ≡ some e.type
    → Guards procs (release_word c status e w) (update m p none)
unfolding release_word
release_word-Guards {p} v status e lt few g mine = elim (Bool-cases (is_write e.type)) [
  | inl wr ↦ rw (wr, v.unversioned, v.early) (Guards-release_write p lt g (ground arith))
  | inr rd ↦ rw rd (Guards-release_read p lt few g (ground arith))
]

-- Midway through the loop: `es` is what processor `p` still holds.
record Owed {l : Libs} (procs : ℕ) (n : Node l) (p : ℕ) (es : List (ℕ × DatasetEntry))
    : Type 0 where
  few : procs ≤ max_procs
  guarded :
      (a : ℕ)
      → IsAligned n.share_power a
      → Guards procs (n.meta (meta_at n a)) (update (modes n a) p (mode_of (lookup a es)))
  keyed : (q : ℕ) → IsKeyed l n.share_power (n.tx_dors q).dataset
  aligned : (a : ℕ) (e : DatasetEntry) → lookup a es ≡ some e → IsAligned n.share_power a

module _ {l : Libs} {procs : ℕ} {c : Config} (v : IsVisible c) (p : ℕ) (lt : p < procs)
    (status : StmStatus) where
  finish_entry-Owed :
      (n : Node l) (a : ℕ) (e : DatasetEntry) (es : List (ℕ × DatasetEntry))
      → Owed procs n p ((a, e) ∷ es)
      → lookup a es ≡ none
      → Owed procs (finish_entry c status n a e) p es
  unfolding finish_entry lookup
  finish_entry-Owed n a e es o gone = record {
    few = o.few;
    guarded = λ b bl. elim (eq-or-ne a b) [
      | inl same ↦
          subst
            (λ k.
              Guards procs
                (update n.meta (meta_at n a) (release_word c status e (n.meta (meta_at n a)))
                  (meta_at n k))
                (update (modes n k) p (mode_of (lookup k es))))
            same here
      | inr ne ↦
          Guards-cong (ground (arith, meta_addr-ne n.meta_base n.share_power a b al bl ne))
            (λ q. rw (==_ne b a (λ h. ne (sym h)))) (o.guarded b bl)
    ];
    keyed = o.keyed;
    aligned = λ b f h. o.aligned b f (rw (other b f h) h);
  }
    where
      al : IsAligned n.share_power a
      al = o.aligned a e (rw (==_refl a))

      other : (b : ℕ) (f : DatasetEntry) → lookup b es ≡ some f → (b == a) ≡ false
      other b f h = ==_ne b a (λ q. cc (sym gone ∙ subst (λ k. lookup k es ≡ some f) q h))

      held : Guards procs (n.meta (meta_at n a)) (update (modes n a) p (some e.type))
      held = rw (==_refl a) at (o.guarded a al)

      here :
          Guards procs
            (update n.meta
              (meta_at n a)
              (release_word c status e (n.meta (meta_at n a)))
              (meta_at n a))
            (update (modes n a) p (mode_of (lookup a es)))
      here =
          Guards-cong (rw (==_refl (meta_at n a))) (λ q. rw gone (ground arith))
            (release_word-Guards v status e lt o.few held (rw (==_refl p)))

  finish_entries-Owed :
      (es : List (ℕ × DatasetEntry)) (n : Node l)
      → Distinct es
      → Owed procs n p es
      → Owed procs (finish_entries c status n es) p []
  unfolding finish_entries
  finish_entries-Owed [] n d o = o
  finish_entries-Owed ((a, e) ∷ es) n d o =
      finish_entries-Owed es (finish_entry c status n a e) d.1 (finish_entry-Owed n a e es o d.0)

  pub stm_finish_local-Inv :
      {n : Node l} → Inv procs n → Inv procs (stm_finish_local c n p status).0
  unfolding stm_finish_local lookup
  stm_finish_local-Inv {n} inv = record {
    few = done.few;
    guarded =
        λ a al. Guards-cong refl (λ q. ground (arith, l.datasets.get-init a)) (done.guarded a al);
    keyed = λ q b e h. elim (Bool-cases (p == q)) [
      | inl same ↦ absurd (cc (sym (l.datasets.get-init b) ∙ rw same at h))
      | inr ne ↦ done.keyed q b e (rw ne at h)
    ];
  }
    where
      es : List (ℕ × DatasetEntry)
      es = l.datasets.entries (n.tx_dors p).dataset

      start : Owed procs n p es
      start = record {
        few = inv.few;
        guarded = λ a al.
            Guards-cong refl
              (λ q. sym (
                update_self (modes n a) p q _
                  (ap mode_of (l.datasets.lookup-entries (n.tx_dors p).dataset a))))
              (inv.guarded a al);
        keyed = inv.keyed;
        aligned =
            λ a e h. inv.keyed p a e (sym (l.datasets.lookup-entries (n.tx_dors p).dataset a) ∙ h);
      }

      done : Owed procs (finish_entries c status n es) p []
      done = finish_entries-Owed es n (l.datasets.entries-Distinct (n.tx_dors p).dataset) start
