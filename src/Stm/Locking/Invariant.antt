-- ===== src/Stm/Locking/Invariant.antt =====
-- The lock invariant of one processor's metadata, and what a change at one block needs to keep it.
use mathlib.Core.Path.{subst, subst₂, fun_ext}
use cluster_stm.Common.{
  ◌∙◌, ℕ, ◌≤◌, ◌≡◌, ◌≢◌, refl, sym, inl, inr, false, Option, none, some, ◌==◌, arith, eq-or-ne,
  Bool-cases,
}
use cluster_stm.Common.Family.{update, update_self}
use cluster_stm.Stm.Types.{LockType, Config}
use cluster_stm.Stm.Node.{DatasetEntry, Libs, Node, meta_at, entry_of, set_meta, set_dataset}
use cluster_stm.Stm.Locking.Word.{Modes, Guards, max_procs}
use cluster_stm.Stm.Locking.Addresses.{IsAligned, meta_addr-ne}

abbrev pub mode_of : Option DatasetEntry → Option LockType
mode_of none = none
mode_of (some e) = some e.type

-- Neither versions nor late acquisition: readers are visible in the metadata word.
pub record IsVisible (c : Config) : Type 0 where
  pub unversioned : c.read_versioning ≡ false
  pub early : c.late_acquire ≡ false

-- A dataset holds whole blocks.
abbrev pub IsKeyed : (l : Libs) → ℕ → l.datasets.Map → Type 0
IsKeyed l s m = (b : ℕ) (e : DatasetEntry) → l.datasets.get m b ≡ some e → IsAligned s b

module _ {l : Libs} where
  abbrev pub modes : Node l → ℕ → Modes
  modes n a q = mode_of (entry_of n q a)

  -- Every metadata word says who holds its block, and datasets hold whole blocks.
  pub record Inv (procs : ℕ) (n : Node l) : Type 0 where
    pub few : procs ≤ max_procs
    pub guarded :
        (a : ℕ) → IsAligned n.share_power a → Guards procs (n.meta (meta_at n a)) (modes n a)
    pub keyed : (q : ℕ) → IsKeyed l n.share_power (n.tx_dors q).dataset

pub Guards-cong :
    {procs word word' : ℕ} {m m' : Modes}
    → word ≡ word'
    → ((q : ℕ) → m q ≡ m' q)
    → Guards procs word m
    → Guards procs word' m'
Guards-cong {procs} e h g = subst₂ (Guards procs) e (fun_ext h) g

module _ {l : Libs} {procs : ℕ} {n : Node l} (inv : Inv procs n) (p a : ℕ)
    (al : IsAligned n.share_power a) (ds : l.datasets.Map)
    (others : (b : ℕ) → b ≢ a → mode_of (l.datasets.get ds b) ≡ modes n b p)
    (keyed : IsKeyed l n.share_power ds) where
  modes-update :
      (b q : ℕ)
      → update (modes n b) p (mode_of (l.datasets.get ds b)) q ≡ modes (set_dataset n p ds) b q
  modes-update b q = ground (arith)

  modes_same :
      (b : ℕ)
      → mode_of (l.datasets.get ds b) ≡ modes n b p
      → (q : ℕ) → modes n b q ≡ modes (set_dataset n p ds) b q
  modes_same b same q = sym (update_self (modes n b) p q _ same) ∙ modes-update b q

  IsKeyed-update : (q : ℕ) → IsKeyed l n.share_power ((set_dataset n p ds).tx_dors q).dataset
  IsKeyed-update q b e h = elim (Bool-cases (p == q)) [
    | inl same ↦ keyed b e (rw same at h)
    | inr other ↦ inv.keyed q b e (rw other at h)
  ]

  -- Processor `p` changes its entry for block `a`, and the word of that block.
  pub Inv-set :
      (w : ℕ)
      → Guards procs w (update (modes n a) p (mode_of (l.datasets.get ds a)))
      → Inv procs (set_meta (set_dataset n p ds) (meta_at n a) w)
  Inv-set w g = record {
    few = inv.few;
    guarded = λ b bl. elim (eq-or-ne a b) [
      | inl same ↦
          subst
            (λ k.
              Guards procs (update n.meta (meta_at n a) w (meta_at n k))
                (modes (set_dataset n p ds) k))
            same (Guards-cong (ground arith) (modes-update a) g)
      | inr ne ↦
          Guards-cong (ground (arith, meta_addr-ne n.meta_base n.share_power a b al bl ne))
            ((modes_same b (others b (λ e. ne (sym e))))) (inv.guarded b bl)
    ];
    keyed = IsKeyed-update;
  }

  -- Only the entry changes, and its mode does not.
  pub Inv-keep : mode_of (l.datasets.get ds a) ≡ modes n a p → Inv procs (set_dataset n p ds)
  Inv-keep same = record {
    few = inv.few;
    guarded = λ b bl.
        Guards-cong refl
          (modes_same b (elim (eq-or-ne b a) [
            | inl e ↦ subst (λ k. mode_of (l.datasets.get ds k) ≡ modes n k p) (sym e) same
            | inr ne ↦ others b ne
          ]))
          (inv.guarded b bl);
    keyed = IsKeyed-update;
  }
