-- ===== src/Stm/WriteBuffer/View.antt =====
-- What a transaction sees: its write buffers, and memory where it has none.
use cluster_stm.Common.{
  ◌∙◌, ℕ, ◌≡◌, ◌≢◌, ◌⊎◌, sym, ap, refl, inl, inr, Option, none, some, arith, Bool-cases, ◌==◌,
  if◌then◌else◌, ==→eq, ==_ne, ==_refl,
}
use cluster_stm.Common.Blocks.{align_down}
use cluster_stm.Stm.Types.{read, write}
use cluster_stm.Stm.Locking.{modes, mode_of}
use cluster_stm.Stm.Node.{DatasetEntry, Buffer, Libs, Node, entry_of, set_dataset, share_bytes}
use cluster_stm.Stm.Meta.{share_size_bytes}
use cluster_stm.Stm.Copy.{buffer_of}
use cluster_stm.Stm.Finish.Memory.{byte_from}
use cluster_stm.Stm.WriteBuffer.Keyed.{Untouched, Untouched-trans}

abbrev pub buffer_at : {l : Libs} → Node l → (p a : ℕ) → Option Buffer
buffer_at n p a = buffer_of (entry_of n p a)

-- The byte at `x` as the transaction of `p` sees it.
abbrev pub view : {l : Libs} → Node l → (p x : ℕ) → ℕ
view n p x =
    byte_from (buffer_at n p (align_down x (share_bytes n))) n.mem (align_down x (share_bytes n)) x

-- Who has only read a block has no buffer for it.
abbrev pub IsPlain : (l : Libs) → l.datasets.Map → Type 0
IsPlain l m =
    (b : ℕ) (e : DatasetEntry) → l.datasets.get m b ≡ some e → e.type ≡ read → e.wb_data ≡ none

abbrev pub AllPlain : {l : Libs} → Node l → Type 0
AllPlain {l} n = (q : ℕ) → IsPlain l (n.tx_dors q).dataset

-- Blocks were opened; nobody sees a difference.
pub record Unseen {l : Libs} (n n' : Node l) : Type 0 where
  pub untouched : Untouched n n'
  pub same_view : (q x : ℕ) → view n' q x ≡ view n q x
  pub plain : AllPlain n'
  pub writers : (q a : ℕ) → modes n a q ≡ some write → modes n' a q ≡ some write

pub Unseen-trans : {l : Libs} {n n' n'' : Node l} → Unseen n n' → Unseen n' n'' → Unseen n n''
Unseen-trans u u' = record {
  untouched = Untouched-trans u.untouched u'.untouched;
  same_view = λ q x. u'.same_view q x ∙ u.same_view q x;
  plain = u'.plain;
  writers = λ q a h. u'.writers q a (u.writers q a h);
}

pub byte_from-cong :
    (o o' : Option Buffer) (mem mem' : ℕ → ℕ) (a x : ℕ)
    → o ≡ o'
    → mem x ≡ mem' x
    → byte_from o mem a x ≡ byte_from o' mem' a x
byte_from-cong none o' mem mem' a x e h = rw (sym e) h
byte_from-cong (some buf) o' mem mem' a x e h = rw (sym e) refl

view-share :
    {l : Libs} (n n' : Node l)
    → n'.share_power ≡ n.share_power
    → (q x : ℕ)
    → view n' q x
      ≡ byte_from
          (buffer_at n' q (align_down x (share_bytes n)))
          n'.mem
          (align_down x (share_bytes n))
          x
view-share n n' share q x =
    ap
      (λ s.
        byte_from (buffer_at n' q (align_down x (share_size_bytes s))) n'.mem
          (align_down x (share_size_bytes s)) x)
      share

module _ {l : Libs} (n : Node l) (p a : ℕ) (plain : AllPlain n) (ds : l.datasets.Map)
    (f : DatasetEntry)
    (changed : (b : ℕ) → l.datasets.get ds b ≡ (if a == b then some f else entry_of n p b))
    (f_plain : f.type ≡ read → f.wb_data ≡ none) (n' : Node l)
    (dors : n'.tx_dors ≡ (set_dataset n p ds).tx_dors) where
  entry-set :
      (q b : ℕ)
      → entry_of n' q b
        ≡ (if p == q then (if a == b then some f else entry_of n p b) else entry_of n q b)
  entry-set q b =
      ap (λ d. l.datasets.get (d q).dataset b) dors
      ∙ elim (Bool-cases (p == q)) [ inl e ↦ rw e (changed b) | inr e ↦ rw e refl ]

  pub entry-set_here : entry_of n' p a ≡ some f
  entry-set_here = entry-set p a ∙ rw (==_refl p, ==_refl a) refl

  -- Only the entry of `p` for block `a` has changed.
  pub set-AllPlain : AllPlain n'
  set-AllPlain q b e h t = ground (arith, entry-set q b, plain q b e, plain p b e)

  pub set-writers :
      (modes n a p ≡ some write → f.type ≡ write)
      → (q b : ℕ) → modes n b q ≡ some write
      → modes n' b q ≡ some write
  set-writers f_writes q b h = ap mode_of (entry-set q b) ∙ elim (Bool-cases (p == q)) [
    | inr other ↦ rw other h
    | inl same ↦ elim (Bool-cases (a == b)) [
      | inr ne ↦ rw (same, ne) (ap (λ y. modes n b y) (==→eq p q same) ∙ h)
      | inl here ↦
          rw (same, here)
            (ap some (
              f_writes (
                ap (λ y. modes n y p) (==→eq a b here)
                ∙ ap (λ y. modes n b y) (==→eq p q same)
                ∙ h)))
    ]
  ]

  pub view-set_here :
      (share : n'.share_power ≡ n.share_power) (x : ℕ)
      → align_down x (share_bytes n) ≡ a
      → view n' p x ≡ byte_from f.wb_data n'.mem a x
  view-set_here share x in_a =
      view-share n n' share p x
      ∙ ap (λ b. byte_from (buffer_at n' p b) n'.mem b x) in_a
      ∙ ap (λ o. byte_from (buffer_of o) n'.mem a x) entry-set_here

  pub view-set_elsewhere :
      (share : n'.share_power ≡ n.share_power) (q x : ℕ)
      → (q ≢ p) ⊎ (align_down x (share_bytes n) ≢ a)
      → n'.mem x ≡ n.mem x
      → view n' q x ≡ view n q x
  view-set_elsewhere share q x other same = rw share (
      byte_from-cong (buffer_at n' q b) (buffer_at n q b) n'.mem n.mem b x
        (ap buffer_of (entry-set q b ∙ untouched_by other)) same)
    where
      b : ℕ
      b = align_down x (share_bytes n)

      untouched_by :
          (q ≢ p) ⊎ (b ≢ a)
          → (if p == q then (if a == b then some f else entry_of n p b) else entry_of n q b)
            ≡ entry_of n q b
      untouched_by (inl ne) = rw (==_ne p q (λ e. ne (sym e))) refl
      untouched_by (inr ne) = elim (Bool-cases (p == q)) [
        | inl e ↦ rw (e, ==_ne a b (λ s. ne (sym s))) (ap (λ y. entry_of n y b) (==→eq p q e))
        | inr e ↦ rw e refl
      ]
