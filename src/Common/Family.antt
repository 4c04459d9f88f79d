-- ===== src/Common/Family.antt =====
-- Families indexed by numbers: a write at one index, and sums over the first n members.
use Prim.Native.Nat.{ℕ, zero, suc, ◌+◌, ◌≤◌, ◌<◌}
use mathlib.Core.Path.{◌≡◌, refl, sym}
use mathlib.Core.Logic.{◌≢◌, inl, inr}
use mathlib.Core.Option.{Option, none, some}
use native.Mathlib.Omega.{arith}
use cluster_stm.Common.Tests.{◌==◌, if◌then◌else◌, eq-or-ne}

abbrev pub update {ℓ} : {A : Type ℓ} → (ℕ → A) → ℕ → A → ℕ → A
update f i a j = if i == j then a else f j

module _ {ℓ} {A : Type ℓ} (w : A → ℕ) where
  -- The weights of `f 0`, ..., `f (n - 1)` together.
  pub total : (n : ℕ) → (f : ℕ → A) → ℕ
  total zero f = 0
  total (suc i) f = w (f i) + total i f

  total-cong : (f g : ℕ → A) (n : ℕ) → ((i : ℕ) → i < n → w (f i) ≡ w (g i)) → total n f ≡ total n g
  unfolding total
  total-cong f g zero same = refl
  total-cong f g (suc i) same =
      omega (arith, same i (omega arith), total-cong f g i (λ j lt. same j (omega arith)))

  -- A write at a member that is summed exchanges its old weight for the new one.
  pub total-update :
      {i : ℕ} (n : ℕ) (f : ℕ → A) (a : A)
      → i < n
      → w a + total n f ≡ w (f i) + total n (update f i a)
  unfolding total
  total-update zero f a below = absurd (omega arith)
  total-update {i = i} (suc j) f a below = elim (eq-or-ne i j) [
    | inr other ↦ ground (arith, total-update {i = i} j f a)
    | inl last ↦ ground (arith, total-cong (update f i a) f j (λ k lt. ground arith))
  ]

  pub weight-le-total : (n : ℕ) (f : ℕ → A) (i : ℕ) → i < n → w (f i) ≤ total n f
  unfolding total
  weight-le-total zero f i h = absurd (omega arith)
  weight-le-total (suc n) f i h = elim (eq-or-ne i n) [
    | inl e ↦ ground (arith)
    | inr e ↦ ground (arith, weight-le-total n f i)
  ]

  -- Two different members weigh no more than the sum.
  pub pair-le-total :
      (n : ℕ) (f : ℕ → A) (i j : ℕ) → i < n → j < n → i ≢ j → w (f i) + w (f j) ≤ total n f
  unfolding total
  pair-le-total zero f i j h k ne = absurd (omega arith)
  pair-le-total (suc n) f i j h k ne = elim (eq-or-ne i n) [
    | inl e ↦ ground (arith, weight-le-total n f j)
    | inr e ↦ elim (eq-or-ne j n) [
      | inl e' ↦ ground (arith, weight-le-total n f i)
      | inr e' ↦ ground (arith, pair-le-total n f i j)
    ]
  ]

  pub total-eq-zero : (n : ℕ) (f : ℕ → A) → ((i : ℕ) → i < n → w (f i) ≡ 0) → total n f ≡ 0
  unfolding total
  total-eq-zero zero f h = refl
  total-eq-zero (suc n) f h =
      omega (arith, total-eq-zero n f (λ i k. h i (omega arith)), h n (omega arith))

  pub total-le : (n : ℕ) (f : ℕ → A) → ((a : A) → w a ≤ 1) → total n f ≤ n
  unfolding total
  total-le zero f small = omega arith
  total-le (suc n) f small = omega (arith, small (f n), total-le n f small)

-- A write of the value that is there changes nothing.
pub update_self {ℓ} : {A : Type ℓ} (f : ℕ → A) (p q : ℕ) (v : A) → v ≡ f p → update f p v q ≡ f q
update_self f p q v h = ground arith

module _ {ℓ} {A : Type ℓ} (w : A → ℕ) where
  total-zero_but :
      (n : ℕ) (f : ℕ → A) (p : ℕ)
      → ((i : ℕ) → i < n → i ≢ p → w (f i) ≡ 0)
      → n ≤ p
      → total w n f ≡ 0
  total-zero_but n f p h k = total-eq-zero w n f (λ i lt. h i lt (omega arith))

  -- The sum of a family with one member that may weigh something.
  pub total-single :
      (n : ℕ) (f : ℕ → A) (p : ℕ)
      → p < n
      → ((i : ℕ) → i < n → i ≢ p → w (f i) ≡ 0)
      → total w n f ≡ w (f p)
  unfolding total
  total-single zero f p k h = absurd (omega arith)
  total-single (suc n) f p k h = elim (eq-or-ne p n) [
    | inl e ↦ ground (arith, total-zero_but n f p (λ i lt. h i (omega arith)))
    | inr e ↦ omega (
      arith,
      h n (omega arith) (λ q. e (sym q)),
      total-single n f p (omega arith) (λ i lt. h i (omega arith)),
    )
  ]

-- The first member that is there, from the highest index below `n` down.
module _ {ℓ} {A : Type ℓ} where
  unfoldable pub first_some : (n : ℕ) → (ℕ → Option A) → Option A
  first_some zero f = none
  first_some (suc i) f = elim (f i) [ some a ↦ some a | none ↦ first_some i f ]

  pub first_some-cong :
      (n : ℕ) (f g : ℕ → Option A) → ((i : ℕ) → i < n → f i ≡ g i) → first_some n f ≡ first_some n g
  unfolding first_some
  first_some-cong zero f g same = refl
  first_some-cong (suc i) f g same =
      ground (arith, same i (omega arith), first_some-cong i f g (λ j lt. same j (omega arith)))

  pub first_some-none :
      (n : ℕ) (f : ℕ → Option A) → ((i : ℕ) → i < n → f i ≡ none) → first_some n f ≡ none
  unfolding first_some
  first_some-none zero f gone = refl
  first_some-none (suc i) f gone =
      rw (gone i (omega arith), first_some) (first_some-none i f (λ j lt. gone j (omega arith)))

  pub first_some-only :
      (n : ℕ) (f : ℕ → Option A) (p : ℕ) (a : A)
      → p < n
      → f p ≡ some a
      → ((i : ℕ) → i < n → i ≢ p → f i ≡ none)
      → first_some n f ≡ some a
  unfolding first_some
  first_some-only zero f p a lt here others = absurd (omega arith)
  first_some-only (suc i) f p a lt here others = elim (eq-or-ne i p) [
    | inl e ↦ rw (e, here, first_some)
    | inr ne ↦
        rw (others i (omega arith) ne, first_some)
          (first_some-only i f p a (omega (arith, λ (e : p ≡ i). ne (sym e))) here
            (λ j k. others j (omega arith)))
  ]
