-- ===== src/Grt/Random/Powers.antt =====
-- `grt_random_nth` jumps to where as many calls of `grt_random_next` arrive.
use native.Mathlib.Nat.{mul-le-mul_left}
use cluster_stm.Common.{
  ℕ, zero, suc, ◌+◌, ◌-◌, ◌*◌, ◌/◌, ◌%◌, ◌^◌, ◌<◌, ◌≤◌, ◌==◌, if◌then◌else◌, ◌≡◌, ◌∙◌, ap, refl,
  sym, inl, inr, some, arith, eq-or-ne, ==_ne,
}
use cluster_stm.Grt.Random.{
  seed, arand, high, low, cross, partial, randlc, grt_random_next, grt_random_init, nth_loop,
  grt_random_nth, then_next,
}

split : (x : ℕ) → x ≡ 2 ^ 23 * high x + low x
split x = omega arith

product :
    (a1 a2 x1 x2 z t2 : ℕ)
    → a1 * x2 + a2 * x1 ≡ 2 ^ 23 * t2 + z
    → (2 ^ 23 * a1 + a2) * (2 ^ 23 * x1 + x2) ≡ 2 ^ 46 * (a1 * x1 + t2) + (2 ^ 23 * z + a2 * x2)
product a1 a2 x1 x2 z t2 e = omega (arith, e)

remainder : (k t : ℕ) → t - 2 ^ 46 * (t / 2 ^ 46) ≡ (2 ^ 46 * k + t) % 2 ^ 46
remainder k t = omega arith

-- In halves of 23 bits, one step is a product modulo 2^46.
pub randlc-eq : (x a : ℕ) → randlc x a ≡ a * x % 2 ^ 46
unfolding randlc
randlc-eq x a =
    let t2 = high (cross x a) in
    remainder (high a * high x + t2) (partial x a)
    ∙ ap (λ (y : ℕ). y % 2 ^ 46)
        (sym (product (high a) (low a) (high x) (low x) (low (cross x a)) t2 (split (cross x a)))
          ∙ rw (sym (split a), sym (split x)) refl)

le_of : (n : ℕ) → n < 2 ^ 23 → n ≤ 2 ^ 23
le_of n small = omega arith

product-bound : (m n : ℕ) → m < 2 ^ 23 → n < 2 ^ 23 → m * n < 2 ^ 46
product-bound m n small small' = omega (arith, mul-le-mul_left {n = 2 ^ 23} m (le_of n small'))

-- The sums of products are below 2^53, so doubles hold them exactly.
partial-exact : (x a : ℕ) → x < 2 ^ 46 → a < 2 ^ 46 → (cross x a < 2 ^ 53) × (partial x a < 2 ^ 53)
partial-exact x a xs small = (
  omega (
    arith,
    product-bound (high a) (low x) (omega arith) (omega arith),
    product-bound (low a) (high x) (omega arith) (omega arith),
  ),
  omega (arith, product-bound (low a) (low x) (omega arith) (omega arith)),
)

congruent : (u v p q : ℕ) → u + 2 ^ 46 * p ≡ v + 2 ^ 46 * q → u % 2 ^ 46 ≡ v % 2 ^ 46
congruent u v p q e = omega (arith, e)

-- One step by `m`-fold products of both ways to multiply three numbers.
squared :
    (t c q r q' r' : ℕ)
    → t * t ≡ 2 ^ 46 * q + r
    → t * c ≡ 2 ^ 46 * q' + r'
    → r * c + 2 ^ 46 * (q * c) ≡ t * r' + 2 ^ 46 * (q' * t)
squared t c q r q' r' e e' = omega (arith, ap (λ (y : ℕ). y * c) e, ap (λ (y : ℕ). t * y) e')

-- A step by the square is two steps.
randlc-square : (c t : ℕ) → randlc c (randlc t t) ≡ randlc (randlc c t) t
randlc-square c t =
    rw (randlc-eq c (randlc t t), randlc-eq t t, randlc-eq (randlc c t) t, randlc-eq c t)
      (congruent (t * t % 2 ^ 46 * c) (t * (t * c % 2 ^ 46)) (t * t / 2 ^ 46 * c)
        (t * c / 2 ^ 46 * t)
        (squared t c (t * t / 2 ^ 46) (t * t % 2 ^ 46) (t * c / 2 ^ 46) (t * c % 2 ^ 46)
          (omega arith) (omega arith)))

module _ (f : ℕ → ℕ) where
  -- `f`, `n` times.
  abbrev pub repeat : ℕ → ℕ → ℕ
  repeat zero c = c
  repeat (suc n) c = repeat n (f c)

  repeat_last : (n c : ℕ) → repeat n (f c) ≡ f (repeat n c)
  repeat_last zero c = refl
  repeat_last (suc n) c = repeat_last n (f c)

repeat-square :
    (t i c : ℕ) → repeat (λ x. randlc x (randlc t t)) i c ≡ repeat (λ x. randlc x t) (i + i) c
repeat-square t zero c = refl
repeat-square t (suc i) c =
    let twice : suc i + suc i ≡ suc (suc (i + i)) = omega arith in
    repeat-square t i (randlc c (randlc t t)) ∙ rw (twice, randlc-square c t) refl

-- What is left after two steps for each half, and one for the odd bit.
halved :
    (n t c : ℕ)
    → repeat (λ x. randlc x t) (n / 2 + n / 2) (if 2 * (n / 2) == n then c else randlc c t)
      ≡ repeat (λ x. randlc x t) n c
halved n t c = elim (eq-or-ne (2 * (n / 2)) n) [
  | inl e ↦ let even : n / 2 + n / 2 ≡ n = omega (arith, e) in rw (e, even) (ground arith)
  | inr ne ↦
      let odd : n ≡ suc (n / 2 + n / 2) = omega (arith, ne) in
      rw (==_ne (2 * (n / 2)) n ne) (ap (λ (m : ℕ). repeat (λ x. randlc x t) m c) (sym odd))
]

nth_loop-eq :
    (f n t c : ℕ) → n < 2 ^ f → nth_loop (suc f) n t c ≡ some (repeat (λ x. randlc x t) n c)
unfolding nth_loop
nth_loop-eq zero n t c small = let none_left : n ≡ 0 = omega arith in rw none_left refl
nth_loop-eq (suc f) n t c small = elim (eq-or-ne n 0) [
  | inl e ↦ rw e refl
  | inr ne ↦
      let next = if 2 * (n / 2) == n then c else randlc c t in
      rw (==_ne n 0 ne) (
        nth_loop-eq f (n / 2) (randlc t t) next (omega arith)
        ∙ ap (λ (x : ℕ). some x) (repeat-square t (n / 2) next ∙ halved n t c))
]

-- `grt_random_nth n` ends, and what it leaves in `cursorVal`, and returns, is what `n` calls of
-- `grt_random_next` after `grt_random_init` leave. (`n` is a non-negative 64-bit number.)
pub grt_random_nth-next :
    (n : ℕ) → n < 2 ^ 63 → grt_random_nth n ≡ some (repeat grt_random_next n grt_random_init)
unfolding grt_random_nth grt_random_init grt_random_next
grt_random_nth-next n small =
    ap then_next (nth_loop-eq 63 n arand seed small)
    ∙ ap (λ (c : ℕ). some c) (sym (repeat_last grt_random_next n seed))
