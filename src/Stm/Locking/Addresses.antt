-- ===== src/Stm/Locking/Addresses.antt =====
-- Which metadata word belongs to which block.
use native.Mathlib.Nat.{div-div-eq-div-mul, div-add-mod'}
use cluster_stm.Common.{ℕ, ◌*◌, ◌/◌, ◌%◌, ◌^◌, ◌≡◌, ◌≢◌, ◌↔◌, arith, ap}
use cluster_stm.Stm.Meta.{meta_addr, meta_offset, share_size_bytes}

abbrev pub IsAligned : ℕ → ℕ → Type 0
IsAligned share_power a = a % share_size_bytes share_power ≡ 0

pub meta_offset_lem : (s a : ℕ) → meta_offset s a ≡ a / share_size_bytes s
unfolding meta_offset share_size_bytes
meta_offset_lem s a = div-div-eq-div-mul a (2 ^ s) 8

-- Two addresses have one metadata word exactly when they lie in one block.
meta_addr-eq_iff :
    (base s a b : ℕ)
    → (meta_addr base s a ≡ meta_addr base s b) ↔ (a / share_size_bytes s ≡ b / share_size_bytes s)
unfolding meta_addr
meta_addr-eq_iff base s a b = (
  λ e. omega (arith, meta_offset_lem s a, meta_offset_lem s b),
  λ e. omega (arith, meta_offset_lem s a, meta_offset_lem s b),
)

pub meta_addr-ne :
    (base s a b : ℕ)
    → IsAligned s a
    → IsAligned s b
    → a ≢ b
    → meta_addr base s a ≢ meta_addr base s b
meta_addr-ne base s a b al bl ne e =
    let same = (meta_addr-eq_iff base s a b).0 e in
    ne (
      omega (
        arith,
        div-add-mod' a (share_size_bytes s),
        div-add-mod' b (share_size_bytes s),
        ap (λ k. k * share_size_bytes s) same,
      ))
