-- ===== src/HashmapSwap/Chains.antt =====
-- Chains of nodes: what `find_node` finds, and that it ends.
use cluster_stm.Common.{
  ℕ, zero, suc, ◌<◌, ◌≡◌, ◌≢◌, refl, inl, inr, List, [], ◌∷◌, ◌==◌, if◌then◌else◌, length, arith,
  Bool-cases, ==_ne,
}
use cluster_stm.Stm.Types.{ok}
use cluster_stm.HashmapSwap.{Shelf, find_node}

-- The nodes of `xs` are linked in their order, from the pointer `p` on.
abbrev pub IsChain : Shelf → ℕ → List ℕ → Type 0
IsChain s p [] = p ≡ 0
IsChain s p (x ∷ xs) = (p ≡ x) × (x ≢ 0) × IsChain s (s.next x) xs

-- The first node of the list with the key, or null.
abbrev pub seek : (ℕ → ℕ) → (key : ℕ) → List ℕ → ℕ
seek keys key [] = 0
seek keys key (x ∷ xs) = if key == keys x then x else seek keys key xs

pub find_node-seek :
    (fuel : ℕ) (s : Shelf) (key p : ℕ) (xs : List ℕ)
    → IsChain s p xs
    → length xs < fuel
    → find_node fuel s key p ≡ ok (seek s.key key xs)
unfolding find_node
find_node-seek zero s key p xs chain enough = absurd (omega (arith, enough))
find_node-seek (suc fuel) s key p [] chain enough = rw chain refl
find_node-seek (suc fuel) s key p (x ∷ xs) (here, not_null, chain) enough =
    let rest = find_node-seek fuel s key (s.next x) xs chain (omega (arith, enough)) in
    rw here (
      rw (==_ne x 0 not_null) (elim (Bool-cases (key == s.key x)) [
        | inl found ↦ rw found refl
        | inr other ↦ rw other rest
      ]))
