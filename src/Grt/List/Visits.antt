-- ===== src/Grt/List/Visits.antt =====
-- What a list gives back.
use cluster_stm.Common.{
  ℕ, zero, suc, ◌+◌, ◌≤◌, ◌≡◌, refl, ap, List, [], ◌∷◌, ◌++◌, length, length-append, arith,
}
use cluster_stm.Grt.List.{GrtList, grt_list_append, grt_list_start, grt_list_get_next, visit}

module _ {ℓ} {A : Type ℓ} where
  visit-next :
      (xs nodes : List A) (size fuel : ℕ)
      → length xs ≤ fuel
      → visit fuel (record { nodes = nodes; next = xs; size = size }) ≡ xs
  unfolding visit grt_list_get_next
  visit-next [] nodes size zero enough = refl
  visit-next [] nodes size (suc fuel) enough = refl
  visit-next (x ∷ xs) nodes size zero enough = absurd (omega arith)
  visit-next (x ∷ xs) nodes size (suc fuel) enough =
      ap (λ ys. x ∷ ys) (visit-next xs nodes size fuel (omega arith))

  -- An iteration over a list to which a word was appended visits the words that were there, in
  -- their order, and then the new one. (It has a round for each.)
  pub visit-append :
      (list : GrtList A) (x : A) (fuel : ℕ)
      → length list.nodes + 1 ≤ fuel
      → visit fuel (grt_list_start (grt_list_append list x)) ≡ list.nodes ++ (x ∷ [])
  unfolding grt_list_start grt_list_append
  visit-append list x fuel enough =
      visit-next (list.nodes ++ (x ∷ [])) _ _ fuel
        (omega (arith, length-append list.nodes (x ∷ [])))
