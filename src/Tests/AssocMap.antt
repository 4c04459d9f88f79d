-- ===== src/Tests/AssocMap.antt =====
-- A hash map that meets the laws of `Hashmap`: an association list without repeated keys.
use cluster_stm.Common.{
  ℕ, ◌≡◌, refl, none, some, List, [], ◌∷◌, ◌==◌, if◌then◌else◌, arith, inl, inr, Option-cases,
  Bool-cases, lookup, Distinct,
}
use cluster_stm.Stm.Hashmap.{Hashmap}

module _ {V : Type 0} where
  unfoldable pub insert : ℕ → V → List (ℕ × V) → List (ℕ × V)
  unfolding lookup
  insert k v m = elim (lookup k m) [ none ↦ (k, v) ∷ m | some _ ↦ m ]

  unfoldable pub replace : ℕ → V → List (ℕ × V) → List (ℕ × V)
  replace k v [] = []
  replace k v ((j, w) ∷ m) = if k == j then (j, v) ∷ m else (j, w) ∷ replace k v m

  pub insert-Distinct : (k : ℕ) (v : V) (m : List (ℕ × V)) → Distinct m → Distinct (insert k v m)
  unfolding insert
  insert-Distinct k v m d = elim (Option-cases (lookup k m)) [
    | inl e ↦ rw (e, insert) (e, d)
    | inr (w, e) ↦ rw (e, insert) d
  ]

  lookup-replace-none :
      (k j : ℕ) (v : V) (m : List (ℕ × V)) → lookup j m ≡ none → lookup j (replace k v m) ≡ none
  unfolding lookup replace
  lookup-replace-none k j v [] h = refl
  lookup-replace-none k j v ((i, w) ∷ m) h = ground (arith, lookup-replace-none k j v m)

  pub replace-Distinct : (k : ℕ) (v : V) (m : List (ℕ × V)) → Distinct m → Distinct (replace k v m)
  unfolding replace
  replace-Distinct k v [] d = tt
  replace-Distinct k v ((j, w) ∷ m) d = elim (Bool-cases (k == j)) [
    | inl e ↦ rw e d
    | inr e ↦ rw e (lookup-replace-none k j v m d.0, replace-Distinct k v m d.1)
  ]

  pub lookup-insert :
      (k j : ℕ) (v : V) (m : List (ℕ × V))
      → lookup k m ≡ none
      → lookup j (insert k v m) ≡ (if k == j then some v else lookup j m)
  unfolding lookup insert
  lookup-insert k j v m new = ground arith

  pub lookup-insert_old :
      (k j : ℕ) (v w : V) (m : List (ℕ × V))
      → lookup k m ≡ some w
      → lookup j (insert k v m) ≡ lookup j m
  unfolding insert
  lookup-insert_old k j v w m old = ground arith

  pub lookup-replace :
      (k j : ℕ) (v w : V) (m : List (ℕ × V))
      → lookup k m ≡ some w
      → lookup j (replace k v m) ≡ (if k == j then some v else lookup j m)
  unfolding lookup replace
  lookup-replace k j v w [] old = absurd (cc)
  lookup-replace k j v w ((i, u) ∷ m) old = ground (arith, lookup-replace k j v w m)

unfoldable pub assoc_map : (V : Type 0) → Hashmap V
unfolding insert replace
assoc_map V = record {
  Map = (m : List (ℕ × V)) × Distinct m;
  init = ([], tt);
  get = λ m k. lookup k m.0;
  put = λ m k v. (insert k v m.0, insert-Distinct k v m.0 m.1);
  store = λ m k v. (replace k v m.0, replace-Distinct k v m.0 m.1);
  entries = λ m. m.0;
  get-init = λ k. unfold lookup in refl;
  get-put = λ m k j v. lookup-insert k j v m.0;
  get-put_old = λ m k j v w. lookup-insert_old k j v w m.0;
  get-store = λ m k j v w. lookup-replace k j v w m.0;
  lookup-entries = λ m k. refl;
  entries-Distinct = λ m. m.1;
}
