-- ===== src/Stm/Hashmap.antt =====
-- libmba's `struct hashmap`, which is not part of the repository: what stm-distrib.c calls of it,
-- with the documented behaviour that the development relies on.
use cluster_stm.Common.{
  inl, inr, Option-cases, eq-or-ne, ◌∙◌, ◌≢◌, ==_refl, ==_ne, sym, ℕ, ◌≡◌, Option, none, some, List,
  lookup, Distinct, ◌==◌, if◌then◌else◌,
}

pub record Hashmap (V : Type 0) : Type 1 where
  pub Map : Type 0
  -- `hashmap_init`, and `hashmap_clear` of any map
  pub init : Map
  -- `hashmap_get`; the keys are compared as addresses
  pub get : Map → ℕ → Option V
  -- `hashmap_put`
  pub put : Map → ℕ → V → Map
  -- A write through the pointer that `hashmap_get` returned.
  pub store : Map → ℕ → V → Map
  -- What `hashmap_iterate` and `hashmap_next` visit, in their order.
  pub entries : Map → List (ℕ × V)
  pub get-init : (k : ℕ) → get init k ≡ none
  pub get-put :
      (m : Map) (k j : ℕ) (v : V)
      → get m k ≡ none
      → get (put m k v) j ≡ (if k == j then some v else get m j)
  -- A key that is there stays as it is.
  pub get-put_old : (m : Map) (k j : ℕ) (v w : V) → get m k ≡ some w → get (put m k v) j ≡ get m j
  pub get-store :
      (m : Map) (k j : ℕ) (v w : V)
      → get m k ≡ some w
      → get (store m k v) j ≡ (if k == j then some v else get m j)
  -- Every entry is visited, once.
  pub lookup-entries : (m : Map) (k : ℕ) → lookup k (entries m) ≡ get m k
  pub entries-Distinct : (m : Map) → Distinct (entries m)

module _ {V : Type 0} (h : Hashmap V) (m : h.Map) (k : ℕ) (v : V) where
  pub get-put_self : h.get m k ≡ none → h.get (h.put m k v) k ≡ some v
  get-put_self new = h.get-put m k k v new ∙ rw (==_refl k)

  pub get-put_ne : h.get m k ≡ none → (j : ℕ) → j ≢ k → h.get (h.put m k v) j ≡ h.get m j
  get-put_ne new j ne = h.get-put m k j v new ∙ rw (==_ne k j (λ e. ne (sym e)))

  pub get-store_self : (w : V) → h.get m k ≡ some w → h.get (h.store m k v) k ≡ some v
  get-store_self w old = h.get-store m k k v w old ∙ rw (==_refl k)

  pub get-store_ne :
      (w : V) → h.get m k ≡ some w → (j : ℕ) → j ≢ k → h.get (h.store m k v) j ≡ h.get m j
  get-store_ne w old j ne = h.get-store m k j v w old ∙ rw (==_ne k j (λ e. ne (sym e)))

  -- `put` adds a key, and loses none.
  pub put_there : h.get (h.put m k v) k ≢ none
  put_there gone = elim (Option-cases (h.get m k)) [
    | inl new ↦ cc (get-put_self new, gone)
    | inr (w, old) ↦ cc (h.get-put_old m k k v w old, old, gone)
  ]

  pub put-keeps : (j : ℕ) → h.get m j ≢ none → h.get (h.put m k v) j ≢ none
  put-keeps j kept gone = elim (Option-cases (h.get m k)) [
    | inr (w, old) ↦ kept (sym (h.get-put_old m k j v w old) ∙ gone)
    | inl new ↦ elim (eq-or-ne j k) [
      | inl e ↦ kept (rw e new)
      | inr ne ↦ kept (sym (get-put_ne new j ne) ∙ gone)
    ]
  ]
