-- ===== src/HashmapSwap/Mapping.antt =====
-- The hash map as a map: what `hash_map_find` answers after `hash_map_insert`.
use mathlib.Core.Path.{subst}
use cluster_stm.Common.{
  ◌∙◌, ℕ, ◌≡◌, sym, ap, refl, inl, inr, Bool, true, false, Option, none, some, List, ◌==◌,
  if◌then◌else◌, Bool-cases, eq-or-ne, ==→eq, ==_ne, ==_false→ne,
}
use cluster_stm.Common.Family.{update}
use cluster_stm.Stm.Types.{ok-injective, Run, ok, ◌>>=◌}
use cluster_stm.HashmapSwap.{
  Shelf, IsAllocator, prepend, insert_local, find_local, grt_on, hash_map_insert, hash_map_find,
}
use cluster_stm.HashmapSwap.Contents.{hash, Bucket, content, IsStocked}
use cluster_stm.HashmapSwap.Insertion.{
  find_node-chain, find_local-content, revalued, revalued_bucket, revalued-Maps, old_node,
}
use cluster_stm.HashmapSwap.Growth.{
  longer, longer_bucket, longer_bucket_home, longer_bucket_other, longer-home-content,
  longer-other-content,
}

-- A value is there.
abbrev pub is_there : Option ℕ → Bool
is_there none = false
is_there (some v) = true

module _ (ts np : ℕ) (new_node : List ℕ → ℕ) (al : IsAllocator new_node) (s : Shelf) (p key v : ℕ)
    (here : (hash ts np key).proc ≡ p) (st : (b : ℕ) → Bucket ts np s p b) where
  -- `s'` answers as `s` does, but for the key.
  record Inserted (r : Run (Shelf × Bool)) : Type 0 where
    shelf : Shelf
    was : Bool
    run : r ≡ ok (shelf, was)
    stock : (b : ℕ) → Bucket ts np shelf p b
    found :
        (k : ℕ)
        → (hash ts np k).proc ≡ p
        → find_local ts np shelf k
          ≡ ok (if key == k then some v else content ts np (st (hash ts np k).offset) k)
    known : was ≡ is_there (content ts np (st (hash ts np key).offset) key)

  longer-find :
      (k : ℕ)
      → (hash ts np k).proc ≡ p
      → find_local ts np (longer ts np s p key v here st new_node al) k
        ≡ ok (if key == k then some v else content ts np (st (hash ts np k).offset) k)
  longer-find k there = elim (eq-or-ne (hash ts np key).offset (hash ts np k).offset) [
    | inl e ↦
        find_local-content ts np (longer ts np s p key v here st new_node al) p
          (hash ts np key).offset k (longer_bucket_home ts np s p key v here st new_node al) e
        ∙ ap ok (
            longer-home-content ts np s p key v here st new_node al k
            ∙ ap (λ b. if key == k then some v else content ts np (st b) k) e)
    | inr ne ↦
        let apart = ==_ne (hash ts np key).offset (hash ts np k).offset ne in
        let new_key = ==_ne key k (λ e. ne (ap (λ j. (hash ts np j).offset) e)) in
        find_local-content ts np (longer ts np s p key v here st new_node al) p
          (hash ts np k).offset k
          (longer_bucket_other ts np s p key v here st new_node al (hash ts np k).offset apart) refl
        ∙ ap ok (
            longer-other-content ts np s p key v here st new_node al (hash ts np k).offset apart k
            ∙ rw new_key refl)
  ]

  insert-Inserted : Inserted (insert_local ts np new_node s key v)
  unfolding insert_local prepend
  insert-Inserted =
      let q = old_node ts np s p key v here st in
      let bk = st (hash ts np key).offset in
      let seen = find_node-chain ts np s p (hash ts np key).offset key bk in
      elim (Bool-cases (q == 0)) [
        | inl gone ↦ record {
          shelf = longer ts np s p key v here st new_node al;
          was = false;
          run = rw (insert_local, seen, gone) refl;
          stock = longer_bucket ts np s p key v here st new_node al;
          found = longer-find;
          known = rw gone refl;
        }
        | inr have ↦ record {
          shelf = revalued ts np s p q v;
          was = true;
          run = rw (insert_local, seen, have) refl;
          stock = λ b. revalued_bucket ts np s p q v b (st b);
          found = λ k there.
              find_local-content ts np (revalued ts np s p q v) p (hash ts np k).offset k
                (revalued_bucket ts np s p q v (hash ts np k).offset (st (hash ts np k).offset))
                refl
              ∙ ap ok (revalued-Maps ts np s p key v here st (==_false→ne q 0 have) k there);
          known = rw have refl;
        }
      ]

-- The answer of `hash_map_find`, which leaves the tables as they are.
abbrev pub found_in : (ts np : ℕ) → (ℕ → Shelf) → ℕ → Run (Option ℕ)
found_in ts np shelves key = hash_map_find ts np shelves key >>= λ r. ok r.1

found_in-run :
    (ts np : ℕ) (shelves : ℕ → Shelf) (k : ℕ) (o : Option ℕ)
    → find_local ts np (shelves (hash ts np k).proc) k ≡ ok o
    → found_in ts np shelves k ≡ ok o
unfolding hash_map_find grt_on
found_in-run ts np shelves k o run = rw (hash_map_find, grt_on, run) refl

module _ (ts np : ℕ) (shelves : ℕ → Shelf) (st : IsStocked ts np shelves) where
  -- What processor `p` has in the bucket of the key.
  abbrev held : ℕ → ℕ → Option ℕ
  held k p = content ts np (st p (hash ts np k).offset) k

  found_in-content : (k : ℕ) → found_in ts np shelves k ≡ ok (held k (hash ts np k).proc)
  found_in-content k = found_in-run ts np shelves k _ (
      find_local-content ts np (shelves (hash ts np k).proc) (hash ts np k).proc
        (hash ts np k).offset k (st (hash ts np k).proc (hash ts np k).offset) refl)

module _ (ts np : ℕ) (new_node : List ℕ → ℕ) (al : IsAllocator new_node) (shelves : ℕ → Shelf)
    (st : IsStocked ts np shelves) (key v : ℕ) where
  abbrev home_proc : ℕ
  home_proc = (hash ts np key).proc

  ins :
      Inserted ts np new_node al
        (shelves home_proc)
        home_proc
        key
        v
        refl
        (st home_proc)
        (insert_local ts np new_node (shelves home_proc) key v)
  ins = insert-Inserted ts np new_node al (shelves home_proc) home_proc key v refl (st home_proc)

  inserted : ℕ → Shelf
  inserted = update shelves home_proc ins.shelf

  inserted-IsStocked : IsStocked ts np inserted
  unfolding inserted
  inserted-IsStocked p b = elim (Bool-cases (home_proc == p)) [
    | inl e ↦ rw e (subst (λ q. Bucket ts np ins.shelf q b) (==→eq home_proc p e) (ins.stock b))
    | inr ne ↦ rw ne (st p b)
  ]

  inserted-found :
      (k : ℕ)
      → found_in ts np inserted k ≡ (if key == k then ok (some v) else found_in ts np shelves k)
  unfolding inserted
  inserted-found k =
      let p = (hash ts np k).proc in
      let before = found_in-content ts np shelves st k in
      elim (Bool-cases (home_proc == p)) [
        | inl e ↦
            let same = ==→eq home_proc p e in
            found_in-run ts np inserted k
              (if key == k then some v else held ts np shelves st k home_proc)
              (rw e (ins.found k (sym same)))
            ∙ (elim (Bool-cases (key == k)) [
              | inl y ↦ rw y refl
              | inr n ↦ rw n (ap (λ q. ok (held ts np shelves st k q)) same ∙ sym before)
            ])
        | inr ne ↦
            let apart =
              ==_ne key k (λ j. ==_false→ne home_proc p ne (ap (λ i. (hash ts np i).proc) j)) in
            found_in-run ts np inserted k (held ts np shelves st k p)
              (rw ne (find_local-content ts np (shelves p) p _ k (st p (hash ts np k).offset) refl))
            ∙ sym (rw apart before)
      ]

  -- The hash map is a map, if the allocator answers with nodes that are not null and not in use:
  -- from tables whose buckets are chains of allocated nodes, each in the bucket of its key,
  -- `hash_map_insert` ends and leads to such tables again; afterwards `hash_map_find`, which ends for
  -- every key, finds the value under the key and under every other key what it found before; and the
  -- answer of `hash_map_insert` says whether the key was there.
  pub hash_map_insert-find :
      (shelves' : ℕ → Shelf) × (was : Bool) × (hash_map_insert ts np new_node shelves key v
        ≡ ok (shelves', was))
      × IsStocked ts np shelves'
      × ((k : ℕ)
          → found_in ts np shelves' k
            ≡ (if key == k then ok (some v) else found_in ts np shelves k))
      × ((k : ℕ) → (o : Option ℕ) × (found_in ts np shelves k ≡ ok o))
      × ((o : Option ℕ) → found_in ts np shelves key ≡ ok o → was ≡ is_there o)
  unfolding hash_map_insert grt_on inserted
  hash_map_insert-find = (
    inserted,
    ins.was,
    rw (hash_map_insert, grt_on, ins.run) refl,
    inserted-IsStocked,
    inserted-found,
    λ k. (_, found_in-content ts np shelves st k),
    λ o h. ins.known ∙ ap is_there (ok-injective (sym (found_in-content ts np shelves st key) ∙ h)),
  )
