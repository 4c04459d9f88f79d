-- ===== src/HashmapSwap/Contents.antt =====
-- The buckets of the table: which nodes they have, and what an insertion leaves of them.
use cluster_stm.Common.{
  ℕ, ◌≤◌, ◌≡◌, ◌≢◌, sym, ap, refl, inl, inr, true, false, Option, none, some, List, [], ◌∷◌, ◌==◌,
  if◌then◌else◌, length, elem, arith, Bool-cases, ==→eq, ==_ne,
}
use cluster_stm.Common.Family.{update}
use cluster_stm.HashmapSwap.{Hash, Shelf, compute_hash}
use cluster_stm.HashmapSwap.Chains.{IsChain, seek}

pub seek-key :
    (keys : ℕ → ℕ) (key : ℕ) (xs : List ℕ) → seek keys key xs ≢ 0 → keys (seek keys key xs) ≡ key
seek-key keys key [] found = absurd (found refl)
seek-key keys key (x ∷ xs) found = elim (Bool-cases (key == keys x)) [
  | inl e ↦ rw e (sym (==→eq key (keys x) e))
  | inr ne ↦ rw ne (seek-key keys key xs (λ gone. found (rw ne gone)))
]

module _ (table_size num_procs : ℕ) where
  abbrev pub hash : ℕ → Hash
  hash key = compute_hash table_size num_procs key

  -- The nodes are allocated, and their keys belong to the bucket `b` of processor `p`.
  abbrev pub Fits : Shelf → (p b : ℕ) → List ℕ → Type 0
  Fits s p b [] = Unit
  Fits s p b (x ∷ xs) =
      (elem x s.nodes ≡ true)
      × ((hash (s.key x)).proc ≡ p)
      × ((hash (s.key x)).offset ≡ b)
      × Fits s p b xs

  pub record Bucket (s : Shelf) (p b : ℕ) : Type 0 where
    pub chain : List ℕ
    pub linked : IsChain s (s.table b) chain
    pub short : length chain ≤ length s.nodes
    pub fits : Fits s p b chain

  abbrev pub IsStocked : (ℕ → Shelf) → Type 0
  IsStocked shelves = (p b : ℕ) → Bucket (shelves p) p b

  -- What the bucket holds for a key.
  abbrev pub content : {s : Shelf} {p b : ℕ} → Bucket s p b → ℕ → Option ℕ
  content {s} bucket key =
      if seek s.key key bucket.chain == 0 then none else some (s.val (seek s.key key bucket.chain))

  pub seek-hash :
      (s : Shelf) (p b key : ℕ) (xs : List ℕ)
      → Fits s p b xs
      → seek s.key key xs ≢ 0
      → ((hash key).proc ≡ p) × ((hash key).offset ≡ b)
  seek-hash s p b key [] f found = absurd (found refl)
  seek-hash s p b key (x ∷ xs) (used, at_p, at_b, f) found = elim (Bool-cases (key == s.key x)) [
    | inl e ↦ rw (==→eq key (s.key x) e) (at_p, at_b)
    | inr ne ↦ seek-hash s p b key xs f (λ gone. found (rw ne gone))
  ]

  -- A node that is not in use yet is not in any bucket.
  module _ (s : Shelf) (q p' key val : ℕ) (new : elem q s.nodes ≡ false) where
    other : (x : ℕ) → elem x s.nodes ≡ true → (q == x) ≡ false
    other x used = ==_ne q x (λ e. cc (new, ap (λ y. elem y s.nodes) e, used))

    abbrev pub grown : (ℕ → ℕ) → Shelf
    grown table = record {
      table = table;
      next = update s.next q p';
      key = update s.key q key;
      val = update s.val q val;
      nodes = q ∷ s.nodes;
    }

    pub grown-IsChain :
        (table : ℕ → ℕ) (p b r : ℕ) (xs : List ℕ)
        → Fits s p b xs
        → IsChain s r xs
        → IsChain (grown table) r xs
    grown-IsChain table p b r [] f c = c
    grown-IsChain table p b r (x ∷ xs) (used, at_p, at_b, f) (here, nn, c) =
        (here, nn, rw (other x used) (grown-IsChain table p b (s.next x) xs f c))

    pub grown-Fits :
        (table : ℕ → ℕ) (p b : ℕ) (xs : List ℕ) → Fits s p b xs → Fits (grown table) p b xs
    grown-Fits table p b [] f = tt
    grown-Fits table p b (x ∷ xs) (used, at_p, at_b, f) = (
      ground (arith, used),
      rw (other x used) at_p,
      rw (other x used) at_b,
      grown-Fits table p b xs f,
    )

    pub grown-seek :
        (k p b : ℕ) (xs : List ℕ) → Fits s p b xs → seek (update s.key q key) k xs ≡ seek s.key k xs
    grown-seek k p b [] f = refl
    grown-seek k p b (x ∷ xs) (used, at_p, at_b, f) =
        rw (other x used) (rw (grown-seek k p b xs f) refl)

    -- The node that was found is in use.
    pub seek-used :
        (k p b : ℕ) (xs : List ℕ)
        → Fits s p b xs
        → seek s.key k xs ≢ 0
        → (q == seek s.key k xs) ≡ false
    seek-used k p b [] f found = absurd (found refl)
    seek-used k p b (x ∷ xs) (used, at_p, at_b, f) found = elim (Bool-cases (k == s.key x)) [
      | inl e ↦ rw e (other x used)
      | inr ne ↦ rw ne (seek-used k p b xs f (λ gone. found (rw ne gone)))
    ]
