-- ===== src/Tests/HashmapRuns.antt =====
-- The hash map on two processors, with a table of four buckets.
use cluster_stm.Common.{
  ℕ, suc, ◌+◌, ◌*◌, ◌≡◌, ◌%◌, ◌<◌, ◌≤◌, Bool, false, Option, some, List, [], ◌∷◌, ◌==◌,
  if◌then◌else◌, refl, arith, elem,
}
use cluster_stm.Stm.Types.{ok, succeed, fail}
use cluster_stm.Grt.Lock.{lock_alloc_local}
use cluster_stm.HashmapSwap.{
  Shelf, IsAllocator, compute_hash, hash_map_insert, hash_map_find, prepend, insert_local,
  find_local, find_node, grt_on,
}
use cluster_stm.HashmapSwap.Contents.{IsStocked}
use cluster_stm.HashmapSwap.Mapping.{hash_map_insert-find, found_in, is_there}
use cluster_stm.HashmapSwap.Locks.{Locks, lock, Request, ask, lock-deadlock}
use cluster_stm.HashmapSwap.Buckets.{compute_hash-bounds}

-- The next node lies after all that are in use.
abbrev after_all : List ℕ → ℕ
after_all [] = 1
after_all (x ∷ xs) = suc (x + after_all xs)

after_all-elem : (m : ℕ) (xs : List ℕ) → after_all xs ≤ m → elem m xs ≡ false
after_all-elem m [] le = refl
after_all-elem m (x ∷ xs) le = ground (arith, after_all-elem m xs (omega (arith, le)))

positive : (xs : List ℕ) → 0 < after_all xs
positive [] = omega arith
positive (x ∷ xs) = omega (arith)

after_all-IsAllocator : IsAllocator after_all
after_all-IsAllocator = record {
  not_null = λ used e. omega (arith, positive used, e);
  unused = λ used. after_all-elem (after_all used) used (omega arith);
}

abbrev empty : ℕ → Shelf
empty p = record { table = λ b. 0; next = λ q. 0; key = λ q. 0; val = λ q. 0; nodes = [] }

empty-IsStocked : IsStocked 4 2 empty
empty-IsStocked p b = record { chain = []; linked = refl; short = omega arith; fits = tt }

hash_map_insert-find_example :
    (shelves' : ℕ → Shelf) × (was : Bool) × (hash_map_insert 4 2 after_all empty 5 70
      ≡ ok (shelves', was))
    × IsStocked 4 2 shelves'
    × ((k : ℕ) → found_in 4 2 shelves' k ≡ (if 5 == k then ok (some 70) else found_in 4 2 empty k))
    × ((k : ℕ) → (o : Option ℕ) × (found_in 4 2 empty k ≡ ok o))
    × ((o : Option ℕ) → found_in 4 2 empty 5 ≡ ok o → was ≡ is_there o)
hash_map_insert-find_example =
    hash_map_insert-find 4 2 after_all after_all-IsAllocator empty empty-IsStocked 5 70

-- Key 5, then 9 in the same bucket, then 5 again.
abbrev then_insert : (ℕ → Shelf) → ℕ → ℕ → ℕ → Shelf
then_insert shelves key v = elim (hash_map_insert 4 2 after_all shelves key v) [
  | ok r ↦ r.0
  | _ ↦ shelves
]

inserted_twice :
    found_in 4 2 (then_insert (then_insert (then_insert empty 5 70) 9 80) 5 90) 5 ≡ ok (some 90)
unfolding hash_map_insert hash_map_find prepend insert_local find_local find_node grt_on
    compute_hash
inserted_twice = refl

compute_hash-bounds_example :
    ((compute_hash 5 2 9).proc < 2)
    × ((compute_hash 5 2 9).offset < 3)
    × ((compute_hash 5 2 9).offset * 2 + (compute_hash 5 2 9).proc ≡ 9 % 5)
compute_hash-bounds_example = compute_hash-bounds 5 2 3 9 (omega arith) (omega arith) (omega arith)

abbrev free_locks : Locks
free_locks h = lock_alloc_local

-- Keys 0 and 1, and keys 1 and 4: buckets 0 and 1 in both orders.
lock-deadlock_example :
    (mine : Request) × (mine' : Request) × (yours : Request) × (yours' : Request) × (lock 4 2 0 1 11
        12
      ≡ mine ∷ mine' ∷ [])
    × (lock 4 2 1 4 13 14 ≡ yours ∷ yours' ∷ [])
    × ((ask 0 free_locks mine).1 ≡ succeed)
    × ((ask 1 (ask 0 free_locks mine).0 yours).1 ≡ succeed)
    × ((ask 0 (ask 1 (ask 0 free_locks mine).0 yours).0 mine').1 ≡ fail)
    × ((ask 1 (ask 1 (ask 0 free_locks mine).0 yours).0 yours').1 ≡ fail)
unfolding compute_hash lock_alloc_local
lock-deadlock_example =
    lock-deadlock 4 2 0 1 1 4 free_locks 0 1 11 12 13 14 (omega arith) (omega arith) refl refl refl
      refl refl
