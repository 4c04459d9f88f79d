-- ===== src/HashmapSwap/Locks.antt =====
-- `lock` and `unlock` of Benchmarks/hashmap-swap/lib/hashmap-locks.c, which a swap of two values
-- takes the locks of both keys' buckets with.
use cluster_stm.Common.{
  ◌∙◌, ℕ, ◌<◌, ◌≡◌, sym, ap, refl, Bool, true, false, ◌&&◌, List, [], ◌∷◌, ◌==◌, ltb, if◌then◌else◌,
  arith, ==_refl,
}
use cluster_stm.Stm.Types.{LockType, write, Status, succeed, fail}
use cluster_stm.Grt.Lock.{Lock, lock_local}
use cluster_stm.HashmapSwap.{Hash, compute_hash}

-- One call of `grt_lock` by `hash_map_lock`.
pub record Request : Type 0 where
  pub bucket : Hash
  pub type : LockType
  pub state : ℕ

abbrev pub same_bucket : Hash → Hash → Bool
same_bucket h k = h.proc == k.proc && h.offset == k.offset

module _ (table_size num_procs : ℕ) where
  -- The locks that `lock` asks for, each when the one before was granted.
  unfoldable pub lock : (key1 key2 state1 state2 : ℕ) → List Request
  lock key1 key2 state1 state2 =
      let hash1 = compute_hash table_size num_procs key1 in
      let hash2 = compute_hash table_size num_procs key2 in
      let first : Request = record { bucket = hash1; type = write; state = state1 } in
      let second : Request = record { bucket = hash2; type = write; state = state2 } in
      if same_bucket hash1 hash2
      then first ∷ []
      else (if ltb key1 key2 then first ∷ second ∷ [] else second ∷ first ∷ [])

  -- The locks that `unlock` releases.
  unfoldable pub unlock : (key1 key2 : ℕ) → List Hash
  unlock key1 key2 =
      let hash1 = compute_hash table_size num_procs key1 in
      let hash2 = compute_hash table_size num_procs key2 in
      if same_bucket hash1 hash2 then hash1 ∷ [] else hash1 ∷ hash2 ∷ []

-- The lock of each bucket.
abbrev pub Locks : Type 0
Locks = Hash → Lock

abbrev pub set_lock : Locks → Hash → Lock → Locks
set_lock locks h lock' k = if same_bucket h k then lock' else locks k

-- `grt_lock` by processor `grt_id`, up to its wait.
abbrev pub ask : (grt_id : ℕ) → Locks → Request → Locks × Status
ask grt_id locks r =
    let (lock', status) = lock_local grt_id (locks r.bucket) r.type r.state in
    (set_lock locks r.bucket lock', status)

abbrev write_request : Hash → ℕ → Request
write_request h state = record { bucket = h; type = write; state = state }

lock_local-free :
    (p s : ℕ) (k : Lock)
    → k.num_holders ≡ 0
    → lock_local p k write s ≡ (record k { type = write; num_holders = 1 }, succeed)
unfolding lock_local
lock_local-free p s k free = rw (lock_local, free) refl

lock_local-busy :
    (p s : ℕ) (k : Lock)
    → (lock_local p (record k { type = write; num_holders = 1 }) write s).1 ≡ fail
unfolding lock_local
lock_local-busy p s k = refl

same_bucket_refl : (x : Hash) → same_bucket x x ≡ true
same_bucket_refl x = rw (==_refl x.proc, ==_refl x.offset) refl

same_bucket_sym : (x y : Hash) → same_bucket x y ≡ false → same_bucket y x ≡ false
same_bucket_sym x y h = ground (arith)

module _ (locks : Locks) (x y : Hash) (p q s1 s2 s3 s4 : ℕ) (apart : same_bucket x y ≡ false)
    (free : (locks x).num_holders ≡ 0) (free' : (locks y).num_holders ≡ 0) where
  abbrev taken : Lock → Lock
  taken k = record k { type = write; num_holders = 1 }

  -- Both first requests are granted.
  one : ask p locks (write_request x s1) ≡ (set_lock locks x (taken (locks x)), succeed)
  one = rw (lock_local-free p s1 (locks x) free) refl

  both : Locks
  both = set_lock (set_lock locks x (taken (locks x))) y (taken (locks y))

  two : ask q (set_lock locks x (taken (locks x))) (write_request y s3) ≡ (both, succeed)
  unfolding both
  two = rw apart (rw (lock_local-free q s3 (locks y) free') refl)

  both-left : both x ≡ taken (locks x)
  unfolding both
  both-left = rw (same_bucket_sym x y apart, same_bucket_refl x) refl

  both-right : both y ≡ taken (locks y)
  unfolding both
  both-right = rw (same_bucket_refl y) refl

  crossed :
      ((ask p locks (write_request x s1)).1 ≡ succeed)
      × ((ask q (ask p locks (write_request x s1)).0 (write_request y s3)).1 ≡ succeed)
      × ((ask p
            (ask q (ask p locks (write_request x s1)).0 (write_request y s3)).0
            (write_request y s2)).1
          ≡ fail)
      × ((ask q
            (ask q (ask p locks (write_request x s1)).0 (write_request y s3)).0
            (write_request x s4)).1
          ≡ fail)
  crossed = (
    ap (λ (r : Locks × Status). r.1) one,
    ap (λ (r : Locks × Status). (ask q r.0 (write_request y s3)).1) one
        ∙ ap (λ (r : Locks × Status). r.1) two,
    ap (λ (r : Locks × Status). (ask p (ask q r.0 (write_request y s3)).0 (write_request y s2)).1)
          one
        ∙ ap (λ (r : Locks × Status). (ask p r.0 (write_request y s2)).1) two
        ∙ ap (λ k. (lock_local p k write s2).1) both-right
        ∙ lock_local-busy p s2 (locks y),
    ap (λ (r : Locks × Status). (ask q (ask q r.0 (write_request y s3)).0 (write_request x s4)).1)
          one
        ∙ ap (λ (r : Locks × Status). (ask q r.0 (write_request x s4)).1) two
        ∙ ap (λ k. (lock_local q k write s4).1) both-left
        ∙ lock_local-busy q s4 (locks x),
  )

module _ (table_size num_procs a b c d : ℕ) where
  abbrev hash : ℕ → Hash
  hash k = compute_hash table_size num_procs k

  -- `lock` can deadlock, since it orders the two locks by the keys and not by the buckets. For keys
  -- with `a < b` and `c < d` where `a` and `d` fall into one bucket and `b` and `c` into another one,
  -- both free: one processor asks for the buckets of `a` and `b` in this order, another one for
  -- those of `c` and `d` in this order, each is granted its first lock, and then neither is granted
  -- its second one.
  pub lock-deadlock :
      (locks : Locks) (p q s1 s2 s3 s4 : ℕ)
      → a < b
      → c < d
      → hash a ≡ hash d
      → hash b ≡ hash c
      → same_bucket (hash a) (hash b) ≡ false
      → (locks (hash a)).num_holders ≡ 0
      → (locks (hash b)).num_holders ≡ 0
      → (mine : Request) × (mine' : Request) × (yours : Request) × (yours' : Request) × (lock
            table_size num_procs a b s1 s2
          ≡ mine ∷ mine' ∷ [])
        × (lock table_size num_procs c d s3 s4 ≡ yours ∷ yours' ∷ [])
        × ((ask p locks mine).1 ≡ succeed)
        × ((ask q (ask p locks mine).0 yours).1 ≡ succeed)
        × ((ask p (ask q (ask p locks mine).0 yours).0 mine').1 ≡ fail)
        × ((ask q (ask q (ask p locks mine).0 yours).0 yours').1 ≡ fail)
  unfolding lock
  lock-deadlock locks p q s1 s2 s3 s4 ab cd ad bc apart free free' =
      let (won, won', lost, lost') =
        crossed locks (hash a) (hash b) p q s1 s2 s3 s4 apart free free' in
      (
        write_request (hash a) s1,
        write_request (hash b) s2,
        write_request (hash c) s3,
        write_request (hash d) s4,
        rw (lock, apart) (ground (arith, ab)),
        rw (lock, sym bc, sym ad, same_bucket_sym (hash a) (hash b) apart) (ground (arith, cd)),
        won,
        rw (sym bc) won',
        rw (sym bc) lost,
        rw (sym bc, sym ad) lost',
      )
