-- ===== src/Grt/Alloc/Barrier.antt =====
-- `grt_all_alloc` and `grt_alloc` on all processors.
use cluster_stm.Common.{
  ℕ, suc, ◌^◌, ◌<◌, ◌≡◌, ◌∙◌, ap, refl, sym, inl, inr, ◌==◌, if◌then◌else◌, List, [], ◌∷◌, arith,
  eq-or-ne,
}
use cluster_stm.Common.Family.{update}
use cluster_stm.Common.Words.{handlerarg_small}
use cluster_stm.Grt.Memory.Laws.{grt_word-halves}
use cluster_stm.Grt.Alloc.{
  Umalloc, Allocs, grt_alloc_local, alloc_handler, grt_alloc, get_alloc_handler,
  grt_get_last_allocation, before_barrier, arrive, grt_all_alloc,
}

-- How often `p` stands in the list.
abbrev pub times : ℕ → List ℕ → ℕ
times p [] = 0
times p (q ∷ ps) = if p == q then suc (times p ps) else times p ps

module _ {u : Umalloc} (proc nbytes : ℕ) where
  arrive-without :
      (ps : List ℕ) (s : ℕ → Allocs u) (r : ℕ) → times proc ps ≡ 0 → arrive proc nbytes ps s r ≡ s r
  unfolding arrive before_barrier
  arrive-without [] s r none_there = refl
  arrive-without (p ∷ ps) s r none_there = elim (eq-or-ne proc p) [
    | inl e ↦ absurd (ground arith)
    | inr ne ↦ ground (arith, arrive-without ps s r)
  ]

  arrive-once :
      (ps : List ℕ) (s : ℕ → Allocs u) (r : ℕ)
      → times proc ps ≡ 1
      → arrive proc nbytes ps s r ≡ update s proc (grt_alloc_local nbytes (s proc)) r
  unfolding arrive before_barrier
  arrive-once [] s r once = absurd (omega arith)
  arrive-once (p ∷ ps) s r once = elim (eq-or-ne proc p) [
    | inl e ↦ ground (arith, arrive-without ps (before_barrier proc nbytes p s) r)
    | inr ne ↦ ground (arith, arrive-once ps s r)
  ]

  read_last :
      (grt_id : ℕ) (s : ℕ → Allocs u)
      → (s proc).grt_last_alloc < 2 ^ 64
      → grt_get_last_allocation grt_id proc s ≡ (s proc).grt_last_alloc
  unfolding grt_get_last_allocation get_alloc_handler
  read_last grt_id s small = ground (arith, grt_word-halves (s proc).grt_last_alloc small)

  allocated :
      (ps : List ℕ) (s : ℕ → Allocs u)
      → times proc ps ≡ 1
      → (arrive proc nbytes ps s proc).grt_last_alloc ≡ (u.ucalloc (s proc).grt_heap nbytes 1).1
  unfolding grt_alloc_local
  allocated ps s once = rw (arrive-once ps s proc once) (ground arith)

  alloc-eq :
      (caller : ℕ) (s : ℕ → Allocs u)
      → nbytes < 2 ^ 31
      → (u.ucalloc (s proc).grt_heap nbytes 1).1 < 2 ^ 64
      → grt_alloc caller proc nbytes s ≡ (
        update s proc (grt_alloc_local nbytes (s proc)),
        (u.ucalloc (s proc).grt_heap nbytes 1).1,
      )
  unfolding grt_alloc alloc_handler grt_alloc_local
  alloc-eq caller s fits small =
      rw (handlerarg_small nbytes fits)
        (ground (arith, grt_word-halves (u.ucalloc (s proc).grt_heap nbytes 1).1 small))

  -- If each processor calls `grt_all_alloc`, `proc` among them once, then in whatever order they
  -- come to the first barrier, the result on every processor is the address that one `ucalloc` on
  -- `proc` gives, and every processor's heap and last address are as one `grt_alloc` from any
  -- processor leaves them, whose result is the same. (The size is below 2^31, and the address has 64
  -- bits.)
  pub grt_all_alloc-same :
      (ps : List ℕ) (s : ℕ → Allocs u)
      → times proc ps ≡ 1
      → nbytes < 2 ^ 31
      → (u.ucalloc (s proc).grt_heap nbytes 1).1 < 2 ^ 64
      → (grt_id caller : ℕ)
      → ((grt_all_alloc grt_id proc nbytes ps s).1 ≡ (u.ucalloc (s proc).grt_heap nbytes 1).1)
        × ((grt_alloc caller proc nbytes s).1 ≡ (u.ucalloc (s proc).grt_heap nbytes 1).1)
        × ((r : ℕ)
            → (grt_all_alloc grt_id proc nbytes ps s).0 r ≡ (grt_alloc caller proc nbytes s).0 r)
  unfolding grt_all_alloc
  grt_all_alloc-same ps s once fits small grt_id caller =
      let last = allocated ps s once in
      let own = alloc-eq caller s fits small in
      (
        read_last grt_id (arrive proc nbytes ps s) (omega (arith, last)) ∙ last,
        ap (λ (x : (ℕ → Allocs u) × ℕ). x.1) own,
        λ r. arrive-once ps s r once ∙ sym (ap (λ (x : (ℕ → Allocs u) × ℕ). x.0 r) own),
      )
