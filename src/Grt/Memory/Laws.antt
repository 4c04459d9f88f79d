-- ===== src/Grt/Memory/Laws.antt =====
-- Words arrive as they were sent, `grt_cas` is an atomic test, and work is distributed completely.
use Prim.Native.Nat.{min}
use native.Mathlib.Nat.{div-add-mod', mod-lt}
use cluster_stm.Common.{
  ℕ, ◌+◌, ◌*◌, ◌/◌, ◌%◌, ◌^◌, ◌<◌, ◌≤◌, ◌≡◌, ◌≢◌, ◌∙◌, ap, ◌&&◌, ◌==◌, if◌then◌else◌, arith, inl,
  inr, Bool-cases, ==_refl, ==_ne,
}
use cluster_stm.Grt.Memory.{
  Words, set_word, sent, grt_word, grt_word_lo, grt_word_hi, cas_local, cas_handler, grt_cas,
  grt_read, grt_write, read_handler, write_handler, grt_distrib_start, grt_distrib_range,
}

-- A 64-bit word is put together again from its halves.
pub grt_word-halves : (x : ℕ) → x < 2 ^ 64 → grt_word (grt_word_lo x) (grt_word_hi x) ≡ x
unfolding grt_word grt_word_lo grt_word_hi
grt_word-halves x small = omega arith

module _ (grt_id : ℕ) (w : Words) (proc ptr : ℕ) (small : ptr < 2 ^ 64) where
  -- A write is seen by a read of the same word, on whichever processor it lies and from whichever
  -- processor it is read; other words are as before. (Addresses and values have 64 bits.)
  pub grt_read-write :
      (reader val q b : ℕ)
      → val < 2 ^ 64
      → b < 2 ^ 64
      → w q b < 2 ^ 64
      → grt_read reader (grt_write grt_id w proc val ptr) q b
        ≡ (if (proc == q) && (ptr == b) then val else w q b)
  unfolding grt_read grt_write read_handler write_handler
  grt_read-write reader val q b vs bs ws =
      rw (grt_word-halves ptr small, grt_word-halves val vs, grt_word-halves b bs)
        (ground (arith, grt_word-halves val vs, grt_word-halves (w q b) ws))

  -- `grt_cas` does the same from each processor.
  grt_cas-anywhere :
      (old new : ℕ)
      → old < 2 ^ 64
      → new < 2 ^ 64
      → w proc ptr < 2 ^ 64
      → grt_cas grt_id w proc ptr old new ≡ cas_local w proc ptr old new
  unfolding grt_cas cas_handler
  grt_cas-anywhere old new os ns ws = elim (Bool-cases (proc == grt_id)) [
    | inl e ↦ rw e
    | inr e ↦
        rw (e, grt_word-halves ptr small, grt_word-halves old os, grt_word-halves new ns)
          (ap (λ v. ((cas_local w proc ptr old new).0, v)) (read_back w proc ptr old new ws))
  ]
    where
      read_back :
          (w : Words) (proc ptr old new : ℕ)
          → w proc ptr < 2 ^ 64
          → sent (cas_local w proc ptr old new).1 ≡ (cas_local w proc ptr old new).1
      read_back w proc ptr old new ws = unfold cas_local in grt_word-halves (w proc ptr) ws

cas_local-hit :
    (w : Words) (proc ptr old new : ℕ)
    → w proc ptr ≡ old
    → cas_local w proc ptr old new ≡ (set_word w proc ptr new, old)
unfolding cas_local
cas_local-hit w proc ptr old new now = rw (cas_local, now, ==_refl old)

cas_local-miss :
    (w : Words) (proc ptr old new v : ℕ)
    → w proc ptr ≡ v
    → v ≢ old
    → cas_local w proc ptr old new ≡ (w, v)
unfolding cas_local
cas_local-miss w proc ptr old new v now ne = rw (cas_local, now, ==_ne v old ne)

-- Of two processors that compare and swap with the same expected value, different from the first
-- new one, the second one fails: it reads the first one's value and changes nothing. (Addresses
-- and values have 64 bits.)
grt_cas-once :
    (grt_id other : ℕ) (w : Words) (proc ptr old new new' : ℕ)
    → ptr < 2 ^ 64
    → old < 2 ^ 64
    → new < 2 ^ 64
    → new' < 2 ^ 64
    → w proc ptr ≡ old
    → new ≢ old
    → grt_cas other (grt_cas grt_id w proc ptr old new).0 proc ptr old new'
      ≡ ((grt_cas grt_id w proc ptr old new).0, new)
grt_cas-once grt_id other w proc ptr old new new' small os ns ns' now ne =
    let w' = set_word w proc ptr new in
    let now' : w' proc ptr ≡ new = rw (==_refl proc, ==_refl ptr) in
    let first =
      grt_cas-anywhere grt_id w proc ptr small old new os ns (rw now os)
      ∙ cas_local-hit w proc ptr old new now in
    rw first (
      grt_cas-anywhere other w' proc ptr small old new' os ns' (rw now' ns)
      ∙ cas_local-miss w' proc ptr old new' new now' ne)

-- The parts that `grt_distrib_start` and `grt_distrib_range` give the processors follow one another
-- without gap or overlap, from 0 to `n`, and differ in length by at most one.
distrib-covers :
    (num_procs n : ℕ)
    → 0 < num_procs
    → (grt_distrib_start num_procs n 0 ≡ 0)
      × ((p : ℕ)
          → grt_distrib_start num_procs n (p + 1)
            ≡ grt_distrib_start num_procs n p + grt_distrib_range num_procs n p)
      × (grt_distrib_start num_procs n num_procs ≡ n)
      × ((p q : ℕ) → grt_distrib_range num_procs n p ≤ grt_distrib_range num_procs n q + 1)
unfolding grt_distrib_start grt_distrib_range
distrib-covers np n pos = (ground arith, λ p. ground arith, ends, λ p q. ground arith)
  where
    ends : np * (n / np) + min np (n % np) ≡ n
    ends = omega (arith, div-add-mod' n np, mod-lt n pos)
