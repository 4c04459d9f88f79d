-- ===== src/Grt/Lock/Waiting.antt =====
-- How many releases it takes until a waiter of a queued lock holds it, when no request comes in
-- between. `lock_local` lets readers join other readers before a writer that waits, and they can
-- keep it waiting.
use mathlib.Core.List.{append_assoc}
use cluster_stm.Common.{◌++◌, ap, sym, ◌∙◌, length-append, eq-or-ne}
use cluster_stm.Common.{
  ℕ, suc, ◌+◌, ◌<◌, ◌≤◌, ◌≡◌, refl, inl, inr, not, ◌||◌, List, [], ◌∷◌, ◌==◌, arith, length,
  Bool-cases, ==_ne,
}
use cluster_stm.Stm.Types.{LockType, read, write, is_write}
use cluster_stm.Grt.Lock.{Lock, Waiter}
use cluster_stm.Grt.Lock.Handoff.{
  Holding, IsServing, joined, left, released, number_of, holding, unlock-first, unlock-none,
  release_one, Turn-IsServing,
}

-- `k` releases by holders, one after the other, with no new request.
pub data Releases (h : Holding) : ℕ → Holding → Type 0 where
  none_yet : Releases h 0 h
  one_more :
      {k : ℕ} {h' : Holding} (t : LockType)
      → Releases h k h'
      → 0 < number_of t h'
      → Releases h (suc k) (released h' t)

abbrev pub waiting : Holding → ℕ
waiting h = length h.lock.waiters.nodes

abbrev pub holders : Holding → ℕ
holders h = h.readers + h.writers

joined-balance :
    (to : LockType) (h : Holding) (k : Lock)
    → waiting (joined to h k) + holders (joined to h k) ≡ length k.waiters.nodes + holders h + 1
joined-balance read h k = omega arith
joined-balance write h k = omega arith

joined-nodes :
    (to : LockType) (h : Holding) (k : Lock) → (joined to h k).lock.waiters.nodes ≡ k.waiters.nodes
joined-nodes read h k = refl
joined-nodes write h k = refl

left-holders : (t : LockType) (h : Holding) → 0 < number_of t h → holders (left t h) + 1 ≡ holders h
left-holders read h k = omega (arith, k)
left-holders write h k = omega (arith, k)

-- A release leaves one holder fewer, or one waiter fewer.
release_balance :
    (n size r w : ℕ) (type : LockType) (nodes next : List Waiter) (t : LockType)
    → 0 < number_of t (holding n size r w type nodes next)
    → IsServing (holding n size r w type nodes next)
    → waiting (released (holding n size r w type nodes next) t)
        + holders (released (holding n size r w type nodes next) t)
        + 1
      ≡ length nodes + (r + w)
release_balance n size r w type [] next t holds s =
    let h = holding n size r w type [] next in
    rw (unlock-none h.lock s.sized) (omega (arith, left-holders t h holds))
release_balance n size r w type (v ∷ vs) next t holds s =
    let h = holding n size r w type (v ∷ vs) next in
    let run = unlock-first h.lock v vs refl (omega (arith, s.sized)) s.addressed.0 in
    elim (Bool-cases (n == 1 || not (is_write v.type))) [
      | inl last ↦
          rw (run, last, ==_ne v.state 0 s.addressed.0)
            (omega (arith, left-holders t h holds, joined-balance v.type (left t h) _))
      | inr more ↦ rw (run, more) (omega (arith, left-holders t h holds))
    ]

-- Only the first waiter can leave the list.
release_front :
    (n size r w : ℕ) (type : LockType) (nodes next : List Waiter) (t : LockType)
    → IsServing (holding n size r w type nodes next)
    → (served : List Waiter) × (nodes
        ≡ served ++ (released (holding n size r w type nodes next) t).lock.waiters.nodes)
release_front n size r w type [] next t s =
    ([], rw (unlock-none (holding n size r w type [] next).lock s.sized) refl)
release_front n size r w type (v ∷ vs) next t s =
    let h = holding n size r w type (v ∷ vs) next in
    let run = unlock-first h.lock v vs refl (omega (arith, s.sized)) s.addressed.0 in
    elim (Bool-cases (n == 1 || not (is_write v.type))) [
      | inl last ↦ (
        v ∷ [],
        rw (run, last, ==_ne v.state 0 s.addressed.0)
            (ap (λ l. v ∷ l) (sym (joined-nodes v.type (left t h) _))),
      )
      | inr more ↦ ([], rw (run, more) refl)
    ]

Releases-IsServing : {h h' : Holding} {k : ℕ} → IsServing h → Releases h k h' → IsServing h'
Releases-IsServing s none_yet = s
Releases-IsServing s (one_more t before holds) =
    Turn-IsServing (Releases-IsServing s before) (release_one t holds)

Releases-balance :
    {h h' : Holding} {k : ℕ}
    → IsServing h
    → Releases h k h'
    → waiting h' + holders h' + k ≡ waiting h + holders h
Releases-balance s none_yet = omega arith
Releases-balance s (one_more {k} {h'} t before holds) =
    let s' = Releases-IsServing s before in
    omega (
      arith,
      Releases-balance s before,
      release_balance h'.lock.num_holders h'.lock.waiters.size h'.readers h'.writers h'.lock.type
          h'.lock.waiters.nodes h'.lock.waiters.next t holds s',
    )

Releases-front :
    {h h' : Holding} {k : ℕ}
    → IsServing h
    → Releases h k h'
    → (served : List Waiter) × (h.lock.waiters.nodes ≡ served ++ h'.lock.waiters.nodes)
Releases-front s none_yet = ([], refl)
Releases-front s (one_more {k} {h'} t before holds) =
    let (served, e) = Releases-front s before in
    let (next, e') =
      release_front h'.lock.num_holders h'.lock.waiters.size h'.readers h'.writers h'.lock.type
        h'.lock.waiters.nodes h'.lock.waiters.next t (Releases-IsServing s before) in
    (served ++ next, e ∙ ap (λ l. served ++ l) e' ∙ sym (append_assoc served next _))

-- While holders release the lock and nobody makes a new request, granted or queued, the waiters are
-- served in their order, and after as many releases as there were holders the first waiter has been
-- served, and one more with each further release. (The counts of the lock are in order, as they are
-- after any requests and releases.)
pub waiters-served :
    {h h' : Holding} {k : ℕ} (i : ℕ)
    → IsServing h
    → Releases h k h'
    → i < length h.lock.waiters.nodes
    → h.readers + h.writers + i ≤ k
    → (served : List Waiter) × (h.lock.waiters.nodes ≡ served ++ h'.lock.waiters.nodes)
      × (i < length served)
waiters-served {h} {h'} i s releases there enough =
    let (served, e) = Releases-front s releases in
    let s' = Releases-IsServing s releases in
    let sum = ap length e ∙ length-append served h'.lock.waiters.nodes in
    (
      served,
      e,
      elim (eq-or-ne h'.lock.num_holders 0) [
        | inl z ↦ omega (arith, ap length (s'.awaited z), sum, there)
        | inr held ↦ omega (arith, Releases-balance s releases, s'.counted, held, sum, enough)
      ],
    )
