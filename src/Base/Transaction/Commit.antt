-- ===== src/Base/Transaction/Commit.antt =====
-- What `__stm_commit` leaves in memory.
use cluster_stm.Common.{
  ℕ, ◌≡◌, ◌∙◌, refl, ap, inl, inr, Bool, ◌&&◌, Option, none, some, List, [], ◌∷◌, ◌==◌,
  if◌then◌else◌, arith, Bool-cases, Option-cases,
}
use cluster_stm.Stm.Types.{Status, succeed, fail}
use cluster_stm.Base.Memory.{Store, acquire_local, acquire_with, stm_release, commit_write_local}
use cluster_stm.Base.Transaction.{
  Transaction, World, stm_acquire, acquire_all, any_failed, all_consistent, commit_writes,
  release_all, stm_cleanup, stm_abort, commit_transaction, has_failed, set_status,
}

-- The word at an address of a processor.
abbrev pub word_at : World → (q b : ℕ) → ℕ
word_at w q b = (w.stores q).words b

acquire_local-words : (s : Store) (a b : ℕ) → (acquire_local s a).0.words b ≡ s.words b
unfolding acquire_local acquire_with
acquire_local-words s a b = ground arith

stm_acquire-words : (w : World) (p a q b : ℕ) → word_at (stm_acquire w p a) q b ≡ word_at w q b
unfolding stm_acquire
stm_acquire-words w p a q b = ground (arith, acquire_local-words (w.stores p) a b)

acquire_all-words :
    (es : List (ℕ × ℕ)) (w : World) (q b : ℕ) → word_at (acquire_all w es) q b ≡ word_at w q b
unfolding acquire_all
acquire_all-words [] w q b = refl
acquire_all-words ((p, a) ∷ es) w q b =
    acquire_all-words es (stm_acquire w p a) q b ∙ stm_acquire-words w p a q b

release_all-words :
    (es : List (ℕ × ℕ)) (w : World) (q b : ℕ) → word_at (release_all w es) q b ≡ word_at w q b
unfolding release_all stm_release
release_all-words [] w q b = refl
release_all-words ((p, a) ∷ es) w q b = elim (Bool-cases (has_failed w.tx (p, a))) [
  | inl e ↦ rw e (release_all-words es w q b)
  | inr e ↦ rw e (release_all-words es _ q b ∙ ground arith)
]

stm_abort-words : (w : World) (q b : ℕ) → word_at (stm_abort w) q b ≡ word_at w q b
unfolding stm_abort stm_cleanup
stm_abort-words w q b = release_all-words w.tx.acquired_list w q b

-- The value that the cache has for a word.
abbrev pub cached_value : Transaction → (p a : ℕ) → Option ℕ
cached_value t p a = elim (t.cache p a) [ none ↦ none | some e ↦ some e.value ]

abbrev pub overwrite : Option ℕ → Bool → ℕ → ℕ
overwrite none here old = old
overwrite (some v) here old = if here then v else old

-- The value that a commit of the writes leaves at a word: that of its cache entry if the log of
-- writes has it, and otherwise what was there.
abbrev pub committed : Transaction → List (ℕ × ℕ) → (q b : ℕ) → ℕ → ℕ
committed t [] q b old = old
committed t ((p, a) ∷ es) q b old =
    committed t es q b (overwrite (cached_value t p a) ((p == q) && (a == b)) old)

commit_writes-words :
    (es : List (ℕ × ℕ)) (w : World) (q b : ℕ)
    → word_at (commit_writes w es) q b ≡ committed w.tx es q b (word_at w q b)
unfolding commit_writes commit_write_local
commit_writes-words [] w q b = refl
commit_writes-words ((p, a) ∷ es) w q b = elim (Option-cases (w.tx.cache p a)) [
  | inl e ↦
      rw (commit_writes, e)
        (commit_writes-words es w q b ∙ ap (committed w.tx es q b) (ground arith))
  | inr (entry, e) ↦
      rw (commit_writes, e)
        (commit_writes-words es _ q b ∙ ap (committed w.tx es q b) (ground arith))
]

set_status-value :
    (t : Transaction) (p a : ℕ) (s : Status) (q b : ℕ)
    → cached_value (set_status t p a s) q b ≡ cached_value t q b
set_status-value t p a s q b = ground arith

stm_acquire-value :
    (w : World) (p a q b : ℕ) → cached_value (stm_acquire w p a).tx q b ≡ cached_value w.tx q b
unfolding stm_acquire
stm_acquire-value w p a q b = ground arith

acquire_all-value :
    (es : List (ℕ × ℕ)) (w : World) (q b : ℕ)
    → cached_value (acquire_all w es).tx q b ≡ cached_value w.tx q b
unfolding acquire_all
acquire_all-value [] w q b = refl
acquire_all-value ((p, a) ∷ es) w q b =
    acquire_all-value es (stm_acquire w p a) q b ∙ stm_acquire-value w p a q b

stm_acquire-write_list : (w : World) (p a : ℕ) → (stm_acquire w p a).tx.write_list ≡ w.tx.write_list
unfolding stm_acquire
stm_acquire-write_list w p a = ground arith

acquire_all-write_list :
    (es : List (ℕ × ℕ)) (w : World) → (acquire_all w es).tx.write_list ≡ w.tx.write_list
unfolding acquire_all
acquire_all-write_list [] w = refl
acquire_all-write_list ((p, a) ∷ es) w =
    acquire_all-write_list es (stm_acquire w p a) ∙ stm_acquire-write_list w p a

committed-cong :
    (t t' : Transaction) (es : List (ℕ × ℕ)) (q b old : ℕ)
    → ((p a : ℕ) → cached_value t p a ≡ cached_value t' p a)
    → committed t es q b old ≡ committed t' es q b old
committed-cong t t' [] q b old same = refl
committed-cong t t' ((p, a) ∷ es) q b old same =
    committed-cong t t' es q b _ same
    ∙ ap (λ o. committed t' es q b (overwrite o ((p == q) && (a == b)) old)) (same p a)

-- A commit that fails leaves every word of every processor as it was, and a commit that succeeds
-- leaves the cached value at each word that the transaction wrote and every other word as it was.
pub commit_transaction-words :
    (w : World) (q b : ℕ)
    → word_at (commit_transaction w).0 q b ≡ (elim (commit_transaction w).1 [
      | succeed ↦ committed w.tx w.tx.write_list q b (word_at w q b)
      | fail ↦ word_at w q b
    ])
unfolding commit_transaction stm_cleanup
commit_transaction-words w q b =
    let acquired = acquire_all w w.tx.write_list in
    let kept = acquire_all-words w.tx.write_list w q b in
    elim (Bool-cases (any_failed acquired.tx acquired.tx.acquired_list)) [
      | inl e ↦ rw (commit_transaction, e) (stm_abort-words acquired q b ∙ kept)
      | inr e ↦ elim (Bool-cases (all_consistent acquired acquired.tx.read_list)) [
        | inl e' ↦
            rw (commit_transaction, e, e')
              (commit_writes-words acquired.tx.write_list acquired q b
                ∙ ap (committed acquired.tx acquired.tx.write_list q b) kept
                ∙ ap (λ es. committed acquired.tx es q b (word_at w q b))
                    (acquire_all-write_list w.tx.write_list w)
                ∙ committed-cong acquired.tx w.tx w.tx.write_list q b (word_at w q b)
                    (acquire_all-value w.tx.write_list w))
        | inr e' ↦ rw (commit_transaction, e, e') (stm_abort-words acquired q b ∙ kept)
      ]
    ]
