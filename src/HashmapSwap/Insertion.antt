-- ===== src/HashmapSwap/Insertion.antt =====
-- `insert_local` and `find_local` on one processor's buckets.
use cluster_stm.Common.{
  ◌∙◌, ℕ, ◌≡◌, ◌≢◌, sym, ap, refl, inl, inr, some, List, [], ◌∷◌, ◌==◌, if◌then◌else◌, arith,
  Bool-cases, ==→eq, ==_ne, ==_false→ne,
}
use cluster_stm.Common.Family.{update}
use cluster_stm.Stm.Types.{ok}
use cluster_stm.HashmapSwap.{Shelf, find_node, rounds, find_local}
use cluster_stm.HashmapSwap.Chains.{IsChain, seek, find_node-seek}
use cluster_stm.HashmapSwap.Contents.{hash, Fits, Bucket, content, seek-key}

module _ (ts np : ℕ) where
  pub find_node-chain :
      (s : Shelf) (p b key : ℕ) (bk : Bucket ts np s p b)
      → find_node (rounds s) s key (s.table b) ≡ ok (seek s.key key bk.chain)
  find_node-chain s p b key bk =
      find_node-seek (rounds s) s key (s.table b) bk.chain bk.linked (omega (arith, bk.short))

  pub find_local-content :
      (s : Shelf) (p b key : ℕ) (bk : Bucket ts np s p b)
      → b ≡ (hash ts np key).offset
      → find_local ts np s key ≡ ok (content ts np bk key)
  unfolding find_local
  find_local-content s p b key bk e = rw (find_local, sym e, find_node-chain s p b key bk) refl

  -- A write to the value of one node.
  module _ (s : Shelf) (p q v : ℕ) where
    abbrev pub revalued : Shelf
    revalued = record s { val = update s.val q v }

    pub revalued-IsChain : (r : ℕ) (xs : List ℕ) → IsChain s r xs → IsChain revalued r xs
    revalued-IsChain r [] c = c
    revalued-IsChain r (x ∷ xs) (here, nn, c) = (here, nn, revalued-IsChain (s.next x) xs c)

    pub revalued-Fits : (b : ℕ) (xs : List ℕ) → Fits ts np s p b xs → Fits ts np revalued p b xs
    revalued-Fits b [] f = tt
    revalued-Fits b (x ∷ xs) (used, at_p, at_b, f) = (used, at_p, at_b, revalued-Fits b xs f)

    abbrev pub revalued_bucket : (b : ℕ) → Bucket ts np s p b → Bucket ts np revalued p b
    revalued_bucket b bk = record {
      chain = bk.chain;
      linked = revalued-IsChain (s.table b) bk.chain bk.linked;
      short = bk.short;
      fits = revalued-Fits b bk.chain bk.fits;
    }

  module _ (s : Shelf) (p key v : ℕ) (here : (hash ts np key).proc ≡ p)
      (st : (b : ℕ) → Bucket ts np s p b) where
    abbrev pub home : Bucket ts np s p (hash ts np key).offset
    home = st (hash ts np key).offset

    abbrev pub old_node : ℕ
    old_node = seek s.key key home.chain

    -- Afterwards the key has the value, and every other key what it had.
    abbrev pub Maps : {s' : Shelf} → ((b : ℕ) → Bucket ts np s' p b) → Type 0
    Maps st' =
        (k : ℕ)
        → (hash ts np k).proc ≡ p
        → content ts np (st' (hash ts np k).offset) k
          ≡ (if key == k then some v else content ts np (st (hash ts np k).offset) k)

    pub revalued-Maps : old_node ≢ 0 → Maps (λ b. revalued_bucket s p old_node v b (st b))
    revalued-Maps found k there = elim (Bool-cases (key == k)) [
      | inl e ↦ rw (sym (==→eq key k e)) (ground (arith, found))
      | inr ne ↦ elim (Bool-cases (seek s.key k (st (hash ts np k).offset).chain == 0)) [
        | inl gone ↦ rw (ne, gone) refl
        | inr have ↦
            let mine = seek-key s.key key home.chain found in
            let yours = seek-key s.key k (st (hash ts np k).offset).chain (==_false→ne _ _ have) in
            let apart =
              ==_ne old_node (seek s.key k (st (hash ts np k).offset).chain)
                (λ e. ==_false→ne key k ne (sym mine ∙ ap s.key e ∙ yours)) in
            rw (ne, have, apart) refl
      ]
    ]
