-- ===== src/HashmapSwap/Growth.antt =====
-- A new node in its bucket.
use mathlib.Core.Path.{subst}
use cluster_stm.Common.{
  ℕ, ◌≡◌, sym, refl, inl, inr, false, none, some, List, ◌∷◌, ◌==◌, if◌then◌else◌, arith, Bool-cases,
  ==→eq, ==_ne, ==_refl, ==_false→ne,
}
use cluster_stm.Common.Family.{update}
use cluster_stm.HashmapSwap.{Shelf, IsAllocator}
use cluster_stm.HashmapSwap.Chains.{seek}
use cluster_stm.HashmapSwap.Contents.{
  hash, Bucket, content, grown-IsChain, grown-Fits, grown-seek, seek-used,
}

module _ (ts np : ℕ) (s : Shelf) (p key v : ℕ) (here : (hash ts np key).proc ≡ p)
    (st : (b : ℕ) → Bucket ts np s p b) (new_node : List ℕ → ℕ) (al : IsAllocator new_node) where
  abbrev pub home : Bucket ts np s p (hash ts np key).offset
  home = st (hash ts np key).offset

  abbrev pub node : ℕ
  node = new_node s.nodes

  abbrev pub longer : Shelf
  longer = record {
    table = update s.table (hash ts np key).offset node;
    next = update s.next node (s.table (hash ts np key).offset);
    key = update s.key node key;
    val = update s.val node v;
    nodes = node ∷ s.nodes;
  }

  abbrev pub longer_bucket_other :
      (b : ℕ) → ((hash ts np key).offset == b) ≡ false → Bucket ts np longer p b
  longer_bucket_other b ne =
      let bk = st b in
      let new = al.unused s.nodes in
      record {
        chain = bk.chain;
        linked = rw ne (
            grown-IsChain ts np s node (s.table (hash ts np key).offset) key v new
              (update s.table (hash ts np key).offset node) p b (s.table b) bk.chain bk.fits
              bk.linked);
        short = omega (arith, bk.short);
        fits =
            grown-Fits ts np s node (s.table (hash ts np key).offset) key v new
              (update s.table (hash ts np key).offset node) p b bk.chain bk.fits;
      }

  abbrev pub longer_bucket_home : Bucket ts np longer p (hash ts np key).offset
  longer_bucket_home =
      let b = (hash ts np key).offset in
      let new = al.unused s.nodes in
      record {
        chain = node ∷ home.chain;
        linked = (
          rw (==_refl b) refl,
          al.not_null s.nodes,
          rw (==_refl node) (
              grown-IsChain ts np s node (s.table b) key v new (update s.table b node) p b
                (s.table b) home.chain home.fits home.linked),
        );
        short = omega (arith, home.short);
        fits = (
          rw (==_refl node) refl,
          rw (==_refl node) here,
          rw (==_refl node) refl,
          grown-Fits ts np s node (s.table b) key v new (update s.table b node) p b home.chain
              home.fits,
        );
      }

  pub longer_bucket : (b : ℕ) → Bucket ts np longer p b
  longer_bucket b = elim (Bool-cases ((hash ts np key).offset == b)) [
    | inl e ↦ subst (Bucket ts np longer p) (==→eq _ b e) longer_bucket_home
    | inr ne ↦ longer_bucket_other b ne
  ]

  -- What the nodes that were there before hold.
  old_content :
      (b k : ℕ)
      → (if seek s.key k (st b).chain == 0
          then none
          else some (update s.val node v (seek s.key k (st b).chain)))
        ≡ content ts np (st b) k
  old_content b k =
      let new = al.unused s.nodes in
      elim (Bool-cases (seek s.key k (st b).chain == 0)) [
        | inl gone ↦ rw gone refl
        | inr have ↦
            rw
              (
                have,
                seek-used ts np s node 0 key v new k p b (st b).chain (st b).fits
                    (==_false→ne (seek s.key k (st b).chain) 0 have),
              )
              refl
      ]

  pub longer-other-content :
      (b : ℕ) (ne : ((hash ts np key).offset == b) ≡ false) (k : ℕ)
      → content ts np (longer_bucket_other b ne) k ≡ content ts np (st b) k
  longer-other-content b ne k =
      rw (grown-seek ts np s node 0 key v (al.unused s.nodes) k p b (st b).chain (st b).fits)
        (old_content b k)

  -- Keys are found in the longer bucket as before, but for the new one.
  pub longer-home-content :
      (k : ℕ)
      → content ts np longer_bucket_home k ≡ (if key == k then some v else content ts np home k)
  longer-home-content k = elim (Bool-cases (key == k)) [
    | inl e ↦ rw (sym (==→eq key k e)) (ground (arith, al.not_null s.nodes))
    | inr ne ↦
        let new = al.unused s.nodes in
        let other = ==_ne k key (λ e. ==_false→ne key k ne (sym e)) in
        let same = grown-seek ts np s node 0 key v new k p _ home.chain home.fits in
        rw (ne, ==_refl node, other, same) (old_content (hash ts np key).offset k)
  ]
