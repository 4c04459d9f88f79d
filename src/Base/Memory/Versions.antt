-- ===== src/Base/Memory/Versions.antt =====
-- Versions: who can own a block, and what an owner leaves.
use cluster_stm.Common.{
  List, [], ◌∷◌, map, ℕ, ◌+◌, ◌%◌, ◌<◌, ◌≡◌, ◌∙◌, refl, sym, ap, arith, ==_refl,
}
use cluster_stm.Stm.Types.{Status, succeed, fail}
use cluster_stm.Stm.Meta.{word_mod}
use cluster_stm.Base.Memory.{
  Store, is_owned, make_owned, make_unowned, version_addr, version_of, set_version, acquire_with,
  acquire_local, acquire_all, acquire_in_turn, read_versions, stm_release, commit_write_local,
}

version_of-set_version : (s : Store) (addr v : ℕ) → version_of (set_version s addr v) addr ≡ v
version_of-set_version s addr v = rw (==_refl (version_addr s.version_base s.share_power addr))

acquire_local-even :
    (s : Store) (addr : ℕ)
    → version_of s addr % 2 ≡ 0
    → acquire_local s addr ≡ (set_version s addr (version_of s addr + 1), succeed)
unfolding acquire_local acquire_with is_owned make_owned
acquire_local-even s addr even = rw (acquire_local, even)

acquire_local-odd :
    (s : Store) (addr : ℕ) → version_of s addr % 2 ≡ 1 → (acquire_local s addr).1 ≡ fail
unfolding acquire_local acquire_with is_owned make_owned
acquire_local-odd s addr odd = rw (acquire_local, odd)

module _ (s : Store) (addr : ℕ) where
  -- A block whose version is even can be acquired, and then by nobody else; releasing it gives its
  -- version back, and committing a write to it gives the next version, and frees it too.
  pub acquire_local-then :
      (val : ℕ)
      → version_of s addr % 2 ≡ 0
      → version_of s addr + 2 < word_mod
      → ((acquire_local s addr).1 ≡ succeed)
        × ((acquire_local (acquire_local s addr).0 addr).1 ≡ fail)
        × (version_of (stm_release (acquire_local s addr).0 addr) addr ≡ version_of s addr)
        × (version_of (commit_write_local (acquire_local s addr).0 val addr) addr
            ≡ version_of s addr + 2)
  unfolding acquire_local acquire_with is_owned make_owned make_unowned stm_release
      commit_write_local
  acquire_local-then val even small =
      let held = set_version s addr (version_of s addr + 1) in
      let now = version_of-set_version s addr (version_of s addr + 1) in
      rw (acquire_local-even s addr even) (
        refl,
        acquire_local-odd held addr (rw now (omega arith)),
        version_of-set_version held addr (make_unowned (version_of held addr))
            ∙ rw now (omega arith),
        version_of-set_version held addr (make_unowned ((version_of held addr + 2) % word_mod))
            ∙ rw now (omega arith),
      )

  -- While a transaction commits two writes to one block, the block can be acquired by another one
  -- after the first of them.
  commit_write_local-frees :
      (other val : ℕ)
      → version_addr s.version_base s.share_power addr
        ≡ version_addr s.version_base s.share_power other
      → (acquire_local (commit_write_local s val addr) other).1 ≡ succeed
  unfolding acquire_local acquire_with is_owned make_unowned commit_write_local
  commit_write_local-frees other val same =
      ap (λ (r : Store × Status). r.1)
        (acquire_local-even (commit_write_local s val addr) other
          (rw (sym same, ==_refl (version_addr s.version_base s.share_power addr)) (omega arith)))

-- All requests are for words of the block with version address `v`.
abbrev pub AllIn : Store → (v : ℕ) → List ℕ → Type 0
AllIn s v [] = Unit {0}
AllIn s v (addr ∷ addrs) = (version_addr s.version_base s.share_power addr ≡ v) × AllIn s v addrs

-- One answer for each request.
abbrev pub all_of : Status → List ℕ → List Status
all_of status addrs = map (λ addr. status) addrs

-- A request with an even version succeeds, whatever has happened since it read it.
acquire_all-stale :
    (s : Store) (v : ℕ) (addrs : List ℕ) (n : Store)
    → s.versions v % 2 ≡ 0
    → AllIn s v addrs
    → (acquire_all (read_versions s addrs) n).1 ≡ all_of succeed addrs
unfolding acquire_all acquire_with is_owned
acquire_all-stale s v [] n even here = refl
acquire_all-stale s v (addr ∷ addrs) n even (e, here) =
    let mine : version_of s addr % 2 ≡ 0 = ap (λ a. s.versions a % 2) e ∙ even in
    rw mine (ap (λ l. succeed ∷ l) (acquire_all-stale s v addrs _ even here))

acquire_in_turn-owned :
    (s : Store) (v : ℕ) (addrs : List ℕ)
    → s.versions v % 2 ≡ 1
    → AllIn s v addrs
    → acquire_in_turn addrs s ≡ (s, all_of fail addrs)
unfolding acquire_in_turn acquire_local acquire_with is_owned
acquire_in_turn-owned s v [] odd here = refl
acquire_in_turn-owned s v (addr ∷ addrs) odd (e, here) =
    let owned : version_of s addr % 2 ≡ 1 = ap (λ a. s.versions a % 2) e ∙ odd in
    rw owned (
      ap (λ (r : Store × List Status). (r.0, fail ∷ r.1))
        (acquire_in_turn-owned s v addrs odd here))

-- `acquire_local` does not keep one owner for a block. For any requests for words of one block whose
-- version is even: if each reads the version before any takes the lock, all of them succeed. If each
-- takes the lock before the next one reads, the first one succeeds and all others fail.
pub acquire_local-race :
    (s : Store) (v addr : ℕ) (addrs : List ℕ)
    → s.versions v % 2 ≡ 0
    → AllIn s v (addr ∷ addrs)
    → ((acquire_all (read_versions s (addr ∷ addrs)) s).1 ≡ all_of succeed (addr ∷ addrs))
      × ((acquire_in_turn (addr ∷ addrs) s).1 ≡ succeed ∷ all_of fail addrs)
unfolding acquire_in_turn
acquire_local-race s v addr addrs even (e, here) =
    let mine : version_of s addr % 2 ≡ 0 = ap (λ a. s.versions a % 2) e ∙ even in
    let held = set_version s addr (version_of s addr + 1) in
    let odd : held.versions v % 2 ≡ 1 =
      ap (λ a. held.versions a % 2) (sym e)
      ∙ ap (λ w. w % 2) (version_of-set_version s addr (version_of s addr + 1))
      ∙ omega (arith, mine) in
    (
      acquire_all-stale s v (addr ∷ addrs) s even (e, here),
      ap (λ (r : Store × Status). r.1 ∷ (acquire_in_turn addrs r.0).1)
            (acquire_local-even s addr mine)
          ∙ ap (λ (r : Store × List Status). succeed ∷ r.1)
              (acquire_in_turn-owned held v addrs odd here),
    )
