-- ===== src/Base/Memory.antt =====
-- What stm_base.c does to the memory of a processor: versions, ownership and committed writes.
pub mod Versions
use cluster_stm.Common.{
  ℕ, ◌+◌, ◌-◌, ◌*◌, ◌/◌, ◌%◌, ◌^◌, Bool, true, false, not, ◌==◌, List, [], ◌∷◌, map, if◌then◌else◌,
}
use cluster_stm.Common.Family.{update}
use cluster_stm.Stm.Types.{Status, succeed, fail}
use cluster_stm.Stm.Meta.{word_mod}

-- The low bit of a version says that a transaction owns the block.
unfoldable pub is_owned : ℕ → Bool
is_owned word = word % 2 == 1

-- `word | 1`
unfoldable pub make_owned : ℕ → ℕ
make_owned word = word + (1 - word % 2)

-- `word & ~1`
unfoldable pub make_unowned : ℕ → ℕ
make_unowned word = word - word % 2

unfoldable pub version_offset : (share_power addr : ℕ) → ℕ
version_offset share_power addr = addr / 2 ^ share_power / 8

unfoldable pub version_addr : (base share_power addr : ℕ) → ℕ
unfolding version_offset
version_addr base share_power addr = base + version_offset share_power addr * 8

-- A processor's words and, apart from them, its versions.
pub record Store : Type 0 where
  pub version_base : ℕ
  pub share_power : ℕ
  pub words : ℕ → ℕ
  pub versions : ℕ → ℕ

abbrev pub version_of : Store → ℕ → ℕ
version_of s addr = s.versions (version_addr s.version_base s.share_power addr)

abbrev pub set_version : Store → ℕ → ℕ → Store
set_version s addr v = record s {
  versions = update s.versions (version_addr s.version_base s.share_power addr) v;
}

-- `open_for_read_handler`: the version, then the value.
unfoldable pub open_for_read_handler : Store → (addr : ℕ) → ℕ × ℕ
open_for_read_handler s addr = (version_of s addr, s.words addr)

-- `acquire_local` from the lock on, with the version that was read before it.
unfoldable pub acquire_with : (old_version : ℕ) → Store → (addr : ℕ) → Store × Status
unfolding is_owned make_owned
acquire_with old_version s addr =
    if is_owned old_version
    then (s, fail)
    else (set_version s addr (make_owned old_version), succeed)

-- `acquire_local`, when nothing comes between its read and its lock.
unfoldable pub acquire_local : Store → (addr : ℕ) → Store × Status
unfolding acquire_with
acquire_local s addr = acquire_with (version_of s addr) s addr

-- `acquire_local` for several requests, each of which has read its version before any takes the
-- lock: their locked parts, one after the other.
unfoldable pub acquire_all : List (ℕ × ℕ) → Store → Store × List Status
unfolding acquire_with
acquire_all [] s = (s, [])
acquire_all ((old_version, addr) ∷ rs) s =
    let (s', status) = acquire_with old_version s addr in
    let (s'', statuses) = acquire_all rs s' in (s'', status ∷ statuses)

-- The versions that `acquire_local` reads before the lock.
abbrev pub read_versions : Store → List ℕ → List (ℕ × ℕ)
read_versions s addrs = map (λ addr. (version_of s addr, addr)) addrs

-- The same requests, when each reads its version and takes the lock before the next one reads.
unfoldable pub acquire_in_turn : List ℕ → Store → Store × List Status
unfolding acquire_local
acquire_in_turn [] s = (s, [])
acquire_in_turn (addr ∷ addrs) s =
    let (s', status) = acquire_local s addr in
    let (s'', statuses) = acquire_in_turn addrs s' in (s'', status ∷ statuses)

-- `stm_release` and `release_handler`
unfoldable pub stm_release : Store → (addr : ℕ) → Store
unfolding make_unowned
stm_release s addr = set_version s addr (make_unowned (version_of s addr))

unfoldable pub commit_write_local : Store → (val addr : ℕ) → Store
unfolding make_unowned
commit_write_local s val addr =
    set_version (record s { words = update s.words addr val }) addr
      (make_unowned ((version_of s addr + 2) % word_mod))
