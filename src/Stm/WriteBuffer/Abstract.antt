-- ===== src/Stm/WriteBuffer/Abstract.antt =====
-- What a transactional memory promises, with no locks, blocks or buffers: the committed bytes, and
-- for each transaction the bytes that it has put since its start.
use cluster_stm.Common.{
  ℕ, ◌+◌, ◌-◌, ◌<◌, ◌≤◌, ◌≡◌, Option, none, some, ◌==◌, ◌&&◌, leb, ltb, if◌then◌else◌,
}
use cluster_stm.Stm.Types.{ok, Config, Status, succeeded, StmStatus, is_commit}
use cluster_stm.Stm.Node.{Buffer, Libs, Node, share_bytes, read_bytes}
use cluster_stm.Stm.Copy.{get_local, put_local}
use cluster_stm.Stm.Finish.{stm_finish_local}
use cluster_stm.Stm.WriteBuffer.Ranges.{Fits}
use cluster_stm.Stm.WriteBuffer.Reads.{Apart}

pub record Spec : Type 0 where
  pub memory : ℕ → ℕ
  pub pending : (p x : ℕ) → Option ℕ

abbrev pub or_else : Option ℕ → ℕ → ℕ
or_else none v = v
or_else (some w) v = w

-- A transaction sees what it has put, and elsewhere what was committed.
abbrev pub sees : Spec → (p x : ℕ) → ℕ
sees s p x = or_else (s.pending p x) (s.memory x)

unfoldable pub put_by : Spec → (p dest nbytes : ℕ) → Buffer → Spec
put_by s p dest nbytes buf = record s {
  pending = λ q x.
      if (q == p) && (leb dest x && ltb x (dest + nbytes))
      then some (buf (x - dest))
      else s.pending q x;
}

-- A commit makes everything that was put the committed bytes at once; an abort forgets it.
unfoldable pub end_by : Spec → (p : ℕ) → StmStatus → Spec
end_by s p status = record {
  memory = λ x. if is_commit status then sees s p x else s.memory x;
  pending = λ q x. if q == p then none else s.pending q x;
}

-- Any sequence of puts, gets, commits and aborts, and what the promise makes of it. `shared` are the
-- addresses of transactional data: nothing is read into them.
pub data Served {l : Libs} (c : Config) (procs : ℕ) (shared : ℕ → Type 0) (n : Node l)
    : Spec → Node l → Type 0 where
  start : Served c procs shared n (record { memory = n.mem; pending = λ q x. none }) n
  put_step :
      {s : Spec} {m m' : Node l} {status : Status} (fuel p dest src nbytes : ℕ)
      → Served c procs shared n s m
      → p < procs
      → Fits (share_bytes m) dest nbytes
      → put_local c fuel m p dest src nbytes ≡ ok (m', status)
      → Served c procs shared n
          (if succeeded status then put_by s p dest nbytes (read_bytes m.mem src) else s)
          m'
  get_step :
      {s : Spec} {m m' : Node l} {status : Status} (fuel p dest src nbytes : ℕ)
      → Served c procs shared n s m
      → p < procs
      → Fits (share_bytes m) src nbytes
      → Apart dest src nbytes
      → get_local c fuel m p dest src nbytes ≡ ok (m', status)
      → ((x : ℕ) → shared x → dest ≤ x → x < dest + nbytes → ⊥)
      → Served c procs shared n s m'
  end_step :
      {s : Spec} {m : Node l} (p : ℕ) (status : StmStatus)
      → Served c procs shared n s m
      → p < procs
      → Served c procs shared n (end_by s p status) (stm_finish_local c m p status).0
