-- ===== src/Stm/Node.antt =====
-- The state of one processor: its memory, its metadata words and its transaction descriptors.
use cluster_stm.Common.{ℕ, ◌+◌, ◌-◌, Bool, Option, List, [], ◌&&◌, leb, ltb, if◌then◌else◌}
use cluster_stm.Common.Family.{update}
use cluster_stm.Stm.Types.{LockType}
use cluster_stm.Stm.Hashmap.{Hashmap}
use cluster_stm.Stm.Meta.{meta_addr, share_size_bytes}

-- The contents of a buffer, byte by byte. Nothing reads past the size it was allocated with.
abbrev pub Buffer : Type 0
Buffer = ℕ → ℕ

-- `dataset_entry_t` without `addr`, under which the hash map holds it.
pub record DatasetEntry : Type 0 where
  pub type : LockType
  pub old_version : ℕ
  pub wb_data : Option Buffer
  pub undo_data : Option Buffer
  pub promoted : Bool
  pub acquired : Bool

-- The two uses of libmba's hash map: datasets, and sets of remote processors.
pub record Libs : Type 1 where
  pub datasets : Hashmap DatasetEntry
  pub procs : Hashmap (Unit {0})

-- `tx_dor_t` without `env`: a `longjmp` is a result of the operation that makes it.
pub record TxDor (l : Libs) : Type 0 where
  pub src_proc : ℕ
  pub tx_proc : ℕ
  pub tx_depth : ℕ
  pub dataset : l.datasets.Map
  pub remote_procs : l.procs.Map
  pub allocations : List ℕ
  pub retry_count : ℕ
  pub backoff_time : ℕ

-- The globals of one processor. The metadata words lie above the heap, apart from `mem`.
pub record Node (l : Libs) : Type 0 where
  pub grt_id : ℕ
  pub share_power : ℕ
  pub meta_base : ℕ
  pub mem : ℕ → ℕ
  pub meta : ℕ → ℕ
  pub tx_dors : ℕ → TxDor l
  pub commit_count : ℕ
  pub abort_count : ℕ

-- What `memcpy` reads: the bytes from `src` on.
unfoldable pub read_bytes : (ℕ → ℕ) → ℕ → Buffer
read_bytes mem src i = mem (src + i)

-- `memcpy(dest, buf, nbytes)`
unfoldable pub write_bytes : (ℕ → ℕ) → ℕ → ℕ → Buffer → ℕ → ℕ
write_bytes mem dest nbytes buf a =
    if leb dest a && ltb a (dest + nbytes) then buf (a - dest) else mem a

module _ {l : Libs} where
  -- The metadata word of an address.
  abbrev pub meta_at : Node l → ℕ → ℕ
  meta_at n a = meta_addr n.meta_base n.share_power a

  abbrev pub share_bytes : Node l → ℕ
  share_bytes n = share_size_bytes n.share_power

  unfoldable pub get_tx_dor : Node l → ℕ → TxDor l
  get_tx_dor n p = n.tx_dors p

  -- A write through the pointer `&tx_dors[p]`.
  abbrev pub set_tx_dor : Node l → ℕ → TxDor l → Node l
  set_tx_dor n p d = record n { tx_dors = update n.tx_dors p d }

  abbrev pub set_dataset : Node l → ℕ → l.datasets.Map → Node l
  set_dataset n p m = set_tx_dor n p (record (n.tx_dors p) { dataset = m })

  abbrev pub set_meta : Node l → ℕ → ℕ → Node l
  set_meta n a w = record n { meta = update n.meta a w }

  -- The entry of processor `p` for an address, if its transaction has one here.
  abbrev pub entry_of : Node l → ℕ → ℕ → Option DatasetEntry
  entry_of n p a = l.datasets.get (n.tx_dors p).dataset a

  -- `init_tx_dor`
  unfoldable pub init_tx_dor : ℕ → TxDor l
  init_tx_dor p = record {
    src_proc = p;
    tx_proc = 0;
    tx_depth = 0;
    dataset = l.datasets.init;
    remote_procs = l.procs.init;
    allocations = [];
    retry_count = 0;
    backoff_time = 0;
  }
