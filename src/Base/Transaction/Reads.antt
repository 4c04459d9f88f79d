-- ===== src/Base/Transaction/Reads.antt =====
-- What a transaction of stm_base.c reads.
use cluster_stm.Common.{
  ℕ, ◌≡◌, Bool, true, false, ◌&&◌, Option, none, some, ◌==◌, if◌then◌else◌, arith,
}
use cluster_stm.Base.Memory.{is_owned, version_of, open_for_read_handler}
use cluster_stm.Base.Transaction.{
  CacheEntry, World, cached, stm_open_for_read, stm_write, got, conflict, read_cached,
}

-- A read of what was read from memory, while another transaction owned it, is a conflict.
abbrev is_tainted : Option CacheEntry → Bool
is_tainted none = false
is_tainted (some e) = e.read && is_owned e.version

abbrev is_read : Option CacheEntry → Bool
is_read none = true
is_read (some e) = e.read

-- After a write, a read of the same word sees the written value, unless its version was owned when
-- the word was opened for reading, and then it is a conflict. A read of another word is as before.
pub read-write :
    (w : World) (proc val addr q b : ℕ)
    → read_cached (stm_write w proc val addr) q b ≡ (
        if (proc == q) && (addr == b)
        then (if is_tainted (w.tx.cache proc addr) then conflict else got val)
        else read_cached w q b)
unfolding read_cached stm_write
read-write w proc val addr q b = ground arith

-- Opening a word that is not in the cache makes a read of it see what memory holds, unless its
-- version is owned, and then it is a conflict. A word that was opened or written before keeps its
-- value, whatever memory holds.
pub read-open :
    (w : World) (proc addr : ℕ)
    → read_cached (stm_open_for_read w proc addr) proc addr ≡ (
        if cached (w.tx.cache proc addr)
        then read_cached w proc addr
        else (if is_owned (version_of (w.stores proc) addr) && is_read (w.tx.cache proc addr)
            then conflict
            else got ((w.stores proc).words addr)))
unfolding read_cached stm_open_for_read open_for_read_handler
read-open w proc addr = ground arith
