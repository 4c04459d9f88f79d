-- ===== src/Grt.antt =====
-- The runtime of Implementation/grt: lists, hash tables and queued locks.
pub mod List
pub mod Map
pub mod Memory
pub mod Lock
pub mod NewLock
pub mod Alloc
pub mod Random
