-- ===== src/Stm.antt =====
-- The distributed STM of Implementation/stm/stm-distrib.c and stm-distrib.h.
pub mod Types
pub mod Hashmap
pub mod Meta
pub mod Node
pub mod Open
pub mod Copy
pub mod WriteBuffer
pub mod Finish
pub mod Locking
pub mod UndoLog
pub mod Cluster
pub mod Alloc
