-- ===== src/Stm/WriteBuffer.antt =====
-- The configurations with WRITE_BUFFERING, where memory changes only when a transaction commits.
pub mod Keyed
pub mod View
pub mod Opens
pub mod Ranges
pub mod Writes
pub mod Reads
pub mod Transfers
pub mod Endings
pub mod Abstract
pub mod Kept
pub mod Isolated
pub mod Refinement
