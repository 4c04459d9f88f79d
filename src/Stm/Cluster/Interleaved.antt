-- ===== src/Stm/Cluster/Interleaved.antt =====
-- The calls as sequences of moves.
pub mod Quiet
pub mod Access
pub mod Ends
pub mod Calls
