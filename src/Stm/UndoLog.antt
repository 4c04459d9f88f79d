-- ===== src/Stm/UndoLog.antt =====
-- Atomicity on one processor without WRITE_BUFFERING: transactions write in place and keep an undo
-- log of each block that they have open for writing.
pub mod View
pub mod Opening
pub mod Opened
pub mod Kept
pub mod Loop
pub mod Transfers
pub mod Isolation
pub mod Ending
pub mod History
