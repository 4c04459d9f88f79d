-- ===== src/Base.antt =====
-- The word STM of Implementation/stm/stm_base.c: late acquire, with a version for each block.
pub mod Memory
pub mod Transaction
