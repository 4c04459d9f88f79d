-- ===== src/Stm/Locking.antt =====
-- Visible readers and one writer: the configuration with neither `READ_VERSIONING` nor
-- `LATE_ACQUIRE`, where a metadata word counts the readers of its block or names its writer.
mod Word
mod Addresses
mod Invariant
mod Opening
mod Outcomes
mod Finishing
mod Steps
mod Exclusion
mod Runs
mod Rounds
pub use Word.*
pub use Addresses.*
pub use Invariant.*
pub use Opening.*
pub use Outcomes.*
pub use Finishing.*
pub use Steps.*
pub use Exclusion.*
pub use Runs.*
pub use Rounds.*
