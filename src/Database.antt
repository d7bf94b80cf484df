-- ===== src/Database.antt =====
-- src/settlement/database: the tables, the connection, and the transactions on them.
pub mod Tables
pub mod Connection
pub mod Pool
pub mod Retry
pub mod Effect
pub mod LockRelease
pub mod OrderFailure
pub mod PendingSweep
pub mod StuckMatches
pub mod Locks
pub mod Gate
pub mod Once
pub mod Writeback
pub mod Failure
pub mod Resolution
pub mod WritebackBatch
pub mod Conservation
pub mod Lifecycle
pub mod Refinement
pub mod Book
pub mod Backing
pub mod Live
pub mod Fills
pub mod BatchFailure
pub mod CollateralFlags
pub mod ApplySettlement
