-- ===== src/Tests.antt =====
-- Sample data, and the theorems of the library applied to it.
pub mod Samples
pub mod Rows
pub mod Wallet
pub mod Batches
pub mod Rounds
pub mod Entries
pub mod Polls
pub mod Settings
pub mod Leases
pub mod Sweeps
pub mod Endings
pub mod Clients
