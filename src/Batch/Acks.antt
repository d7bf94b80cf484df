-- ===== src/Batch/Acks.antt =====
-- Which entries a batch acknowledges when it fails: only those of matches that the chain reports as
-- settled, and of quarantined ones.
pub mod Commands
pub mod Steps
pub mod Failing
