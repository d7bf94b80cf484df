-- ===== src/Contract.antt =====
-- settlement/smartContract.ts: errors of the contract, what is read from the chain, and the call that
-- settles a batch.
pub mod Errors
pub mod Classification
pub mod Encode
pub mod Receipt
pub mod Settled
pub mod Filter
pub mod Settle
pub mod Outcome
pub mod Clients
