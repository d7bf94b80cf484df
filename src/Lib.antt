-- ===== src/Lib.antt =====
-- A model of the settlement engine (src/settlement, src/schemas, src/redis), and what makes it
-- correct.
--
-- The engine takes matches from a Redis stream, gathers them to batches, settles a batch on the
-- chain in one transaction under a managed nonce, writes the result to PostgreSQL, and
-- acknowledges the entries. A batch that would revert is searched for the matches that are to
-- blame, which are marked FAILED, with their orders restored and their locks released.
--
-- Shared files. Prelude: names of the libraries, and helpers on tests (Prelude/Tests), lists
-- (Prelude/Lists), texts as code points (Prelude/Text), joined texts (Prelude/Joined), members
-- of the lists that queries build (Prelude/Members) and integers (Prelude/Int). Exec: code that
-- changes a state and may throw; what was written before a throw stays written. Helpers: the
-- back-off delay of src/settlement/helpers.ts, with its ids in Helpers/Uuids. Schemas: `Match`
-- of src/schemas/match.ts and `MatchWithMeta` of src/redis/settlementMatchConsumer.ts.
-- Schemas/Amount has the decimal texts of amounts, with their prints in Amount/RoundTrip;
-- Schemas/Value the values of JavaScript in an entry; Schemas/Validation is `matchSchema`, and
-- its proofs are in Validation/Sound.
--
-- Database (src/settlement/database). Tables has the rows that the SQL touches, and its updates
-- as functions. Connection has a session, the database with the outcome of each query to come,
-- and `withTransaction`, which restores the snapshot where the body throws; Retry is
-- `executeWithRetry`, by recursion on the retries that are left, so without fuel. LockRelease
-- is lock-release.ts, OrderFailure is order-failure.ts, PendingSweep the remediation of
-- pending-settlement-sweep.ts, StuckMatches its query (with the proofs in StuckMatches/Oldest),
-- CollateralFlags is pending-collateral-flags.ts, ApplySettlement is apply-settlement.ts. The
-- proofs: Effect (chains of queries as functions), Gate (updates of pending rows), Locks (what
-- a release takes from a row), Once, Writeback, Failure, Resolution, Conservation, Lifecycle,
-- WritebackBatch and BatchFailure. Refinement sets sequences of resolutions against a machine
-- that knows only the status of each match. Backing sets them against what the pending matches
-- of a book hold, Fills against what its matches fill of the orders, with Book and Live for the
-- sums and the rows.
--
-- Config is src/config.ts, with `buildTransport`; Config/Usable holds the proofs.
--
-- Consumer is the parsing of src/redis/settlementMatchConsumer.ts, and src/redis/deadLetter.ts.
-- The replies of Redis are arguments, with the time at which each entry is parsed.
-- Consumer/Read is `readMatches`; Consumer/Startup is `ensureConsumerGroup` and
-- `processPendingEntriesOnStartup`, whose two loops are one function of fuel, `loop`. Parse
-- (the two forms of an entry), Faults (failing commands), Startup/Loops, Startup/Bounds,
-- Startup/Counting and Startup/Endings hold the proofs.
--
-- Accumulator is src/settlement/batchAccumulator.ts, with the queue's invariant in
-- Accumulator/Queue and the triggers in Accumulator/Triggers. `Date.now()` is an argument.
--
-- Contract is src/settlement/smartContract.ts: Errors (`mapContractError`), Encode
-- (`transformMatchToContractFormat`), Receipt (`parseReceiptLogs`), Settled (the `isSettled`
-- reads), Settle (`settleBatch`) and Clients (the cached clients of the chain). Classification,
-- Filter, Outcome and Clients/Cache hold the proofs.
--
-- Nonce is src/settlement/nonceManager.ts, on the wallet's three keys in Redis, with the
-- manager's own fields; Nonce/Issue and Nonce/Lost hold the proofs. There the tries of a lock
-- are a list of what the key holds, and how the lock lapses in the awaits after is a list too.
-- Nonce/Lease has the lock over time: a clock, the key with its time to
-- live, and all managers of a wallet, each at a phase of its calls, one call at a time.
-- Lease/Runs is the relation of their steps; Secured, Kept, Exclusive, Foreign, Orphan and
-- Expiry hold the proofs. Nonce/Keys has the keys and the settings of a manager. Poison is
-- src/settlement/poisonIsolation.ts, with the verdict in Poison/Verdict. Redis has the commands
-- of a batch and of the consumer, and Redis/Client is src/redis/client.ts. Batch and
-- Batch/Process are src/settlement/processBatch.ts, the steps on database, Redis and wallet
-- together; Batch/Acks shows what a failing batch has acknowledged.
--
-- Sweeper is src/settlement/settlementSweeper.ts: one sweep, with Reads (what the map of the
-- on-chain reads holds), Counters, Spares, Rescue and Overdue; Sweeper/Timer is its `start` and
-- `stop`. Processor is `processBatch` of src/settlement/batchProcessor.ts with
-- src/settlement/helpers.ts: Backoff, Cleanup and Retry hold the proofs. Processor/Polling has
-- its polls, its reclaims, `start` and `stop`, cut at each `await`, and a relation of what may
-- happen next: Spacing, Batches, Overlap and Requeue hold the proofs. There a batch only ends,
-- and `stop` may go on at any time while it waits, so more orders are possible than in the
-- code. The delay is a natural number, for the attempts from 1 on, which are the ones that
-- occur.
--
-- Main is `main` of src/index.ts up to the start of processor and sweeper, with the proofs in
-- Main/Boot. Main/Shutdown is its `shutdown`, each call at a stage that its awaits tell apart;
-- Signals, Closing (what may happen between the steps of one call), Halting, Stages and Drained
-- hold the proofs.
--
-- Tests has sample data and applies the theorems to it.
--
-- Bounds. Amounts are natural numbers, since the schema accepts non-negative decimal strings
-- only; so GREATEST(0, a - b) is subtraction that stops at 0. Nonces are integers, since DECR
-- may go below 0. All loops run over lists, but for retries, which are counted down, and the
-- deletion of entries in chunks of 100: it has as many rounds as there are ids, which is enough
-- since a round takes at least one. The tries of a lock before its deadline are a list of what
-- the key holds at each. The loops over pending entries have fuel: for each, one round more
-- than the cap is enough where every full page holds a match, and no fuel is where Redis hands
-- over no entry that is claimed.
--
-- Not under src/ and so parameters: the chain as viem shows it (dry runs, reads, the sending of
-- a transaction, its receipt and its block), keccak256, and the mutations of the package
-- on-chain-effects; `JSON.parse`, `Number` on a text, and Zod's tests of a UUID and of a URL.
-- Failures of PostgreSQL and of the stream's commands are lists of outcomes to come.
--
-- The status of a Redis client, the order that PostgreSQL gives to rows of one time, SHA-1 and
-- SHA-256, and the account of a private key, which may not exist, are parameters too.
--
-- Not modelled: time stamps of rows but for the age of a match, log output, the metadata of a
-- token (two reads), the timers that fire polls and sweeps (a step may be taken at any time),
-- the bound of the dead-letter stream, which Redis keeps, and the script of
-- scripts/burn-in-apply-settlement.ts, which calls `applySettlementResult` with two of its four
-- arguments and compares rows that the package on-chain-effects writes.
pub mod Prelude
pub mod Exec
pub mod Helpers
pub mod Schemas
pub mod Database
pub mod Accumulator
pub mod Contract
pub mod Nonce
pub mod Poison
pub mod Redis
pub mod Batch
pub mod Config
pub mod Consumer
pub mod Sweeper
pub mod Processor
pub mod Main
pub mod Tests
