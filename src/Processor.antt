-- ===== src/Processor.antt =====
-- settlement/batchProcessor.ts: one batch from the accumulator, its clean-up where it has failed for good,
-- and the back-off where it is tried again. `now` is `Date.now()` when the batch is taken, `later` when the
-- back-off begins.
pub mod Backoff
pub mod Cleanup
pub mod Retry
pub mod Polling
use settlement_engine.Prelude.{
  ℕ, ◌+◌, ◌-◌, ◌*◌, ◌^◌, min, String, Bool, Option, none, some, List, [], ◌∷◌, map, if◌then◌else◌,
}
use settlement_engine.Helpers.{calculate_backoff_delay}
use settlement_engine.Exec.{Exec, Result, ok, err, pure, ◌>>=◌, ◌>>◌}
use settlement_engine.Schemas.{Match, MatchWithMeta}
use settlement_engine.Redis.{Redis, RedisError, Command, xack, xdel}
use settlement_engine.Database.Connection.{Pg, PgError, Session}
use settlement_engine.Database.OrderFailure.{
  unlock_failed_matches, record_failed_matches, restore_orders_for_failed_matches,
}
use settlement_engine.Accumulator.{BatchAccumulator, get_batch}
use settlement_engine.Batch.{World, Environment, BatchProcessingError, Raised, batch, payloads}
use settlement_engine.Batch.Process.{process_settlement_batch}

pub record BatchProcessor : Type 0 where
  pub accumulator : BatchAccumulator
  pub world : World
  pub consecutive_failures : ℕ
  pub next_retry_at : ℕ
  pub failure_backoff_base_ms : ℕ
  pub failure_backoff_max_ms : ℕ

-- `try { await step } catch (e) { log }` on the database, and on Redis
abbrev pub logged : Pg (Unit {0}) → World → World
logged m w = record w { session = (m w.session).1 }

abbrev pub logged_redis : Command → World → World
logged_redis m w = record w { redis = (m w.redis).1 }

-- `(error.originalError as any)?.code ?? error.message`
abbrev pub batch_failure_reason : BatchProcessingError → String
batch_failure_reason e = elim e.original_code [ none ↦ e.message | some code ↦ code ]

-- acknowledges and deletes entry by entry
unfoldable pub remove_entries : List MatchWithMeta → Command
remove_entries [] = pure tt
remove_entries (m ∷ rest) = xack m.stream m.id >> xdel m.stream (m.id ∷ []) >> remove_entries rest

-- the four steps after a failure that is not retryable
unfoldable pub clean_up : List MatchWithMeta → BatchProcessingError → World → World
unfolding unlock_failed_matches record_failed_matches restore_orders_for_failed_matches
    remove_entries
clean_up matches e w =
    let unlocked = logged (unlock_failed_matches (payloads matches)) w in
    let recorded =
      logged (record_failed_matches (payloads matches) (batch_failure_reason e)) unlocked in
    let restored = logged (restore_orders_for_failed_matches (payloads matches)) recorded in
    logged_redis (remove_entries matches) restored

-- the end of the `catch`
unfoldable pub back_off : ℕ → Raised → BatchProcessor → Result Raised (Unit {0}) × BatchProcessor
unfolding calculate_backoff_delay
back_off later e p =
    let failures = p.consecutive_failures + 1 in
    (
      err e,
      record p {
        consecutive_failures = failures;
        next_retry_at =
            later
            + calculate_backoff_delay failures p.failure_backoff_base_ms p.failure_backoff_max_ms;
      },
    )

-- the `catch`, and the end of the `try`
unfoldable pub conclude_batch :
    ℕ
    → List MatchWithMeta
    → BatchProcessor
    → Result Raised (Unit {0}) × World
    → Result Raised (Unit {0}) × BatchProcessor
unfolding back_off clean_up
conclude_batch later matches p (ok _, w) = (ok tt, record p { world = w; consecutive_failures = 0 })
conclude_batch later matches p (err (batch e), w) =
    if e.retryable
    then back_off later (batch e) (record p { world = w })
    else (ok tt, record p { world = clean_up matches e w; consecutive_failures = 0 })
conclude_batch later matches p (err e, w) = back_off later e (record p { world = w })

abbrev pub process_taken :
    Environment
    → ℕ
    → List MatchWithMeta
    → BatchProcessor
    → Result Raised (Unit {0}) × BatchProcessor
process_taken env later [] p = (ok tt, p)
process_taken env later (m ∷ rest) p =
    conclude_batch later (m ∷ rest) p (process_settlement_batch env (m ∷ rest) p.world)

unfoldable pub process_batch :
    Environment → ℕ → ℕ → BatchProcessor → Result Raised (Unit {0}) × BatchProcessor
unfolding conclude_batch process_settlement_batch get_batch
process_batch env now later p =
    let (matches, accumulator) = get_batch now p.accumulator in
    process_taken env later matches (record p { accumulator = accumulator })
