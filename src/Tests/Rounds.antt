-- ===== src/Tests/Rounds.antt =====
-- The theorems on the sweeper and on the batch processor, at sample matches.
use settlement_engine.Database.Retry.{execute_with_retry, GivesUpLate, execute_with_retry-bounded}
use settlement_engine.Prelude.{
  length, ◌≤◌, ◌^◌, ◌≡◌, ◌≢◌, refl, String, false, none, some, List, [], ◌∷◌, keep, ◌*◌, str_eq,
  if◌then◌else◌, All,
}
use settlement_engine.Database.Tables.{pending, has_id}
use settlement_engine.Database.Effect.{calm}
use settlement_engine.Database.Failure.{stuck_of, orders_restored}
use settlement_engine.Database.BatchFailure.{each, unlock_work, marked}
use settlement_engine.Database.PendingSweep.{StuckMatch}
use settlement_engine.Contract.Settled.{CallResult, success, failure}
use settlement_engine.Sweeper.{sweep}
use settlement_engine.Sweeper.Spares.{sweep_spares}
use settlement_engine.Database.Connection.{with_transaction}
use settlement_engine.Database.LockRelease.{apply_match_settlement_writeback}
use settlement_engine.Batch.{payloads}
use settlement_engine.Processor.{BatchProcessor, clean_up, batch_failure_reason}
use settlement_engine.Processor.Cleanup.{removed, clean_up-calm}
use settlement_engine.Tests.Samples.{
  first_match, second_match, first_entry, second_entry, sample_db, faulty,
}
use settlement_engine.Tests.Batches.{world, transient, small}

-- the chain says that `m1` is not settled, and does not answer for `m2`
abbrev reads : String → CallResult
reads i = if str_eq i "m1" then success false else failure

abbrev candidates : List StuckMatch
candidates = stuck_of first_match ∷ stuck_of second_match ∷ []

unread : none ≢ some false
unread e = cc e

sweep_spares_example :
    keep (has_id "m2") (sweep (λ s. s) reads candidates (faulty pending)).1.db.matches
    ≡ keep (has_id "m2") (sample_db pending).matches
sweep_spares_example = sweep_spares (λ s. s) reads candidates (faulty pending) "m2" unread

-- a processor that has failed twice, with two entries in its queue
abbrev processor : BatchProcessor
processor = record {
  accumulator = record small {
    queue = first_entry ∷ second_entry ∷ [];
    seen_ids = "1-0" ∷ "2-0" ∷ [];
  };
  world = world;
  consecutive_failures = 2;
  next_retry_at = 0;
  failure_backoff_base_ms = 1000;
  failure_backoff_max_ms = 60000;
}

clean_up-calm_example :
    let after = clean_up (first_entry ∷ second_entry ∷ []) transient world in
    (after.session
      ≡ calm (
          each orders_restored (payloads (first_entry ∷ second_entry ∷ [])) (
            each
              (marked (batch_failure_reason transient))
              (payloads (first_entry ∷ second_entry ∷ []))
              (each unlock_work (payloads (first_entry ∷ second_entry ∷ [])) (sample_db pending)))))
    × (after.redis ≡ removed (first_entry ∷ second_entry ∷ []) world.redis)
    × (after.nonce_manager ≡ world.nonce_manager)
clean_up-calm_example =
    clean_up-calm (first_entry ∷ second_entry ∷ []) transient world (sample_db pending) refl refl

-- a writeback whose first transaction ends in a deadlock
execute_with_retry-bounded_example :
    let t =
      execute_with_retry
        (with_transaction (apply_match_settlement_writeback first_match "0x01"))
        2
        100
        (faulty pending) in
    (length t.delays ≤ 2) × All (λ d. d ≤ 100 * 2 ^ 2) t.delays × GivesUpLate 2 t
execute_with_retry-bounded_example =
    execute_with_retry-bounded
      (with_transaction (apply_match_settlement_writeback first_match "0x01")) 2 100
      (faulty pending)
