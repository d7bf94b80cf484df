-- ===== src/Tests/Rows.antt =====
-- The theorems on the database, at the sample rows.
use settlement_engine.Prelude.{
  ◌≡◌, ◌≢◌, refl, ◌⊎◌, codes_lt, to_lower_case, codes_eq, true, [], ◌∷◌, map, ◌+◌, arith,
}
use settlement_engine.Exec.{ok}
use settlement_engine.Database.Tables.{pending, decode_address}
use settlement_engine.Database.Connection.{with_transaction, Session}
use settlement_engine.Database.Effect.{calm, AllOrNothing}
use settlement_engine.Database.LockRelease.{apply_match_settlement_writeback}
use settlement_engine.Database.OrderFailure.{
  lender_unlock, borrower_unlock, unlock_failed_matches, record_failed_matches,
  restore_orders_for_failed_matches, quarantine_failed_match,
}
use settlement_engine.Database.Writeback.{settled_effect, writeback_transaction}
use settlement_engine.Database.Failure.{orders_restored}
use settlement_engine.Database.Resolution.{
  write_back, quarantine, remediate, resolve, resolve_exactly_once,
}
use settlement_engine.Database.Locks.{unlocked}
use settlement_engine.Database.Conservation.{total_in_orders, total_held, resolve_releases_held}
use settlement_engine.Database.BatchFailure.{each, unlock_work, marked, batch_cleanup_atomic}
use settlement_engine.Tests.Samples.{first_match, sample_db, faulty, calm_session, balance_rows}

writeback_transaction_example :
    AllOrNothing
      (settled_effect first_match "0x01")
      (sample_db pending)
      (with_transaction (apply_match_settlement_writeback first_match "0x01") (faulty pending))
    × (with_transaction
          (apply_match_settlement_writeback first_match "0x01")
          (calm (sample_db pending))
        ≡ (
          ok (settled_effect first_match "0x01" (sample_db pending)).0,
          calm (settled_effect first_match "0x01" (sample_db pending)).1,
        ))
writeback_transaction_example = writeback_transaction first_match "0x01" (faulty pending)

abbrev settled_once : Session
settled_once = (resolve (write_back "0x01") first_match (calm_session pending)).1

resolve_exactly_once_example :
    ((resolve remediate first_match settled_once).0 ≢ ok true)
    × ((resolve remediate first_match settled_once).1.db ≡ settled_once.db)
unfolding with_transaction apply_match_settlement_writeback codes_lt to_lower_case
resolve_exactly_once_example =
    resolve_exactly_once (write_back "0x01") remediate first_match (calm_session pending)
      settled_once refl refl

resolve_releases_held_example :
    ((resolve (quarantine "POISON") first_match (calm_session pending)).1.db.user_balance
      ≡ map (unlocked (lender_unlock first_match) (borrower_unlock first_match)) balance_rows)
    × (total_in_orders balance_rows
        ≡ total_in_orders
            (resolve (quarantine "POISON") first_match (calm_session pending)).1.db.user_balance
          + total_held first_match balance_rows)
unfolding quarantine_failed_match with_transaction codes_lt to_lower_case codes_eq decode_address
resolve_releases_held_example =
    resolve_releases_held (quarantine "POISON") first_match (calm_session pending) refl
      (ground arith, (ground arith, tt))

batch_cleanup_atomic_example :
    ((unlock_failed_matches (first_match ∷ []) (faulty pending)).1.db
        ≡ each unlock_work (first_match ∷ []) (sample_db pending)
      ⊎ (unlock_failed_matches (first_match ∷ []) (faulty pending)).1.db ≡ sample_db pending)
    × ((record_failed_matches (first_match ∷ []) "REVERT" (faulty pending)).1.db
          ≡ each (marked "REVERT") (first_match ∷ []) (sample_db pending)
        ⊎ (record_failed_matches (first_match ∷ []) "REVERT" (faulty pending)).1.db
          ≡ sample_db pending)
    × ((restore_orders_for_failed_matches (first_match ∷ []) (faulty pending)).1.db
          ≡ each orders_restored (first_match ∷ []) (sample_db pending)
        ⊎ (restore_orders_for_failed_matches (first_match ∷ []) (faulty pending)).1.db
          ≡ sample_db pending)
batch_cleanup_atomic_example = batch_cleanup_atomic (first_match ∷ []) "REVERT" (faulty pending)
