-- ===== src/Database/OrderFailure.antt =====
-- settlement/database/order-failure.ts: the clean-up of matches that cannot settle, as a batch in three
-- transactions, and as one transaction for a poison match.
use settlement_engine.Prelude.{
  ℕ, ◌+◌, String, Bool, true, false, List, [], ◌∷◌, update_where, ◌==◌, if◌then◌else◌,
}
use settlement_engine.Exec.{Result, ok, err, pure, ◌>>=◌, ◌>>◌}
use settlement_engine.Schemas.{Match}
use settlement_engine.Database.Tables.{Db, has_id, to_failed, flip_failed, restore_order}
use settlement_engine.Database.Connection.{
  PgError, Session, Pg, query, statement, transaction_body, with_transaction,
}
use settlement_engine.Database.LockRelease.{Release, run_releases, ordered}

abbrev pub poison_failure_reason : String
poison_failure_reason = "POISON_PREFLIGHT_REVERT"

-- The `catch` of the three batch helpers: `ROLLBACK`, log, and return; only `ROLLBACK` itself can throw.
abbrev pub swallow : Db → Result PgError (Unit {0}) × Session → Result PgError (Unit {0}) × Session
swallow snapshot (ok a, s) = (ok tt, s)
swallow snapshot (err e, s) = statement (record s { db = snapshot })

-- `connect`, `BEGIN`, the body, `COMMIT`, under that `catch`
unfoldable pub caught_transaction : Pg (Unit {0}) → Pg (Unit {0})
caught_transaction fn = do statement; λ s. swallow s.db (transaction_body fn s)

abbrev pub lender_unlock : Match → Release
lender_unlock match = record {
  wallet = match.lender_wallet;
  asset = match.loan_token;
  amount =
      match.matched_amount
      + match.lender_settlement_fee_amount
      + (if match.borrower_is_taker then match.maker_fee_amount else match.taker_fee_amount);
}

abbrev pub borrower_unlock : Match → Release
borrower_unlock match = record {
  wallet = match.borrower_wallet;
  asset = match.loan_token;
  amount =
      match.borrower_settlement_fee_amount
      + (if match.borrower_is_taker then match.taker_fee_amount else match.maker_fee_amount);
}

-- `for (const match of matches)`
abbrev pub for_each : (Match → Pg (Unit {0})) → List Match → Pg (Unit {0})
for_each step [] = pure tt
for_each step (match ∷ rest) = step match >> for_each step rest

abbrev pub unlock_match : Match → Pg (Unit {0})
unlock_match match = run_releases (ordered (lender_unlock match) (borrower_unlock match))

unfoldable pub unlock_failed_matches : List Match → Pg (Unit {0})
unfolding caught_transaction
unlock_failed_matches matches = caught_transaction (for_each unlock_match matches)

-- `UPDATE matches SET settlement_status = 'FAILED' ... WHERE id = $1`, whatever the status was
abbrev pub mark_failed : String → String → Db → Db
mark_failed id reason d = record d {
  matches = update_where (has_id id) (to_failed reason) d.matches;
}

abbrev pub record_match : String → Match → Pg (Unit {0})
record_match reason match = query (λ d. (tt, mark_failed match.match_id reason d))

unfoldable pub record_failed_matches : List Match → String → Pg (Unit {0})
unfolding caught_transaction
record_failed_matches matches failure_reason =
    caught_transaction (for_each (record_match failure_reason) matches)

abbrev pub restore_query : String → ℕ → ℕ → Pg (Unit {0})
restore_query id amount fee = query (λ d. (tt, restore_order id amount fee d))

abbrev pub restore_match : Match → Pg (Unit {0})
restore_match match = do
  restore_query match.lend_order_id match.matched_amount match.lender_settlement_fee_amount
  restore_query match.borrow_order_id match.matched_amount match.borrower_settlement_fee_amount

unfoldable pub restore_orders_for_failed_matches : List Match → Pg (Unit {0})
unfolding caught_transaction
restore_orders_for_failed_matches matches = caught_transaction (for_each restore_match matches)

-- the body of the transaction of `quarantineFailedMatch`
unfoldable pub quarantine_body : Match → String → Pg Bool
quarantine_body match failure_reason = do
  row_count ← query (flip_failed match.match_id failure_reason)
  if row_count == 0 then pure false else do
    restore_query match.lend_order_id match.matched_amount match.lender_settlement_fee_amount
    restore_query match.borrow_order_id match.matched_amount match.borrower_settlement_fee_amount
    run_releases (ordered (lender_unlock match) (borrower_unlock match))
    pure true

unfoldable pub quarantine_failed_match : Match → String → Pg Bool
unfolding quarantine_body
quarantine_failed_match match failure_reason =
    with_transaction (quarantine_body match failure_reason)
