-- ===== src/Database/PendingSweep.antt =====
-- settlement/database/pending-settlement-sweep.ts: a stuck match, and its resolution in one transaction.
use settlement_engine.Prelude.{ℕ, ◌+◌, String, Bool, true, false, ◌==◌, if◌then◌else◌}
use settlement_engine.Exec.{pure, ◌>>=◌, ◌>>◌}
use settlement_engine.Database.Tables.{flip_failed, restore_order}
use settlement_engine.Database.Connection.{Pg, query, with_transaction}
use settlement_engine.Database.LockRelease.{Release, run_releases, ordered}

pub record StuckMatch : Type 0 where
  pub id : String
  pub lend_order_id : String
  pub borrow_order_id : String
  pub lender_wallet : String
  pub borrower_wallet : String
  pub loan_token : String
  pub matched_amount : ℕ
  pub lender_settlement_fee : ℕ
  pub borrower_settlement_fee : ℕ
  pub maker_fee : ℕ
  pub taker_fee : ℕ
  pub borrower_is_taker : Bool
  -- in milliseconds
  pub created_at : ℕ

abbrev pub sweeper_failure_reason : String
sweeper_failure_reason = "SWEEPER_NO_SETTLEMENT"

abbrev pub stuck_lender_unlock : StuckMatch → Release
stuck_lender_unlock match = record {
  wallet = match.lender_wallet;
  asset = match.loan_token;
  amount =
      match.matched_amount
      + match.lender_settlement_fee
      + (if match.borrower_is_taker then match.maker_fee else match.taker_fee);
}

abbrev pub stuck_borrower_unlock : StuckMatch → Release
stuck_borrower_unlock match = record {
  wallet = match.borrower_wallet;
  asset = match.loan_token;
  amount =
      match.borrower_settlement_fee
      + (if match.borrower_is_taker then match.taker_fee else match.maker_fee);
}

unfoldable pub remediate_body : StuckMatch → Pg Bool
remediate_body match = do
  row_count ← query (flip_failed match.id sweeper_failure_reason)
  if row_count == 0 then pure false else do
    query (λ d.
        (tt, restore_order match.lend_order_id match.matched_amount match.lender_settlement_fee d))
    query (λ d. (
      tt,
      restore_order match.borrow_order_id match.matched_amount match.borrower_settlement_fee d,
    ))
    run_releases (ordered (stuck_lender_unlock match) (stuck_borrower_unlock match))
    pure true

unfoldable pub remediate_unsettled_match : StuckMatch → Pg Bool
unfolding remediate_body
remediate_unsettled_match match = with_transaction (remediate_body match)
