-- ===== src/Database/Failure.antt =====
-- The quarantine of a poison match and the sweeper's remediation, against one description.
use settlement_engine.Prelude.{◌≡◌, refl, String, Bool, true}
use settlement_engine.Exec.{ok}
use settlement_engine.Schemas.{Match}
use settlement_engine.Database.Tables.{Db, is_pending_id, to_failed, restore_order}
use settlement_engine.Database.Connection.{Session}
use settlement_engine.Database.Effect.{
  Does, Does-query, Does-pure, Does-bind, AllOrNothing, with_transaction-AllOrNothing,
  with_transaction-Does, calm,
}
use settlement_engine.Database.OrderFailure.{
  lender_unlock, borrower_unlock, quarantine_body, quarantine_failed_match,
}
use settlement_engine.Database.PendingSweep.{
  StuckMatch, remediate_unsettled_match, sweeper_failure_reason,
}
use settlement_engine.Database.Locks.{unlock_both, Does-ordered}
use settlement_engine.Database.Gate.{gated_effect, Does-gated}

-- both orders lose the match's amount and their side's settlement fee
abbrev pub orders_restored : Match → Db → Db
orders_restored m d =
    restore_order m.borrow_order_id m.matched_amount m.borrower_settlement_fee_amount
      (restore_order m.lend_order_id m.matched_amount m.lender_settlement_fee_amount d)

abbrev pub failure_work : Match → Db → Db
failure_work m d = unlock_both (lender_unlock m) (borrower_unlock m) (orders_restored m d)

-- Where some row of the match is pending: it becomes failed, both orders are restored, and each
-- balance row loses its share.
abbrev pub failed_effect : Match → String → Db → Bool × Db
failed_effect m reason = gated_effect (is_pending_id m.match_id) (to_failed reason) (failure_work m)

pub quarantine-Does :
    (m : Match) (reason : String) → Does (quarantine_body m reason) (failed_effect m reason)
unfolding quarantine_body
quarantine-Does m reason =
    Does-gated (is_pending_id m.match_id) (to_failed reason) (failure_work m) (
      Does-bind (Does-query _) λ _.
        Does-bind (Does-query _)
          λ _. Does-bind (Does-ordered (lender_unlock m) (borrower_unlock m)) λ _. Does-pure true)

-- The quarantine either throws and leaves the database alone, or acts as `failed_effect`; and where no
-- query fails it returns.
pub quarantine_transaction :
    (m : Match) (reason : String) (s : Session)
    → AllOrNothing (failed_effect m reason) s.db (quarantine_failed_match m reason s)
      × (quarantine_failed_match m reason (calm s.db)
          ≡ (ok (failed_effect m reason s.db).0, calm (failed_effect m reason s.db).1))
unfolding quarantine_failed_match
quarantine_transaction m reason s = (
  with_transaction-AllOrNothing (quarantine-Does m reason) s,
  (with_transaction-Does (quarantine-Does m reason)).returns s.db,
)

-- a match as the sweeper's candidate query reads it back; its `created_at` plays no part here
abbrev pub stuck_of : Match → StuckMatch
stuck_of m = record {
  id = m.match_id;
  lend_order_id = m.lend_order_id;
  borrow_order_id = m.borrow_order_id;
  lender_wallet = m.lender_wallet;
  borrower_wallet = m.borrower_wallet;
  loan_token = m.loan_token;
  matched_amount = m.matched_amount;
  lender_settlement_fee = m.lender_settlement_fee_amount;
  borrower_settlement_fee = m.borrower_settlement_fee_amount;
  maker_fee = m.maker_fee_amount;
  taker_fee = m.taker_fee_amount;
  borrower_is_taker = m.borrower_is_taker;
  created_at = 0;
}

-- The sweeper's remediation of a match is its quarantine with the sweeper's reason, query for query:
-- the same result and the same session, whatever fails.
pub remediate-eq-quarantine :
    (m : Match) (s : Session)
    → remediate_unsettled_match (stuck_of m) s ≡ quarantine_failed_match m sweeper_failure_reason s
unfolding quarantine_failed_match remediate_unsettled_match
remediate-eq-quarantine m s = refl
