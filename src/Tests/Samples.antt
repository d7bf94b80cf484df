-- ===== src/Tests/Samples.antt =====
-- Two matches between two wallets, a database that holds them, and a wallet.
use settlement_engine.Prelude.{String, Bool, true, false, none, some, List, [], ◌∷◌}
use settlement_engine.Prelude.Int.{pos}
use settlement_engine.Exec.{ok}
use settlement_engine.Schemas.{Match, MatchWithMeta}
use settlement_engine.Database.Tables.{
  SettlementStatus, settled, MatchRow, partially_filled, OrderRow, BalanceRow, Db,
}
use settlement_engine.Database.Connection.{PgError, Session}
use settlement_engine.Contract.Receipt.{TransactionReceipt}
use settlement_engine.Contract.Settle.{Chain}
use settlement_engine.Nonce.{NonceManager}

abbrev pub first_match : Match
first_match = record {
  match_id = "m1";
  market_id = "0x77";
  lend_order_id = "l1";
  borrow_order_id = "b1";
  lender_wallet = "0xAA";
  borrower_wallet = "0xbb";
  matched_amount = 100;
  rate = 5;
  loan_token = "0xCC";
  maturity = 9000;
  timestamp = 10;
  borrower_is_taker = true;
  maker_fee_amount = 3;
  taker_fee_amount = 4;
  lender_settlement_fee_amount = 1;
  borrower_settlement_fee_amount = 2;
}

abbrev pub second_match : Match
second_match = record first_match { match_id = "m2"; lend_order_id = "l2"; borrow_order_id = "b2" }

abbrev pub first_entry : MatchWithMeta
first_entry = record { id = "1-0"; stream = "matches"; payload = first_match }

abbrev pub second_entry : MatchWithMeta
second_entry = record { id = "2-0"; stream = "matches"; payload = second_match }

abbrev pub match_row : String → SettlementStatus → MatchRow
match_row i status = record {
  id = i;
  settlement_status = status;
  settled_tx_hash = none;
  settlement_failure_reason = none;
}

abbrev pub order_row : String → OrderRow
order_row i = record {
  id = i;
  filled_quantity = 100;
  filled_settlement_fee = 5;
  status = partially_filled;
  cancel_reason = none;
}

abbrev pub balance_rows : List BalanceRow
balance_rows =
    record { user_address = 97 ∷ 97 ∷ []; asset = 99 ∷ 99 ∷ []; in_orders = 500 }
    ∷ record { user_address = 98 ∷ 98 ∷ []; asset = 99 ∷ 99 ∷ []; in_orders = 50 }
    ∷ []

abbrev pub sample_db : SettlementStatus → Db
sample_db status = record {
  matches = match_row "m1" status ∷ match_row "m2" settled ∷ [];
  orders = order_row "l1" ∷ order_row "b1" ∷ [];
  user_balance = balance_rows;
  pending_collateral_flags = [];
}

abbrev pub deadlock : PgError
deadlock = record { message = some "deadlock detected"; code = some "40P01" }

-- the third statement of the session fails
abbrev pub faulty : SettlementStatus → Session
faulty status = record { db = sample_db status; faults = none ∷ none ∷ some deadlock ∷ [] }

abbrev pub calm_session : SettlementStatus → Session
calm_session status = record { db = sample_db status; faults = [] }

abbrev pub mined : Bool → TransactionReceipt
mined succeeded = record {
  transaction_hash = "0x01";
  block_hash = "0x02";
  block_number = 8;
  gas_used = 21000;
  succeeded = succeeded;
  logs = [];
}

abbrev pub chain : Bool → Chain
chain succeeded = record {
  uuid_to_bytes32 = λ s. s;
  write_contract = λ matches nonce. ok "0x01";
  wait_for_transaction_receipt = λ hash. ok (mined succeeded);
  get_block_timestamp = λ number. ok 1700;
  lock_id = "engine:1";
}

abbrev pub wallet : NonceManager
wallet = record {
  nonce = some (pos 7);
  lock = none;
  pending_tx = none;
  lock_id = none;
  heartbeat = false;
  counts = [];
  tries = none ∷ [];
  landed = false;
  lapses = [];
}
