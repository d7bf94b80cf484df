-- ===== src/Contract/Receipt.antt =====
-- `parseReceiptLogs` and the result of a settlement. A log carries what viem's `decodeEventLog` makes
-- of it under each event's ABI, `none` where it throws.
use settlement_engine.Prelude.{
  ℕ, String, Codes, to_lower_case, Bool, Option, none, some, List, [], ◌∷◌,
}

-- the arguments of the three position events, and of `CollateralFlagSet`
pub record BondTokenArgs : Type 0 where
  pub market_id : String
  pub bond_token : String
  pub loan_token : String
  pub maturity : ℕ
  pub name : String
  pub symbol : String

pub record LendArgs : Type 0 where
  pub market_id : String
  pub lender : String
  pub bond_token : String
  pub cbt_amount : ℕ
  pub principal : ℕ
  pub rate : ℕ

pub record BorrowArgs : Type 0 where
  pub market_id : String
  pub borrower : String
  pub principal : ℕ
  pub debt : ℕ
  pub rate : ℕ

pub record FlagArgs : Type 0 where
  pub user : String
  pub asset : String

pub record ReceiptLog : Type 0 where
  pub log_index : Option ℕ
  pub bond_token_created : Option BondTokenArgs
  pub lend_position_created : Option LendArgs
  pub borrow_position_created : Option BorrowArgs
  pub collateral_flag_set : Option FlagArgs

pub record ParsedBondToken : Type 0 where
  pub market_id : String
  pub bond_token : Codes
  pub loan_token : Codes
  pub maturity : ℕ
  pub name : String
  pub symbol : String
  pub log_index : ℕ

pub record ParsedLendPosition : Type 0 where
  pub market_id : String
  pub lender : Codes
  pub bond_token : Codes
  pub cbt_amount : ℕ
  pub principal : ℕ
  pub rate : ℕ
  pub log_index : ℕ

pub record ParsedBorrowPosition : Type 0 where
  pub market_id : String
  pub borrower : Codes
  pub principal : ℕ
  pub debt : ℕ
  pub rate : ℕ
  pub log_index : ℕ

pub record ParsedLogs : Type 0 where
  pub bond_token_events : List ParsedBondToken
  pub lend_position_events : List ParsedLendPosition
  pub borrow_position_events : List ParsedBorrowPosition

abbrev push_bond : ℕ → Option BondTokenArgs → List ParsedBondToken → List ParsedBondToken
push_bond i none rest = rest
push_bond i (some a) rest =
    record {
      market_id = a.market_id;
      bond_token = to_lower_case a.bond_token;
      loan_token = to_lower_case a.loan_token;
      maturity = a.maturity;
      name = a.name;
      symbol = a.symbol;
      log_index = i;
    }
    ∷ rest

abbrev push_lend : ℕ → Option LendArgs → List ParsedLendPosition → List ParsedLendPosition
push_lend i none rest = rest
push_lend i (some a) rest =
    record {
      market_id = a.market_id;
      lender = to_lower_case a.lender;
      bond_token = to_lower_case a.bond_token;
      cbt_amount = a.cbt_amount;
      principal = a.principal;
      rate = a.rate;
      log_index = i;
    }
    ∷ rest

abbrev push_borrow : ℕ → Option BorrowArgs → List ParsedBorrowPosition → List ParsedBorrowPosition
push_borrow i none rest = rest
push_borrow i (some a) rest =
    record {
      market_id = a.market_id;
      borrower = to_lower_case a.borrower;
      principal = a.principal;
      debt = a.debt;
      rate = a.rate;
      log_index = i;
    }
    ∷ rest

abbrev push_log : ReceiptLog → ParsedLogs → ParsedLogs
push_log l rest = elim l.log_index [
  | none ↦ rest
  | some i ↦ record {
    bond_token_events = push_bond i l.bond_token_created rest.bond_token_events;
    lend_position_events = push_lend i l.lend_position_created rest.lend_position_events;
    borrow_position_events = push_borrow i l.borrow_position_created rest.borrow_position_events;
  }
]

-- the events in the order of the logs; a log with no index is skipped
unfoldable pub parse_receipt_logs : List ReceiptLog → ParsedLogs
parse_receipt_logs [] = record {
  bond_token_events = [];
  lend_position_events = [];
  borrow_position_events = [];
}
parse_receipt_logs (l ∷ rest) = push_log l (parse_receipt_logs rest)

pub record TransactionReceipt : Type 0 where
  pub transaction_hash : String
  pub block_hash : String
  pub block_number : ℕ
  pub gas_used : ℕ
  -- `receipt.status` is there and is not `'reverted'`
  pub succeeded : Bool
  pub logs : List ReceiptLog

pub record SettlementResult : Type 0 where
  pub transaction_hash : String
  pub block_hash : String
  pub block_number : ℕ
  pub gas_used : ℕ
  pub timestamp : ℕ
  pub settled_match_ids : List String
  pub events : ParsedLogs
  pub receipt : TransactionReceipt
