-- ===== src/Schemas.antt =====
-- schemas/match.ts and the stream entry of redis/settlementMatchConsumer.ts: a validated match, with
-- its amounts and fees (decimal strings in the source) as the numbers that they denote.
pub mod Amount
pub mod Value
pub mod Validation
use settlement_engine.Prelude.{ℕ, Bool, String}

pub record Match : Type 0 where
  pub match_id : String
  pub market_id : String
  pub lend_order_id : String
  pub borrow_order_id : String
  pub lender_wallet : String
  pub borrower_wallet : String
  pub matched_amount : ℕ
  pub rate : ℕ
  pub loan_token : String
  pub maturity : ℕ
  pub timestamp : ℕ
  pub borrower_is_taker : Bool
  pub maker_fee_amount : ℕ
  pub taker_fee_amount : ℕ
  pub lender_settlement_fee_amount : ℕ
  pub borrower_settlement_fee_amount : ℕ

pub record MatchWithMeta : Type 0 where
  pub id : String
  pub stream : String
  pub payload : Match
