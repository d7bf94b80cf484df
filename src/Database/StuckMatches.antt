-- ===== src/Database/StuckMatches.antt =====
-- `findStuckPendingMatches` of settlement/database/pending-settlement-sweep.ts. Of the tables, the columns
-- that the query reads; `order_by` is the `ORDER BY` of the database, which says nothing of rows of one
-- time.
pub mod Oldest
use mathlib.Core.List.{flat_map}
use settlement_engine.Prelude.{ℕ, ◌+◌, String, Bool, ◌&&◌, List, map, take, keep, str_eq, ltb}
use settlement_engine.Database.Tables.{SettlementStatus, is_pending}
use settlement_engine.Database.PendingSweep.{StuckMatch}

pub record MatchColumns : Type 0 where
  pub id : String
  pub settlement_status : SettlementStatus
  pub created_at : ℕ
  pub lend_order_market_id : String
  pub borrow_order_market_id : String
  pub lender_account_id : String
  pub borrower_account_id : String
  pub asset_id : String
  pub match_amount : ℕ
  pub lender_settlement_fee : ℕ
  pub borrower_settlement_fee : ℕ
  pub maker_fee : ℕ
  pub taker_fee : ℕ
  pub is_borrower_taker : Bool

pub record Account : Type 0 where
  pub id : String
  pub user_wallet : String

pub record Asset : Type 0 where
  pub id : String
  pub token_address : String

pub record Sources : Type 0 where
  pub matches : List MatchColumns
  pub accounts : List Account
  pub assets : List Asset

-- the `SELECT` list, and the row that `map` makes of it
unfoldable pub stuck_match : MatchColumns → Account → Account → Asset → StuckMatch
stuck_match m la ba a = record {
  id = m.id;
  lend_order_id = m.lend_order_market_id;
  borrow_order_id = m.borrow_order_market_id;
  lender_wallet = la.user_wallet;
  borrower_wallet = ba.user_wallet;
  loan_token = a.token_address;
  matched_amount = m.match_amount;
  lender_settlement_fee = m.lender_settlement_fee;
  borrower_settlement_fee = m.borrower_settlement_fee;
  maker_fee = m.maker_fee;
  taker_fee = m.taker_fee;
  borrower_is_taker = m.is_borrower_taker;
  created_at = m.created_at;
}

-- the `WHERE` clause
abbrev pub is_stuck : ℕ → ℕ → MatchColumns → Bool
is_stuck now stuck_threshold_ms m =
    is_pending m.settlement_status && ltb (m.created_at + stuck_threshold_ms) now

-- the three `JOIN`s, for one match
unfoldable pub joined : Sources → MatchColumns → List StuckMatch
unfolding stuck_match
joined t m =
    flat_map
      (λ la.
        flat_map
          (λ ba.
            map (λ a. stuck_match m la ba a)
              (keep (λ (a : Asset). str_eq a.id m.asset_id) t.assets))
          (keep (λ (b : Account). str_eq b.id m.borrower_account_id) t.accounts))
      (keep (λ (l : Account). str_eq l.id m.lender_account_id) t.accounts)

unfoldable pub stuck_rows : ℕ → ℕ → Sources → List StuckMatch
unfolding joined
stuck_rows now stuck_threshold_ms t =
    flat_map (joined t) (keep (is_stuck now stuck_threshold_ms) t.matches)

unfoldable pub find_stuck_pending_matches :
    (List StuckMatch → List StuckMatch) → ℕ → ℕ → ℕ → Sources → List StuckMatch
unfolding stuck_rows
find_stuck_pending_matches order_by now stuck_threshold_ms limit t =
    take limit (order_by (stuck_rows now stuck_threshold_ms t))
