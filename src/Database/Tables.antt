-- ===== src/Database/Tables.antt =====
-- The rows that the SQL of src/settlement/database reads and writes. Time stamps are not kept.
use settlement_engine.Prelude.{
  ℕ, ◌-◌, String, Codes, to_lower_case, codes_eq, str_eq, Bool, true, false, ◌&&◌, Option, some,
  List, drop, leb, update_where, count_where, if◌then◌else◌,
}

pub data SettlementStatus : Type 0 where
  pending settled failed : SettlementStatus

abbrev pub is_pending : SettlementStatus → Bool
is_pending pending = true
is_pending settled = false
is_pending failed = false

pub record MatchRow : Type 0 where
  pub id : String
  pub settlement_status : SettlementStatus
  pub settled_tx_hash : Option String
  pub settlement_failure_reason : Option String

pub data OrderStatus : Type 0 where
  cancelled partially_filled : OrderStatus
  other : String → OrderStatus

pub record OrderRow : Type 0 where
  pub id : String
  pub filled_quantity : ℕ
  pub filled_settlement_fee : ℕ
  pub status : OrderStatus
  pub cancel_reason : Option String

-- BYTEA values are written by their lower-case hex digits.
pub record BalanceRow : Type 0 where
  pub user_address : Codes
  pub asset : Codes
  pub in_orders : ℕ

pub record FlagRow : Type 0 where
  pub user_address : Codes
  pub asset : Codes

pub record Db : Type 0 where
  pub matches : List MatchRow
  pub orders : List OrderRow
  pub user_balance : List BalanceRow
  -- in the order of `created_at`
  pub pending_collateral_flags : List FlagRow

-- `decode(substring(s from 3), 'hex')`, for an address that the schema has accepted
unfoldable pub decode_address : String → Codes
unfolding to_lower_case
decode_address s = drop 2 (to_lower_case s)

-- `WHERE id = $1`
abbrev pub has_id : String → MatchRow → Bool
has_id i r = str_eq r.id i

-- `WHERE id = $1 AND settlement_status = 'PENDING'`
abbrev pub is_pending_id : String → MatchRow → Bool
is_pending_id i r = str_eq r.id i && is_pending r.settlement_status

-- `SET settlement_status = 'SETTLED', settled_tx_hash = $2`
abbrev pub to_settled : String → MatchRow → MatchRow
to_settled tx_hash r = record r { settlement_status = settled; settled_tx_hash = some tx_hash }

-- `SET settlement_status = 'FAILED', settlement_failure_reason = $2`
abbrev pub to_failed : String → MatchRow → MatchRow
to_failed reason r = record r {
  settlement_status = failed;
  settlement_failure_reason = some reason;
}

abbrev pub order_has_id : String → OrderRow → Bool
order_has_id i r = str_eq r.id i

-- The `SET` list of the order restore. Its right sides read the old row. `GREATEST(0, a - b)` is the
-- subtraction of natural numbers.
abbrev pub restored : ℕ → ℕ → OrderRow → OrderRow
restored amount fee r = record r {
  filled_quantity = r.filled_quantity - amount;
  filled_settlement_fee = r.filled_settlement_fee - fee;
  status = if leb r.filled_quantity amount then cancelled else partially_filled;
  cancel_reason =
      if leb r.filled_quantity amount then some "SETTLEMENT_FAILED" else r.cancel_reason;
}

abbrev pub is_balance_of : Codes → Codes → BalanceRow → Bool
is_balance_of user asset r = codes_eq r.user_address user && codes_eq r.asset asset

-- `SET in_orders = GREATEST(in_orders - $n, 0)`
abbrev pub released : ℕ → BalanceRow → BalanceRow
released amount r = record r { in_orders = r.in_orders - amount }

-- The three updates as functions on the database, and the number of rows that the flips report.
abbrev pub flip_settled : String → String → Db → ℕ × Db
flip_settled id tx_hash d = (
  count_where (is_pending_id id) d.matches,
  record d { matches = update_where (is_pending_id id) (to_settled tx_hash) d.matches },
)

abbrev pub flip_failed : String → String → Db → ℕ × Db
flip_failed id reason d = (
  count_where (is_pending_id id) d.matches,
  record d { matches = update_where (is_pending_id id) (to_failed reason) d.matches },
)

abbrev pub restore_order : String → ℕ → ℕ → Db → Db
restore_order id amount fee d = record d {
  orders = update_where (order_has_id id) (restored amount fee) d.orders;
}

abbrev pub release_in_orders : String → String → ℕ → Db → Db
release_in_orders wallet token amount d = record d {
  user_balance =
      update_where (is_balance_of (decode_address wallet) (decode_address token)) (released amount)
        d.user_balance;
}
