-- ===== src/Database/LockRelease.antt =====
-- settlement/database/lock-release.ts: the writeback of settled matches. A batch writes each match in
-- a transaction of its own and goes on after one that fails.
use settlement_engine.Prelude.{
  ℕ, ◌+◌, String, to_lower_case, codes_lt, str_eq, Bool, true, false, List, [], ◌∷◌, any, ◌==◌,
  if◌then◌else◌,
}
use settlement_engine.Exec.{Result, ok, err, pure, ◌>>=◌, ◌>>◌}
use settlement_engine.Schemas.{Match}
use settlement_engine.Database.Tables.{flip_settled, release_in_orders}
use settlement_engine.Database.Connection.{PgError, Session, Pg, query, with_transaction}

pub record TradeFees : Type 0 where
  pub lender_trade_fee : ℕ
  pub borrower_trade_fee : ℕ

unfoldable pub split_trade_fees : Match → TradeFees
split_trade_fees match = record {
  lender_trade_fee =
      if match.borrower_is_taker then match.maker_fee_amount else match.taker_fee_amount;
  borrower_trade_fee =
      if match.borrower_is_taker then match.taker_fee_amount else match.maker_fee_amount;
}

-- One `UPDATE user_balance`: the wallet and asset it is keyed by, and the sum of its amounts.
pub record Release : Type 0 where
  pub wallet : String
  pub asset : String
  pub amount : ℕ

abbrev pub run_release : Release → Pg (Unit {0})
run_release r = query (λ d. (tt, release_in_orders r.wallet r.asset r.amount d))

-- `for (const release of ordered) await tx.query(release.sql, release.params)`
abbrev pub run_releases : List Release → Pg (Unit {0})
run_releases [] = pure tt
run_releases (r ∷ rest) = run_release r >> run_releases rest

-- The release of the lower wallet first.
abbrev pub ordered : Release → Release → List Release
ordered lender borrower =
    if codes_lt (to_lower_case lender.wallet) (to_lower_case borrower.wallet)
    then lender ∷ borrower ∷ []
    else borrower ∷ lender ∷ []

abbrev pub lender_release : Match → Release
lender_release match = record {
  wallet = match.lender_wallet;
  asset = match.loan_token;
  amount =
      match.matched_amount
      + match.lender_settlement_fee_amount
      + (split_trade_fees match).lender_trade_fee;
}

abbrev pub borrower_release : Match → Release
borrower_release match = record {
  wallet = match.borrower_wallet;
  asset = match.loan_token;
  amount = match.borrower_settlement_fee_amount + (split_trade_fees match).borrower_trade_fee;
}

unfoldable pub apply_match_settlement_writeback : Match → String → Pg Bool
apply_match_settlement_writeback match tx_hash = do
  row_count ← query (flip_settled match.match_id tx_hash)
  if row_count == 0
      then pure false
      else do run_releases (ordered (lender_release match) (borrower_release match)); pure true

pub record WritebackResult : Type 0 where
  pub settled : ℕ
  pub already_settled : ℕ

-- The counters after one match: a transition, a no-op, or an error that is logged.
abbrev pub tally : Result PgError Bool → WritebackResult → WritebackResult
tally (ok true) c = record c { settled = c.settled + 1 }
tally (ok false) c = record c { already_settled = c.already_settled + 1 }
tally (err e) c = c

-- One round of the loop of `writebackSettledMatches`; `continue` for a match that is not selected.
unfoldable pub writeback_one :
    List String → String → Match → WritebackResult → Session → WritebackResult × Session
writeback_one settled_match_ids tx_hash match c s =
    if any (str_eq match.match_id) settled_match_ids
    then (let (r, s') = with_transaction (apply_match_settlement_writeback match tx_hash) s in
        (tally r c, s'))
    else (c, s)

unfoldable pub writeback_from :
    List String → String → List Match → WritebackResult → Session → WritebackResult × Session
writeback_from ids tx_hash [] c s = (c, s)
writeback_from ids tx_hash (match ∷ rest) c s =
    let (c', s') = writeback_one ids tx_hash match c s in writeback_from ids tx_hash rest c' s'

unfoldable pub writeback_settled_matches :
    List Match → List String → String → Session → WritebackResult × Session
unfolding writeback_from
writeback_settled_matches matches settled_match_ids tx_hash =
    writeback_from settled_match_ids tx_hash matches (record { settled = 0; already_settled = 0 })
