-- ===== src/Contract/Encode.antt =====
-- `transformMatchToContractFormat`: a match as the contract's `MatchData`. The hash is viem's.
use settlement_engine.Prelude.{
  ℕ, String, Codes, to_lower_case, lower_code, codes_eq, Bool, Option, none, some, List, [], ◌∷◌,
  ◌++◌, map, any, if◌then◌else◌,
}
use settlement_engine.Schemas.{Match}

pub record MatchData : Type 0 where
  pub match_id : String
  pub market_id : String
  pub lend_order_id : String
  pub borrow_order_id : String
  pub lender : String
  pub borrower : String
  pub matched_amount : ℕ
  pub rate : ℕ
  pub loan_token : String
  pub maturity : ℕ
  pub timestamp : ℕ
  pub borrower_is_taker : Bool
  pub lender_settlement_fee : ℕ
  pub borrower_settlement_fee : ℕ
  pub maker_fee_amount : ℕ
  pub taker_fee_amount : ℕ
  pub collateral_assets : List Codes

-- `ReadonlyMap<string, readonly Address[]>`, keyed by the lower-case borrower, as code points
abbrev pub CollateralMap : Type 0
CollateralMap = List (Codes × List Codes)

unfoldable pub assets_of : Codes → CollateralMap → Option (List Codes)
assets_of k [] = none
assets_of k ((j, assets) ∷ rest) = if codes_eq j k then some assets else assets_of k rest

-- `Array.from(new Set(...))`, from the elements that are already in the set
unfoldable pub distinct_from : List Codes → List Codes → List Codes
distinct_from seen [] = seen
distinct_from seen (a ∷ rest) =
    distinct_from (if any (codes_eq a) seen then seen else seen ++ a ∷ []) rest

module _ (uuid_to_bytes32 : String → String) where
  unfoldable pub transform_match_to_contract_format : CollateralMap → Match → MatchData
  unfolding assets_of distinct_from
  transform_match_to_contract_format collateral match = record {
    match_id = uuid_to_bytes32 match.match_id;
    market_id = match.market_id;
    lend_order_id = uuid_to_bytes32 match.lend_order_id;
    borrow_order_id = uuid_to_bytes32 match.borrow_order_id;
    lender = match.lender_wallet;
    borrower = match.borrower_wallet;
    matched_amount = match.matched_amount;
    rate = match.rate;
    loan_token = match.loan_token;
    maturity = match.maturity;
    timestamp = match.timestamp;
    borrower_is_taker = match.borrower_is_taker;
    lender_settlement_fee = match.lender_settlement_fee_amount;
    borrower_settlement_fee = match.borrower_settlement_fee_amount;
    maker_fee_amount = match.maker_fee_amount;
    taker_fee_amount = match.taker_fee_amount;
    collateral_assets = elim (assets_of (to_lower_case match.borrower_wallet) collateral) [
      | none ↦ []
      | some queued ↦ distinct_from [] (map (map lower_code) queued)
    ];
  }
