-- ===== src/Database/ApplySettlement.antt =====
-- settlement/database/apply-settlement.ts: the events of a settlement, written to the database. The
-- mutations of `@centuari-labs/on-chain-effects` are a parameter.
use settlement_engine.Prelude.{
  ℕ, String, Codes, codes_eq, to_lower_case, lower_code, Bool, ◌&&◌, none, some, List, [], ◌∷◌, map,
}
use settlement_engine.Prelude.Text.{codes}
use settlement_engine.Exec.{ok, pure, ◌>>◌}
use settlement_engine.Schemas.{Match}
use settlement_engine.Contract.Receipt.{
  FlagArgs, ReceiptLog, ParsedLendPosition, ParsedBorrowPosition, TransactionReceipt,
  SettlementResult,
}
use settlement_engine.Database.Connection.{Pg, with_transaction}
use settlement_engine.Database.LockRelease.{WritebackResult, writeback_settled_matches}
use settlement_engine.Database.CollateralFlags.{clear_for_event}

pub data PositionTable : Type 0 where
  lend_position borrow_position : PositionTable

-- What a call of `applyOnChainEffect` is told: the signature whose hash is the topic, the log, the arguments
-- that are expected, and the row that carries the stamp, whose key `hexToBytea` turns to bytes. The table
-- also names the mutation.
pub record EffectCall : Type 0 where
  pub event_signature : String
  pub log_index : ℕ
  pub expects : String → String → Bool
  pub table : PositionTable
  pub key : String × Codes

pub record OnChainEffects : Type 0 where
  pub apply_on_chain_effect : TransactionReceipt → EffectCall → Pg (Unit {0})

-- `args.marketId` and the wallet of `args`, each up to the case of its letters
abbrev pub same_position : String → Codes → String → String → Bool
same_position market_id wallet args_market_id args_wallet =
    codes_eq (to_lower_case args_market_id) (to_lower_case market_id)
    && codes_eq (to_lower_case args_wallet) (map lower_code wallet)

unfoldable pub apply_lend_event :
    OnChainEffects → TransactionReceipt → ParsedLendPosition → Pg (Unit {0})
unfolding codes_eq to_lower_case
apply_lend_event effects receipt event = effects.apply_on_chain_effect receipt (record {
  event_signature = "LendPositionCreated(bytes32,address,address,uint256,uint256,uint256)";
  log_index = event.log_index;
  expects = same_position event.market_id event.lender;
  table = lend_position;
  key = (event.market_id, event.lender);
})

unfoldable pub apply_borrow_event :
    OnChainEffects → TransactionReceipt → ParsedBorrowPosition → Pg (Unit {0})
unfolding codes_eq to_lower_case
apply_borrow_event effects receipt event = effects.apply_on_chain_effect receipt (record {
  event_signature = "BorrowPositionCreated(bytes32,address,uint256,uint256,uint256)";
  log_index = event.log_index;
  expects = same_position event.market_id event.borrower;
  table = borrow_position;
  key = (event.market_id, event.borrower);
})

abbrev pub for_events : {E : Type 0} → (E → Pg (Unit {0})) → List E → Pg (Unit {0})
for_events step [] = pure tt
for_events step (e ∷ rest) = step e >> for_events step rest

-- the `CollateralFlagSet` events of the logs, those that do not decode left out
unfoldable pub flag_events : List ReceiptLog → List FlagArgs
flag_events [] = []
flag_events (l ∷ rest) = elim l.collateral_flag_set [
  | none ↦ flag_events rest
  | some e ↦ e ∷ flag_events rest
]

abbrev clear_event : FlagArgs → Pg (Unit {0})
clear_event e = clear_for_event (codes e.user) (codes e.asset)

abbrev clear_events : List FlagArgs → Pg (Unit {0})
clear_events [] = pure tt
clear_events (e ∷ rest) = with_transaction (for_events clear_event (e ∷ rest))

unfoldable pub clear_pending_collateral_flags_from_receipt : TransactionReceipt → Pg (Unit {0})
clear_pending_collateral_flags_from_receipt receipt = clear_events (flag_events receipt.logs)

-- the writeback does not throw
abbrev pub write_back : List Match → SettlementResult → Pg WritebackResult
write_back matches result s =
    let (c, s') =
      writeback_settled_matches matches result.settled_match_ids result.receipt.transaction_hash
        s in
    (ok c, s')

unfoldable pub apply_settlement_result :
    OnChainEffects → SettlementResult → List Match → Pg WritebackResult
unfolding apply_lend_event apply_borrow_event
apply_settlement_result effects result matches = do
  for_events (apply_lend_event effects result.receipt) result.events.lend_position_events
  for_events (apply_borrow_event effects result.receipt) result.events.borrow_position_events
  clear_pending_collateral_flags_from_receipt result.receipt
  write_back matches result
