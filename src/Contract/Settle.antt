-- ===== src/Contract/Settle.antt =====
-- `settleBatch`: one transaction for the batch under a managed nonce.
use settlement_engine.Prelude.{ℕ, ◌*◌, String, true, false, List, [], ◌∷◌, map, if◌then◌else◌}
use settlement_engine.Prelude.Int.{ℤ}
use settlement_engine.Exec.{Result, ok, err, pure, throw, ◌>>=◌, ◌>>◌}
use settlement_engine.Schemas.{Match}
use settlement_engine.Contract.Errors.{Thrown, plain, settlement_error, map_contract_error}
use settlement_engine.Contract.Encode.{MatchData, CollateralMap, transform_match_to_contract_format}
use settlement_engine.Contract.Receipt.{TransactionReceipt, SettlementResult, parse_receipt_logs}
use settlement_engine.Nonce.{
  NonceManager, Managed, elapse_from, elapse, acquire_nonce, confirm_nonce, on_tx_confirmed,
  handle_failure,
}

-- The chain during one call: viem's clients, and the id that the lock is asked for under.
pub record Chain : Type 0 where
  pub uuid_to_bytes32 : String → String
  pub write_contract : List MatchData → ℤ → Result Thrown String
  pub wait_for_transaction_receipt : String → Result Thrown TransactionReceipt
  pub get_block_timestamp : ℕ → Result Thrown ℕ
  pub lock_id : String

abbrev pub answer : {A : Type 0} → Result Thrown A → Managed A
answer r n = (r, n)

abbrev pub ids_of : List Match → List String
ids_of = map (λ m. m.match_id)

abbrev pub reverted_error : List Match → Thrown
reverted_error matches =
    plain (settlement_error "Transaction reverted" "TRANSACTION_REVERTED" true (ids_of matches))

abbrev pub result_of : List Match → TransactionReceipt → ℕ → SettlementResult
result_of matches receipt block_timestamp = record {
  transaction_hash = receipt.transaction_hash;
  block_hash = receipt.block_hash;
  block_number = receipt.block_number;
  gas_used = receipt.gas_used;
  timestamp = block_timestamp * 1000;
  settled_match_ids = ids_of matches;
  events = parse_receipt_logs receipt.logs;
  receipt = receipt;
}

module _ (chain : Chain) where
  -- after the receipt: the block of a transaction that has not reverted
  abbrev pub finish : List Match → TransactionReceipt → Managed SettlementResult
  finish matches receipt =
      if receipt.succeeded
      then (do
        timestamp ← answer (chain.get_block_timestamp receipt.block_number)
        pure (result_of matches receipt timestamp))
      else throw (reverted_error matches)

  -- the `try`
  unfoldable pub submit : List Match → CollateralMap → Managed SettlementResult
  unfolding elapse_from
  submit matches collateral = do
    nonce ← acquire_nonce chain.lock_id
    hash ← answer (
        chain.write_contract
          (map (transform_match_to_contract_format chain.uuid_to_bytes32 collateral) matches) nonce)
    elapse
    confirm_nonce hash
    receipt ← answer (chain.wait_for_transaction_receipt hash)
    elapse
    on_tx_confirmed
    finish matches receipt

  -- the `catch`
  abbrev pub recover :
      List Match
      → Result Thrown SettlementResult × NonceManager
      → Result Thrown SettlementResult × NonceManager
  recover matches (ok r, n) = (ok r, n)
  recover matches (err e, n) =
      (do handle_failure e; throw (plain (map_contract_error e (ids_of matches)))) n

  unfoldable pub settle_batch : List Match → CollateralMap → Managed SettlementResult
  unfolding submit
  settle_batch [] collateral n =
      (err (plain (settlement_error "Cannot settle empty batch" "EMPTY_BATCH" false [])), n)
  settle_batch (m ∷ rest) collateral n = recover (m ∷ rest) (submit (m ∷ rest) collateral n)
