-- ===== src/Contract/Errors.antt =====
-- `SettlementError` and `mapContractError` of settlement/smartContract.ts.
use settlement_engine.Prelude.{
  String, Bool, true, false, ◌||◌, Option, some, List, includes, if◌then◌else◌,
}

pub record SettlementError : Type 0 where
  pub message : String
  pub code : Option String
  pub retryable : Bool
  pub failed_match_ids : List String

-- What can be thrown: an `Error` with its message, or the plain object of a `SettlementError`.
pub data Thrown : Type 0 where
  error : String → Thrown
  plain : SettlementError → Thrown

-- `error instanceof Error ? error.message : String(error)`
abbrev pub message_of : Thrown → String
message_of (error message) = message
message_of (plain e) = "[object Object]"

-- The names of `ERROR_SELECTORS`, and the selector of each.
pub data ErrorName : Type 0 where
  already_settled contract_paused empty_batch invalid_match_data unauthorized : ErrorName
  invalid_amount invalid_maturity insufficient_funds bond_token_not_found : ErrorName
  zero_address enforced_pause reentrancy_guard_reentrant_call : ErrorName
  access_control_unauthorized_account : ErrorName

abbrev pub name_of : ErrorName → String
name_of already_settled = "AlreadySettled"
name_of contract_paused = "ContractPaused"
name_of empty_batch = "EmptyBatch"
name_of invalid_match_data = "InvalidMatchData"
name_of unauthorized = "Unauthorized"
name_of invalid_amount = "InvalidAmount"
name_of invalid_maturity = "InvalidMaturity"
name_of insufficient_funds = "InsufficientFunds"
name_of bond_token_not_found = "BondTokenNotFound"
name_of zero_address = "ZeroAddress"
name_of enforced_pause = "EnforcedPause"
name_of reentrancy_guard_reentrant_call = "ReentrancyGuardReentrantCall"
name_of access_control_unauthorized_account = "AccessControlUnauthorizedAccount"

abbrev pub selector_of : ErrorName → String
selector_of already_settled = "0xb196a44a"
selector_of contract_paused = "0xab35696f"
selector_of empty_batch = "0xc2e5347d"
selector_of invalid_match_data = "0x388cfcc2"
selector_of unauthorized = "0x82b42900"
selector_of invalid_amount = "0x2c5211c6"
selector_of invalid_maturity = "0xc7a682c8"
selector_of insufficient_funds = "0x356680b7"
selector_of bond_token_not_found = "0xca42fe63"
selector_of zero_address = "0xd92e233d"
selector_of enforced_pause = "0xd93c0665"
selector_of reentrancy_guard_reentrant_call = "0x3ee5aeb5"
selector_of access_control_unauthorized_account = "0xe2517d3f"

unfoldable pub has_error : String → ErrorName → Bool
has_error message name = includes message (name_of name) || includes message (selector_of name)

abbrev pub settlement_error : String → String → Bool → List String → SettlementError
settlement_error message code retryable ids = record {
  message = message;
  code = some code;
  retryable = retryable;
  failed_match_ids = ids;
}

-- The tests on nonces, gas and the network, which follow the contract's errors.
unfoldable pub map_transport_error : String → List String → SettlementError
map_transport_error m ids =
    if includes m "nonce too low" || includes m "nonce has already been used"
    then settlement_error (Prim.Native.String.◌++◌ "Nonce too low: " m) "NONCE_TOO_LOW" true ids
    else if includes m "replacement transaction underpriced"
    then settlement_error (Prim.Native.String.◌++◌ "Replacement underpriced: " m)
        "REPLACEMENT_UNDERPRICED" true ids
    else if includes m "already known"
    then settlement_error (Prim.Native.String.◌++◌ "Transaction already known: " m)
        "TX_ALREADY_KNOWN" true ids
    else if includes m "insufficient funds for gas"
    then settlement_error (Prim.Native.String.◌++◌ "Insufficient funds for gas: " m)
        "INSUFFICIENT_GAS" false ids
    else if includes m "network"
        || includes m "timeout"
        || includes m "ECONNREFUSED"
        || includes m "fetch"
    then settlement_error (Prim.Native.String.◌++◌ "Network error: " m) "NETWORK_ERROR" true ids
    else settlement_error m "UNKNOWN_ERROR" true ids

unfoldable pub map_contract_error : Thrown → List String → SettlementError
map_contract_error thrown ids =
    let m = message_of thrown in
    if has_error m already_settled
    then settlement_error "Match already settled" "ALREADY_SETTLED" false ids
    else if has_error m contract_paused || has_error m enforced_pause
    then settlement_error "Contract is paused" "CONTRACT_PAUSED" true ids
    else if has_error m empty_batch
    then settlement_error "Cannot settle empty batch" "EMPTY_BATCH" false ids
    else if has_error m invalid_match_data
    then settlement_error "Invalid match data" "INVALID_MATCH_DATA" false ids
    else if has_error m insufficient_funds
    then settlement_error "Insufficient funds in Treasury" "INSUFFICIENT_FUNDS" false ids
    else if has_error m invalid_maturity
    then settlement_error "Invalid maturity (expired)" "INVALID_MATURITY" false ids
    else if has_error m unauthorized
        || has_error m invalid_amount
        || has_error m zero_address
        || has_error m bond_token_not_found
        || has_error m access_control_unauthorized_account
    then settlement_error m "CONTRACT_ERROR" false ids
    else if has_error m reentrancy_guard_reentrant_call
    then settlement_error "Reentrancy guard triggered" "REENTRANCY" true ids
    else map_transport_error m ids
