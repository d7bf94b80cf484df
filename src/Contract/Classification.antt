-- ===== src/Contract/Classification.antt =====
-- Which errors are retried.
use settlement_engine.Prelude.{
  ◌≡◌, String, Bool, ◌||◌, List, [], ◌∷◌, arith, any, includes, not, ◌&&◌,
}
use settlement_engine.Contract.Errors.{
  Thrown, message_of, ErrorName, already_settled, contract_paused, empty_batch, invalid_match_data,
  unauthorized, invalid_amount, invalid_maturity, insufficient_funds, bond_token_not_found,
  zero_address, enforced_pause, reentrancy_guard_reentrant_call,
  access_control_unauthorized_account, has_error, map_transport_error, map_contract_error,
}

-- the contract's errors that say that the match data cannot settle
abbrev pub permanent : List ErrorName
permanent =
    empty_batch ∷ invalid_match_data ∷ insufficient_funds ∷ invalid_maturity ∷ unauthorized
    ∷ invalid_amount ∷ zero_address ∷ bond_token_not_found ∷ access_control_unauthorized_account
    ∷ []

abbrev pub is_paused : String → Bool
is_paused m = has_error m contract_paused || has_error m enforced_pause

-- the messages that are tried before the one on gas
abbrev pub names_a_nonce : String → Bool
names_a_nonce m =
    includes m "nonce too low"
    || includes m "nonce has already been used"
    || includes m "replacement transaction underpriced"
    || includes m "already known"

-- Whether an error with this message is to be retried.
abbrev pub retried : String → Bool
retried m =
    not (has_error m already_settled)
    && (is_paused m
        || (not (any (has_error m) permanent)
            && (has_error m reentrancy_guard_reentrant_call
                || names_a_nonce m
                || not (includes m "insufficient funds for gas"))))

transport-retries :
    (m : String) (ids : List String)
    → ((map_transport_error m ids).retryable
        ≡ (names_a_nonce m || not (includes m "insufficient funds for gas")))
      × ((map_transport_error m ids).failed_match_ids ≡ ids)
unfolding map_transport_error
transport-retries m ids = ground arith

-- An error is retryable exactly if it names no settled match and either a pause, or no permanent error
-- of the contract together with a reentrancy, a nonce problem or anything but missing gas; and it
-- names the matches of the call.
pub map_contract_error-retries :
    (t : Thrown) (ids : List String)
    → ((map_contract_error t ids).retryable ≡ retried (message_of t))
      × ((map_contract_error t ids).failed_match_ids ≡ ids)
unfolding map_contract_error
map_contract_error-retries t ids = ground (arith, transport-retries (message_of t) ids)
