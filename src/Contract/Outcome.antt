-- ===== src/Contract/Outcome.antt =====
-- How a settlement leaves the wallet's keys, by the way it ends.
use settlement_engine.Prelude.{
  ℕ, ◌*◌, ◌≡◌, refl, String, Bool, true, false, Option, none, some, List, [], ◌∷◌, map, includes,
  ◌||◌, inl, inr, Bool-cases, eq_iff, str_eq, or_false,
}
use settlement_engine.Prelude.Int.{ℤ, succ_ℤ, pred-succ}
use settlement_engine.Exec.{Result, ok, err}
use settlement_engine.Schemas.{Match}
use settlement_engine.Contract.Errors.{
  Thrown, error, plain, map_contract_error, settlement_error, map_transport_error, has_error,
}
use settlement_engine.Contract.Encode.{CollateralMap, transform_match_to_contract_format}
use settlement_engine.Contract.Receipt.{TransactionReceipt, parse_receipt_logs}
use settlement_engine.Contract.Settle.{Chain, ids_of, reverted_error, finish, submit, settle_batch}
use settlement_engine.Nonce.{
  NonceManager, decr, acquire_nonce, confirm_nonce, on_tx_confirmed, handle_failure, try_lock,
  nonce_action, set_nonce,
}

-- a wallet whose lock is free and does not lapse, with no transaction pending and `z` as its next nonce
abbrev pub ready : ℤ → List (Option String) → NonceManager → NonceManager
ready z rest n = record n { nonce = some z; pending_tx = none; tries = none ∷ rest; lapses = [] }

-- the same wallet after the lock was given back
abbrev pub idle : Option ℤ → List (Option String) → NonceManager → NonceManager
idle z rest n = record n {
  nonce = z;
  lock = none;
  pending_tx = none;
  lock_id = none;
  heartbeat = false;
  tries = rest;
  lapses = [];
}

-- the wallet while the transaction is under way
abbrev held : String → ℤ → Option String → List (Option String) → NonceManager → NonceManager
held id z pending rest n = record n {
  nonce = some (succ_ℤ z);
  lock = some id;
  pending_tx = pending;
  lock_id = some id;
  heartbeat = true;
  tries = rest;
  lapses = [];
}

acquire-ready :
    (id : String) (z : ℤ) (rest : List (Option String)) (n : NonceManager)
    → acquire_nonce id (ready z rest n) ≡ (ok z, held id z none rest n)
unfolding acquire_nonce
acquire-ready id z rest n = refl

str_eq_refl : (s : String) → str_eq s s ≡ true
str_eq_refl s = (eq_iff s s).1 refl

confirmed-held :
    (id h : String) (z : ℤ) (rest : List (Option String)) (n : NonceManager)
    → on_tx_confirmed (held id z (some h) rest n) ≡ (ok tt, idle (some (succ_ℤ z)) rest n)
unfolding on_tx_confirmed
confirmed-held id h z rest n = rw (str_eq_refl id)

-- the messages by which the manager tells that the nonce may be used up
abbrev pub keeps_nonce : String → Bool
keeps_nonce e =
    (includes e "nonce too low" || includes e "nonce has already been used")
    || includes e "already known"

decrements : (e : String) → keeps_nonce e ≡ false → nonce_action e ≡ set_nonce decr
unfolding nonce_action
decrements e h =
    let (a, b) =
      or_false (includes e "nonce too low" || includes e "nonce has already been used")
        (includes e "already known") h in
    rw (a, b)
      (elim (Bool-cases (includes e "replacement transaction underpriced")) [
        | inl c ↦ rw c
        | inr c ↦ rw c
      ])

module _ (chain : Chain) (m : Match) (ms : List Match) (collateral : CollateralMap) (z : ℤ)
    (rest : List (Option String)) (n : NonceManager) where
  abbrev sent : Result Thrown String
  sent =
      chain.write_contract
        (map (transform_match_to_contract_format chain.uuid_to_bytes32 collateral) (m ∷ ms)) z

  submit-held :
      (h : String) (receipt : TransactionReceipt)
      → sent ≡ ok h
      → chain.wait_for_transaction_receipt h ≡ ok receipt
      → submit chain (m ∷ ms) collateral (ready z rest n)
        ≡ finish chain (m ∷ ms) receipt (idle (some (succ_ℤ z)) rest n)
  unfolding submit confirm_nonce
  submit-held h receipt hs hr =
      rw (acquire-ready chain.lock_id z rest n)
        (rw hs (rw hr (rw (confirmed-held chain.lock_id h z rest n))))

  -- Where the lock is free and does not lapse during the call, and nothing is pending: for a transaction
  -- that is mined and has not reverted, the result has the hashes, the block and the gas of the receipt,
  -- the time of the block in milliseconds, the events of the logs, and as its settled ids the id of every
  -- match of the batch, in order; the stored nonce is one further, nothing is pending and the lock is free.
  pub settle_batch_success :
      (h : String) (receipt : TransactionReceipt) (t : ℕ)
      → sent ≡ ok h
      → chain.wait_for_transaction_receipt h ≡ ok receipt
      → receipt.succeeded ≡ true
      → chain.get_block_timestamp receipt.block_number ≡ ok t
      → settle_batch chain (m ∷ ms) collateral (ready z rest n) ≡ (
        ok (record {
          transaction_hash = receipt.transaction_hash;
          block_hash = receipt.block_hash;
          block_number = receipt.block_number;
          gas_used = receipt.gas_used;
          timestamp = t * 1000;
          settled_match_ids = map (λ x. x.match_id) (m ∷ ms);
          events = parse_receipt_logs receipt.logs;
          receipt = receipt;
        }),
        idle (some (succ_ℤ z)) rest n,
      )
  unfolding settle_batch
  settle_batch_success h receipt t hs hr good ht =
      rw (submit-held h receipt hs hr) (rw good (rw ht))

  failed_idle :
      (k : ℤ)
      → handle_failure (reverted_error (m ∷ ms)) (idle (some (succ_ℤ k)) rest n)
        ≡ (ok tt, idle (some k) rest n)
  unfolding handle_failure nonce_action includes
  failed_idle k = rw (pred-succ k)

  -- Where the lock is free and does not lapse during the call, and nothing is pending: a transaction that is
  -- mined and has reverted has used up its nonce, and the stored nonce is set back to it all the same; the
  -- error that is thrown is UNKNOWN_ERROR, not TRANSACTION_REVERTED.
  pub reverted_reuses_nonce :
      (h : String) (receipt : TransactionReceipt)
      → sent ≡ ok h
      → chain.wait_for_transaction_receipt h ≡ ok receipt
      → receipt.succeeded ≡ false
      → settle_batch chain (m ∷ ms) collateral (ready z rest n) ≡ (
        err (plain (settlement_error "[object Object]" "UNKNOWN_ERROR" true (ids_of (m ∷ ms)))),
        idle (some z) rest n,
      )
  unfolding settle_batch map_contract_error map_transport_error has_error includes
  reverted_reuses_nonce h receipt hs hr bad =
      rw (submit-held h receipt hs hr) (rw bad (rw (failed_idle z)))

  failed_held :
      (e : String)
      → keeps_nonce e ≡ false
      → handle_failure (error e) (held chain.lock_id z none rest n) ≡ (ok tt, idle (some z) rest n)
  unfolding handle_failure
  failed_held e h = rw (decrements e h) (rw (pred-succ z) (rw (str_eq_refl chain.lock_id)))

  -- Where the lock is free and does not lapse during the call: a transaction that could not be
  -- submitted, for a reason other than its nonce, gives the nonce back: the wallet is left as it was, with
  -- the lock free.
  pub unsubmitted_restores_nonce :
      (e : String)
      → sent ≡ err (error e)
      → keeps_nonce e ≡ false
      → settle_batch chain (m ∷ ms) collateral (ready z rest n)
        ≡ (err (plain (map_contract_error (error e) (ids_of (m ∷ ms)))), idle (some z) rest n)
  unfolding settle_batch submit
  unsubmitted_restores_nonce e hs h =
      rw (acquire-ready chain.lock_id z rest n) (rw hs (rw (failed_held e h)))

-- every try finds the lock held
abbrev pub all_held : List String → List (Option String)
all_held [] = []
all_held (o ∷ rest) = some o ∷ all_held rest

-- the key after those tries
abbrev pub last_holder : Option String → List String → Option String
last_holder o [] = o
last_holder o (p ∷ rest) = last_holder (some p) rest

abbrev lock_error : Thrown
lock_error = error "[nonce-manager] Failed to acquire nonce lock within the lock TTL"

locked_out :
    (id : String) (others : List String) (n : NonceManager)
    → try_lock id (all_held others) n
      ≡ (err lock_error, record n { lock = last_holder n.lock others; tries = [] })
unfolding try_lock
locked_out id [] n = refl
locked_out id (o ∷ rest) n = locked_out id rest (record n { lock = some o })

-- A settlement that never gets the lock, because other instances hold it at every try, takes one from
-- the stored nonce and deletes the record of the pending transaction, both of which belong to the
-- holder; the lock itself stays with the holder.
pub unlocked_settle_disturbs_holder :
    (chain : Chain) (m : Match) (ms : List Match) (collateral : CollateralMap)
    (others : List String) (n : NonceManager)
    → let start : NonceManager = record n { lock_id = none; tries = all_held others } in
      let after = (settle_batch chain (m ∷ ms) collateral start).1 in
      (after.nonce ≡ decr n.nonce)
      × (after.pending_tx ≡ none)
      × (after.lock ≡ last_holder n.lock others)
unfolding settle_batch submit acquire_nonce handle_failure nonce_action includes
unlocked_settle_disturbs_holder chain m ms collateral others n =
    let start : NonceManager = record n { lock_id = none; tries = all_held others } in
    rw (locked_out chain.lock_id others start) (refl, refl, refl)
