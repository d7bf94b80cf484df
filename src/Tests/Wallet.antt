-- ===== src/Tests/Wallet.antt =====
-- The theorems on the settlement call and on the nonce manager, at the sample wallet.
use settlement_engine.Prelude.{take, any, ◌≡◌, refl, true, false, none, some, [], ◌∷◌}
use settlement_engine.Prelude.Int.{pos, succ_ℤ}
use settlement_engine.Exec.{ok, err}
use settlement_engine.Contract.Errors.{plain, settlement_error}
use settlement_engine.Contract.Settle.{settle_batch}
use settlement_engine.Contract.Outcome.{
  ready, idle, last_holder, all_held, settle_batch_success, reverted_reuses_nonce,
  unlocked_settle_disturbs_holder,
}
use settlement_engine.Nonce.{NonceManager, acquire_nonce, decr, lasts, expires}
use settlement_engine.Contract.Receipt.{parse_receipt_logs}
use settlement_engine.Nonce.Issue.{is_lapse, Issued, acquire_nonce-issues}
use settlement_engine.Tests.Samples.{first_match, second_match, chain, mined, wallet}

settle_batch_success_example :
    settle_batch (chain true) (first_match ∷ second_match ∷ []) [] (ready (pos 7) [] wallet) ≡ (
      ok (record {
        transaction_hash = "0x01";
        block_hash = "0x02";
        block_number = 8;
        gas_used = 21000;
        timestamp = 1700000;
        settled_match_ids = "m1" ∷ "m2" ∷ [];
        events = parse_receipt_logs [];
        receipt = mined true;
      }),
      idle (some (succ_ℤ (pos 7))) [] wallet,
    )
settle_batch_success_example =
    settle_batch_success (chain true) first_match (second_match ∷ []) [] (pos 7) [] wallet "0x01"
      (mined true) 1700 refl refl refl refl

reverted_reuses_nonce_example :
    settle_batch (chain false) (first_match ∷ []) [] (ready (pos 7) [] wallet) ≡ (
      err (plain (settlement_error "[object Object]" "UNKNOWN_ERROR" true ("m1" ∷ []))),
      idle (some (pos 7)) [] wallet,
    )
reverted_reuses_nonce_example =
    reverted_reuses_nonce (chain false) first_match [] [] (pos 7) [] wallet "0x01" (mined false)
      refl refl refl

unlocked_settle_disturbs_holder_example :
    let start : NonceManager = record wallet {
      lock_id = none;
      tries = all_held ("engine:2" ∷ "engine:2" ∷ []);
    } in
    let after = (settle_batch (chain true) (first_match ∷ []) [] start).1 in
    (after.nonce ≡ decr (some (pos 7)))
    × (after.pending_tx ≡ none)
    × (after.lock ≡ last_holder none ("engine:2" ∷ "engine:2" ∷ []))
unlocked_settle_disturbs_holder_example =
    unlocked_settle_disturbs_holder (chain true) first_match [] [] ("engine:2" ∷ "engine:2" ∷ [])
      wallet

-- a wallet with a pending transaction whose receipt has come, with the lock held at the first try, and whose
-- own key lasts through the first await only
abbrev crashed : NonceManager
crashed = record wallet {
  pending_tx = some "0x01";
  landed = true;
  counts = some 9 ∷ [];
  tries = some "engine:2" ∷ none ∷ [];
  lapses = lasts ∷ expires ∷ [];
}

acquire_nonce-issues_example :
    Issued "engine:1"
      (any is_lapse (take 3 (lasts ∷ expires ∷ [])) ≡ true)
      (pos 9)
      (acquire_nonce "engine:1" crashed).1
unfolding acquire_nonce
acquire_nonce-issues_example = acquire_nonce-issues "engine:1" crashed (pos 9) refl
