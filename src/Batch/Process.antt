-- ===== src/Batch/Process.antt =====
-- `processSettlementBatch`: filter, release, isolate, settle, write back, acknowledge.
use settlement_engine.Prelude.{Option, none, some, List, [], ◌∷◌, if◌then◌else◌}
use settlement_engine.Exec.{Result, ok, err, pure, throw, ◌>>=◌, ◌>>◌}
use settlement_engine.Schemas.{MatchWithMeta}
use settlement_engine.Redis.{xtrim}
use settlement_engine.Contract.Errors.{SettlementError}
use settlement_engine.Contract.Encode.{CollateralMap}
use settlement_engine.Contract.Settled.{FilterAlreadySettledResult, filter_already_settled_matches}
use settlement_engine.Contract.Settle.{settle_batch}
use settlement_engine.Poison.{
  PoisonIsolationResult, simulate_settle_batch, simulate_matches_for_poison,
}
use settlement_engine.Database.LockRelease.{WritebackResult}
use settlement_engine.Database.ApplySettlement.{apply_settlement_result}
use settlement_engine.Batch.{
  Environment, settlement, Step, at_database, at_wallet, at_redis, try_catch,
  ack_and_delete_entries, payloads, release_locks_for_already_settled, quarantine_poison_matches,
  read_collateral, transient_error, survivors_error, wrap_error, wrap_isolation,
}

module _ (env : Environment) where
  -- `if (iso.poison.length > 0) await quarantinePoisonMatches(...)`
  abbrev pub quarantine_if_any : PoisonIsolationResult → Step (Unit {0})
  quarantine_if_any iso = elim iso.poison [
    | [] ↦ pure tt
    | m ∷ rest ↦ quarantine_poison_matches (m ∷ rest) iso.poison_reasons
  ]

  -- the isolation after a batch that would revert by `e`
  abbrev pub isolate_by :
      SettlementError → Result SettlementError PoisonIsolationResult → Step (List MatchWithMeta)
  isolate_by e (err transient) = throw (settlement transient)
  isolate_by e (ok iso) = do
    quarantine_if_any iso
    if iso.survivors_simulate_clean then pure iso.survivors else throw (survivors_error e)

  abbrev pub after_dry_run :
      List MatchWithMeta → CollateralMap → Option SettlementError → Step (List MatchWithMeta)
  after_dry_run unsettled collateral none = pure unsettled
  after_dry_run unsettled collateral (some e) =
      if e.retryable
      then throw (transient_error e)
      else isolate_by e (
          simulate_matches_for_poison env.chain.uuid_to_bytes32 collateral env.simulate_match
            env.simulate_survivors unsettled)

  -- Step 0.75
  unfoldable pub isolate_poison : List MatchWithMeta → CollateralMap → Step (List MatchWithMeta)
  unfolding simulate_settle_batch simulate_matches_for_poison quarantine_poison_matches
  isolate_poison unsettled collateral =
      try_catch
        (after_dry_run unsettled collateral (
          simulate_settle_batch env.chain.uuid_to_bytes32 collateral env.simulate_batch
            (payloads unsettled)))
        wrap_isolation

  -- Step 1 and Step 2
  unfoldable pub settle_and_apply : List MatchWithMeta → CollateralMap → Step WritebackResult
  unfolding settle_batch apply_settlement_result
  settle_and_apply to_settle collateral = do
    result ←
        try_catch (at_wallet (settle_batch env.chain (payloads to_settle) collateral))
          (wrap_error "Smart contract settlement failed: ")
    try_catch (at_database (apply_settlement_result env.effects result (payloads to_settle)))
        (wrap_error "Settlement apply failed: ")

  -- from the isolation to the trim
  abbrev pub finish_batch : List MatchWithMeta → CollateralMap → Step (Unit {0})
  finish_batch [] collateral = pure tt
  finish_batch (m ∷ rest) collateral = do
    settle_and_apply (m ∷ rest) collateral
    at_redis (ack_and_delete_entries (m ∷ rest))
    at_redis xtrim

  abbrev pub process_unsettled : List MatchWithMeta → Step (Unit {0})
  process_unsettled [] = pure tt
  process_unsettled (m ∷ rest) = do
    collateral ← read_collateral (m ∷ rest)
    to_settle ← isolate_poison (m ∷ rest) collateral
    finish_batch to_settle collateral

  -- `if (alreadySettled.length > 0)`
  abbrev pub recover_settled : List MatchWithMeta → Step (Unit {0})
  recover_settled [] = pure tt
  recover_settled (m ∷ rest) = do
    release_locks_for_already_settled (m ∷ rest)
    at_redis (ack_and_delete_entries (m ∷ rest))

  abbrev pub process_filtered : FilterAlreadySettledResult → Step (Unit {0})
  process_filtered split = do
    recover_settled split.already_settled
    process_unsettled split.unsettled

  unfoldable pub process_settlement_batch : List MatchWithMeta → Step (Unit {0})
  unfolding isolate_poison settle_and_apply read_collateral release_locks_for_already_settled
      ack_and_delete_entries filter_already_settled_matches
  process_settlement_batch [] = pure tt
  process_settlement_batch (m ∷ rest) =
      process_filtered
        (filter_already_settled_matches env.chain.uuid_to_bytes32 env.is_settled (m ∷ rest))
