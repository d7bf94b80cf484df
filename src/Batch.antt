-- ===== src/Batch.antt =====
-- settlement/processBatch.ts: one batch from the queue to the chain, the database and back to Redis.
pub mod Process
pub mod Acks
use settlement_engine.Prelude.{
  ℕ, zero, suc, String, Codes, to_lower_case, codes_eq, str_eq, Bool, true, false, Option, none,
  some, List, [], ◌∷◌, ◌++◌, map, length, take, drop, if◌then◌else◌,
}
use settlement_engine.Exec.{Exec, Result, ok, err, pure, throw, continue, ◌>>=◌, ◌>>◌}
use settlement_engine.Schemas.{Match, MatchWithMeta}
use settlement_engine.Redis.{Redis, RedisError, Command, xack, xdel, xtrim}
use settlement_engine.Contract.Errors.{SettlementError, Thrown, error, plain}
use settlement_engine.Contract.Encode.{MatchData, CollateralMap, distinct_from}
use settlement_engine.Contract.Receipt.{SettlementResult}
use settlement_engine.Contract.Settled.{
  CallResult, FilterAlreadySettledResult, filter_already_settled_matches,
}
use settlement_engine.Contract.Settle.{Chain, settle_batch}
use settlement_engine.Nonce.{NonceManager, Managed}
use settlement_engine.Poison.{
  PoisonIsolationResult, simulate_settle_batch, simulate_matches_for_poison,
}
use settlement_engine.Database.Connection.{PgError, Session, Pg}
use settlement_engine.Database.CollateralFlags.{read_for_borrowers}
use settlement_engine.Database.LockRelease.{writeback_settled_matches}
use settlement_engine.Database.OrderFailure.{poison_failure_reason, quarantine_failed_match}
use settlement_engine.Database.ApplySettlement.{OnChainEffects, apply_settlement_result}

pub record World : Type 0 where
  pub session : Session
  pub redis : Redis
  pub nonce_manager : NonceManager

-- The chain in the calls of one batch. Each dry run has an answer of its own, since the state of the
-- chain may change between the calls.
pub record Environment : Type 0 where
  pub chain : Chain
  pub is_settled : String → CallResult
  pub simulate_batch : List MatchData → Option Thrown
  pub simulate_match : MatchData → Option Thrown
  pub simulate_survivors : List MatchData → Option Thrown
  pub effects : OnChainEffects

pub record BatchProcessingError : Type 0 where
  pub message : String
  pub retryable : Bool
  -- `(error.originalError as any)?.code`
  pub original_code : Option String

-- What the steps throw.
pub data Raised : Type 0 where
  batch : BatchProcessingError → Raised
  settlement : SettlementError → Raised
  database : PgError → Raised
  other : String → Raised
  redis : RedisError → Raised

abbrev pub Step : Type 0 → Type 0
Step = Exec World Raised

abbrev pub raised_of : Thrown → Raised
raised_of (error m) = other m
raised_of (plain e) = settlement e

module _ {A : Type 0} where
  abbrev pub in_session : World → Result PgError A × Session → Result Raised A × World
  in_session w (ok a, s) = (ok a, record w { session = s })
  in_session w (err e, s) = (err (database e), record w { session = s })

  abbrev pub at_database : Pg A → Step A
  at_database m w = in_session w (m w.session)

  abbrev pub in_wallet : World → Result Thrown A × NonceManager → Result Raised A × World
  in_wallet w (ok a, n) = (ok a, record w { nonce_manager = n })
  in_wallet w (err e, n) = (err (raised_of e), record w { nonce_manager = n })

  abbrev pub at_wallet : Managed A → Step A
  at_wallet m w = in_wallet w (m w.nonce_manager)

  -- `try { ... } catch (error) { throw wrap(error) }`
  abbrev pub rethrow : (Raised → Raised) → Result Raised A × World → Result Raised A × World
  rethrow wrap (ok a, w) = (ok a, w)
  rethrow wrap (err e, w) = (err (wrap e), w)

  abbrev pub try_catch : Step A → (Raised → Raised) → Step A
  try_catch m wrap w = rethrow wrap (m w)

abbrev pub in_redis :
    World → Result RedisError (Unit {0}) × Redis → Result Raised (Unit {0}) × World
in_redis w (ok a, c) = (ok tt, record w { redis = c })
in_redis w (err e, c) = (err (redis e), record w { redis = c })

abbrev pub at_redis : Command → Step (Unit {0})
at_redis m w = in_redis w (m w.redis)

-- `idsByStream`: the ids of the matches by their stream, in the order of arrival
unfoldable pub push_id : String → String → List (String × List String) → List (String × List String)
push_id stream id [] = (stream, id ∷ []) ∷ []
push_id stream id ((s, ids) ∷ rest) =
    if str_eq s stream then (s, ids ++ id ∷ []) ∷ rest else (s, ids) ∷ push_id stream id rest

unfoldable pub ids_by_stream :
    List (String × List String) → List MatchWithMeta → List (String × List String)
unfolding push_id
ids_by_stream groups [] = groups
ids_by_stream groups (m ∷ rest) = ids_by_stream (push_id m.stream m.id groups) rest

abbrev pub ack_ids : String → List String → Command
ack_ids stream [] = pure tt
ack_ids stream (i ∷ rest) = xack stream i >> ack_ids stream rest

abbrev pub ack_groups : List (String × List String) → Command
ack_groups [] = pure tt
ack_groups ((stream, ids) ∷ rest) = ack_ids stream ids >> ack_groups rest

abbrev pub delete_batch_size : ℕ
delete_batch_size = 100

-- `for (let i = 0; i < ids.length; i += DELETE_BATCH_SIZE)`, on as many rounds as there are ids
unfoldable pub delete_ids : ℕ → String → List String → Command
delete_ids zero stream ids = pure tt
delete_ids (suc rounds) stream [] = pure tt
delete_ids (suc rounds) stream (i ∷ ids) = do
  xdel stream (take delete_batch_size (i ∷ ids))
  delete_ids rounds stream (drop delete_batch_size (i ∷ ids))

abbrev pub delete_groups : List (String × List String) → Command
delete_groups [] = pure tt
delete_groups ((stream, ids) ∷ rest) = delete_ids (length ids) stream ids >> delete_groups rest

unfoldable pub ack_and_delete_entries : List MatchWithMeta → Command
unfolding ids_by_stream delete_ids
ack_and_delete_entries matches = do
  ack_groups (ids_by_stream [] matches)
  delete_groups (ids_by_stream [] matches)

abbrev pub ghost_settled_tx_hash : String
ghost_settled_tx_hash = "ghost-settled-recovered"

abbrev pub payloads : List MatchWithMeta → List Match
payloads = map (λ m. m.payload)

-- The writeback catches its own errors, so this one does not throw.
unfoldable pub release_locks_for_already_settled : List MatchWithMeta → Step (Unit {0})
release_locks_for_already_settled [] w = (ok tt, w)
release_locks_for_already_settled (m ∷ rest) w =
    let (c, s) =
      writeback_settled_matches (payloads (m ∷ rest)) (map (λ x. x.match_id) (payloads (m ∷ rest)))
        ghost_settled_tx_hash w.session in
    (ok tt, record w { session = s })

-- `reasons.get(id)`, where the latest entry stands first
abbrev pub reason_for : String → List (String × String) → Option String
reason_for i [] = none
reason_for i ((j, reason) ∷ rest) = if str_eq j i then some reason else reason_for i rest

abbrev pub failure_reason : Option String → String
failure_reason none = poison_failure_reason
failure_reason (some code) =
    if str_eq code ""
    then poison_failure_reason
    else Prim.Native.String.◌++◌ poison_failure_reason (Prim.Native.String.◌++◌ ":" code)

abbrev pub quarantine_each : List (String × String) → List MatchWithMeta → Pg (Unit {0})
quarantine_each reasons [] = pure tt
quarantine_each reasons (m ∷ rest) = do
  quarantine_failed_match m.payload (failure_reason (reason_for m.id reasons))
  quarantine_each reasons rest

unfoldable pub quarantine_poison_matches :
    List MatchWithMeta → List (String × String) → Step (Unit {0})
unfolding ack_and_delete_entries
quarantine_poison_matches poison reasons = do
  at_database (quarantine_each reasons poison)
  at_redis (ack_and_delete_entries poison)

abbrev pub or_empty : Result Raised CollateralMap × World → Result Raised CollateralMap × World
or_empty (ok c, w) = (ok c, w)
or_empty (err e, w) = (ok [], w)

-- Step 0.5, with its `catch`
unfoldable pub read_collateral : List MatchWithMeta → Step CollateralMap
unfolding read_for_borrowers distinct_from
read_collateral unsettled w = or_empty (
    at_database
      (read_for_borrowers
        (distinct_from [] (map (λ m. to_lower_case m.payload.borrower_wallet) unsettled)))
      w)

abbrev pub transient_error : SettlementError → Raised
transient_error e = batch (record {
  message = Prim.Native.String.◌++◌ "Pre-flight simulation transient failure: " e.message;
  retryable = true;
  original_code = e.code;
})

abbrev pub survivors_error : SettlementError → Raised
survivors_error e = batch (record {
  message = "Survivors still revert after poison isolation";
  retryable = false;
  original_code = e.code;
})

-- The `catch` clauses: a `BatchProcessingError` of the isolation passes, all else is wrapped; an error
-- with no `retryable` of its own counts as retryable.
abbrev pub wrap_error : String → Raised → Raised
wrap_error prefix (batch b) = batch (record {
  message = Prim.Native.String.◌++◌ prefix b.message;
  retryable = b.retryable;
  original_code = none;
})
wrap_error prefix (settlement e) = batch (record {
  message = Prim.Native.String.◌++◌ prefix e.message;
  retryable = e.retryable;
  original_code = e.code;
})
wrap_error prefix (database e) = batch (record {
  message = Prim.Native.String.◌++◌ prefix (elim e.message [ none ↦ "undefined" | some m ↦ m ]);
  retryable = true;
  original_code = e.code;
})
wrap_error prefix (other m) =
    batch (record {
      message = Prim.Native.String.◌++◌ prefix m;
      retryable = true;
      original_code = none;
    })
wrap_error prefix (redis e) = batch (record {
  message = Prim.Native.String.◌++◌ prefix "Connection is closed.";
  retryable = true;
  original_code = none;
})

abbrev pub wrap_isolation : Raised → Raised
wrap_isolation (batch b) = batch b
wrap_isolation e = wrap_error "Poison isolation failed: " e
