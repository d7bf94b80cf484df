-- ===== src/Tests/Batches.antt =====
-- The theorems on the accumulator, the isolation and the settlement of a batch, at sample batches.
use settlement_engine.Prelude.{
  ◌≡◌, refl, ◌⊎◌, inl, inr, true, false, Option, none, some, [], ◌∷◌, All, str_eq, if◌then◌else◌,
}
use settlement_engine.Accumulator.{BatchAccumulator}
use settlement_engine.Contract.Errors.{Thrown, error}
use settlement_engine.Contract.Encode.{MatchData, CollateralMap, transform_match_to_contract_format}
use settlement_engine.Contract.Settled.{success}
use settlement_engine.Database.Tables.{pending}
use settlement_engine.Exec.{pure}
use settlement_engine.Poison.{simulate_matches_for_poison}
use settlement_engine.Poison.Verdict.{Verdict, simulate_matches_for_poison-Verdict}
use settlement_engine.Batch.{World, Environment, BatchProcessingError}
use settlement_engine.Batch.Process.{process_settlement_batch}
use settlement_engine.Batch.Acks.Commands.{Entry, entry_of}
use settlement_engine.Batch.Acks.Failing.{
  collateral_of, is_settled_match, runs_clean, failing_batch_acks,
}
use settlement_engine.Redis.{command}
use settlement_engine.Prelude.{codes_lt, to_lower_case, includes}
use settlement_engine.Contract.Errors.{map_contract_error, has_error, map_transport_error}
use settlement_engine.Database.Connection.{query, with_transaction}
use settlement_engine.Database.LockRelease.{
  writeback_settled_matches, writeback_one, apply_match_settlement_writeback,
}
use settlement_engine.Tests.Samples.{first_entry, second_entry, chain, wallet, calm_session}

abbrev pub small : BatchAccumulator
small = record {
  queue = [];
  seen_ids = [];
  last_processed_time = 1000;
  batch_size = 2;
  batch_interval_ms = 500;
  max_capacity = 3;
}

-- the dry run of the match `m2` alone reverts
abbrev simulate_one : MatchData → Option Thrown
simulate_one d = if str_eq d.match_id "m2" then some (error "InvalidMaturity()") else none

simulate_matches_for_poison-Verdict_example :
    Verdict
      (λ s. s)
      []
      simulate_one
      (λ ms. none)
      (first_entry ∷ second_entry ∷ [])
      (simulate_matches_for_poison
        (λ s. s)
        []
        simulate_one
        (λ ms. none)
        (first_entry ∷ second_entry ∷ []))
simulate_matches_for_poison-Verdict_example =
    simulate_matches_for_poison-Verdict (λ s. s) [] simulate_one (λ ms. none)
      (first_entry ∷ second_entry ∷ [])

-- `m1` is settled; the dry run of the batch reverts, that of `m2` alone too, and no one survives it
abbrev pub environment : Environment
environment = record {
  chain = chain true;
  is_settled = λ i. success (str_eq i "m1");
  simulate_batch = λ ms. some (error "execution timeout");
  simulate_match = simulate_one;
  simulate_survivors = λ ms. none;
  effects = record { apply_on_chain_effect = λ r c. pure tt };
}

abbrev pub world : World
world = record {
  session = calm_session pending;
  redis = record { acked = []; deleted = []; trims = 0; dead_letters = []; faults = [] };
  nonce_manager = wallet;
}

-- the entry of the first match, which is settled, or of the second, whose dry run is not clean
abbrev pub Resolved : Entry → Type 0
Resolved e =
    ((e ≡ entry_of first_entry) × (is_settled_match environment first_entry ≡ true))
    ⊎ ((e ≡ entry_of second_entry) × (runs_clean environment [] second_entry ≡ false))

pub settled-Resolved :
    All
      (λ m. is_settled_match environment m ≡ true → Resolved (entry_of m))
      (first_entry ∷ second_entry ∷ [])
settled-Resolved = (λ h. inl (refl, h), (λ h. absurd (cc h), tt))

pub unclean-Resolved :
    (c : CollateralMap)
    → All
        (λ m.
          is_settled_match environment m ≡ false
          → runs_clean environment c m ≡ false
          → Resolved (entry_of m))
        (first_entry ∷ second_entry ∷ [])
unfolding transform_match_to_contract_format
unclean-Resolved c = (λ h u. absurd (cc h), (λ h u. inr (refl, refl), tt))

abbrev pub transient : BatchProcessingError
transient = record {
  message = "Pre-flight simulation transient failure: Network error: execution timeout";
  retryable = true;
  original_code = some "NETWORK_ERROR";
}

failing_batch_acks_example :
    All Resolved
      (process_settlement_batch environment (first_entry ∷ second_entry ∷ []) world).1.redis.acked
unfolding process_settlement_batch command query writeback_settled_matches writeback_one
    with_transaction apply_match_settlement_writeback codes_lt to_lower_case map_contract_error
    has_error includes map_transport_error
failing_batch_acks_example =
    failing_batch_acks Resolved environment (first_entry ∷ second_entry ∷ []) world transient
      settled-Resolved
      (unclean-Resolved (collateral_of environment (first_entry ∷ second_entry ∷ []) world)) refl tt
