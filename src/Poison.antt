-- ===== src/Poison.antt =====
-- settlement/poisonIsolation.ts: dry runs of a batch, and of each match, that find the matches by which
-- a batch would revert. The chain's answers to the dry runs are parameters, `some e` for one that throws.
pub mod Verdict
use settlement_engine.Prelude.{
  String, Bool, true, false, Option, none, some, List, [], ◌∷◌, map, str_eq, if◌then◌else◌,
}
use settlement_engine.Exec.{Result, ok, err}
use settlement_engine.Schemas.{Match, MatchWithMeta}
use settlement_engine.Contract.Errors.{SettlementError, Thrown, map_contract_error}
use settlement_engine.Contract.Encode.{MatchData, CollateralMap, transform_match_to_contract_format}

pub record PoisonIsolationResult : Type 0 where
  pub survivors : List MatchWithMeta
  pub poison : List MatchWithMeta
  -- the entries of the map, the latest first
  pub poison_reasons : List (String × String)
  pub survivors_simulate_clean : Bool

pub record Outcome : Type 0 where
  pub match : MatchWithMeta
  pub error : Option SettlementError

-- `outcomes.find((o) => o.error?.retryable)`
unfoldable pub find_transient : List Outcome → Option SettlementError
find_transient [] = none
find_transient (o ∷ rest) = elim o.error [
  | none ↦ find_transient rest
  | some e ↦ if e.retryable then some e else find_transient rest
]

abbrev pub reason_of : SettlementError → String
reason_of e = elim e.code [ none ↦ e.message | some c ↦ c ]

-- the loop that sorts the outcomes; the reasons of later entries are set later
unfoldable pub sort_outcomes : List Outcome → List (String × String) → PoisonIsolationResult
sort_outcomes [] reasons = record {
  survivors = [];
  poison = [];
  poison_reasons = reasons;
  survivors_simulate_clean = true;
}
sort_outcomes (o ∷ rest) reasons = elim o.error [
  | none ↦ let r = sort_outcomes rest reasons in record r { survivors = o.match ∷ r.survivors }
  | some e ↦
      let r = sort_outcomes rest ((o.match.id, reason_of e) ∷ reasons) in
      record r { poison = o.match ∷ r.poison }
]

-- what the check of the survivors as a batch adds to the result
abbrev pub revalidated :
    PoisonIsolationResult → Option SettlementError → Result SettlementError PoisonIsolationResult
revalidated r none = ok (record r { survivors_simulate_clean = true })
revalidated r (some e) =
    if e.retryable then err e else ok (record r { survivors_simulate_clean = false })

module _ (uuid_to_bytes32 : String → String) (collateral : CollateralMap) where
  abbrev pub encode : Match → MatchData
  encode = transform_match_to_contract_format uuid_to_bytes32 collateral

  abbrev pub mapped : List Match → Option Thrown → Option SettlementError
  mapped matches none = none
  mapped matches (some e) = some (map_contract_error e (map (λ m. m.match_id) matches))

  unfoldable pub simulate_settle_batch :
      (List MatchData → Option Thrown) → List Match → Option SettlementError
  simulate_settle_batch simulate [] = none
  simulate_settle_batch simulate (m ∷ rest) = mapped (m ∷ rest) (simulate (map encode (m ∷ rest)))

  -- the dry run of one match
  abbrev pub probe : (MatchData → Option Thrown) → MatchWithMeta → Option SettlementError
  probe simulate m = mapped (m.payload ∷ []) (simulate (encode m.payload))

  unfoldable pub outcomes_of : (MatchData → Option Thrown) → List MatchWithMeta → List Outcome
  outcomes_of simulate [] = []
  outcomes_of simulate (m ∷ rest) =
      record { match = m; error = probe simulate m } ∷ outcomes_of simulate rest

  abbrev pub revalidate :
      (List MatchData → Option Thrown)
      → PoisonIsolationResult
      → Result SettlementError PoisonIsolationResult
  revalidate simulate r =
      revalidated r (simulate_settle_batch simulate (map (λ m. m.payload) r.survivors))

  -- the throw of a transient error, or the verdict
  abbrev pub conclude :
      (List MatchData → Option Thrown)
      → List Outcome
      → Option SettlementError
      → Result SettlementError PoisonIsolationResult
  conclude simulate outcomes none = revalidate simulate (sort_outcomes outcomes [])
  conclude simulate outcomes (some e) = err e

  unfoldable pub simulate_matches_for_poison :
      (MatchData → Option Thrown)
      → (List MatchData → Option Thrown)
      → List MatchWithMeta
      → Result SettlementError PoisonIsolationResult
  unfolding find_transient sort_outcomes simulate_settle_batch outcomes_of
  simulate_matches_for_poison simulate_match simulate_survivors matches =
      let outcomes = outcomes_of simulate_match matches in
      conclude simulate_survivors outcomes (find_transient outcomes)
