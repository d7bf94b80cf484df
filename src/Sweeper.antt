-- ===== src/Sweeper.antt =====
-- settlement/settlementSweeper.ts: one sweep over the matches that are stuck in PENDING.
pub mod Timer
pub mod Reads
pub mod Counters
pub mod Spares
pub mod Rescue
pub mod Overdue
use settlement_engine.Prelude.{
  ℕ, ◌+◌, String, Bool, true, false, Option, none, some, List, [], ◌∷◌, length, map,
}
use settlement_engine.Exec.{Result, ok, err}
use settlement_engine.Database.Connection.{PgError, Session, Pg}
use settlement_engine.Database.PendingSweep.{StuckMatch, remediate_unsettled_match}
use settlement_engine.Database.StuckMatches.{Sources, find_stuck_pending_matches}
use settlement_engine.Contract.Settled.{CallResult, check_matches_settled_on_chain, settled_of}

pub record SweepResult : Type 0 where
  pub scanned : ℕ
  pub failed_unlocked : ℕ
  pub ghost_settled : ℕ
  pub skipped_unknown : ℕ

-- The counters before the loop. `scanned` is set from the candidates.
abbrev pub no_counts : ℕ → SweepResult
no_counts n = record { scanned = n; failed_unlocked = 0; ghost_settled = 0; skipped_unknown = 0 }

-- `if (actioned)`; an error is logged, and the match is left for the next sweep
abbrev pub count_actioned : Result PgError Bool → SweepResult → SweepResult
count_actioned (ok true) c = record c { failed_unlocked = c.failed_unlocked + 1 }
count_actioned (ok false) c = c
count_actioned (err e) c = c

-- one round of the loop, by `settledMap.get(match.id)`
unfoldable pub sweep_match :
    Option Bool → StuckMatch → SweepResult → Session → SweepResult × Session
sweep_match none match c s = (record c { skipped_unknown = c.skipped_unknown + 1 }, s)
sweep_match (some true) match c s = (record c { ghost_settled = c.ghost_settled + 1 }, s)
sweep_match (some false) match c s =
    let (r, s') = remediate_unsettled_match match s in (count_actioned r c, s')

unfoldable pub sweep_from :
    List (String × Bool) → List StuckMatch → SweepResult → Session → SweepResult × Session
unfolding sweep_match settled_of
sweep_from settled_map [] c s = (c, s)
sweep_from settled_map (match ∷ rest) c s =
    let (c', s') = sweep_match (settled_of match.id settled_map) match c s in
    sweep_from settled_map rest c' s'

-- `sweep` after its query, with the rows of the query
unfoldable pub sweep :
    (String → String) → (String → CallResult) → List StuckMatch → Session → SweepResult × Session
unfolding sweep_from check_matches_settled_on_chain
sweep uuid_to_bytes32 is_settled [] s = (no_counts 0, s)
sweep uuid_to_bytes32 is_settled (m ∷ rest) s =
    sweep_from
      (check_matches_settled_on_chain uuid_to_bytes32 is_settled (map (λ c. c.id) (m ∷ rest)))
      (m ∷ rest) (no_counts (length (m ∷ rest))) s

-- `sweep` with its query
unfoldable pub sweep_overdue :
    (List StuckMatch → List StuckMatch)
    → (String → String)
    → (String → CallResult)
    → ℕ
    → ℕ
    → ℕ
    → Sources
    → Session
    → SweepResult × Session
unfolding sweep find_stuck_pending_matches
sweep_overdue order_by uuid_to_bytes32 is_settled now stuck_threshold_ms batch_size t s =
    sweep uuid_to_bytes32 is_settled
      (find_stuck_pending_matches order_by now stuck_threshold_ms batch_size t) s
