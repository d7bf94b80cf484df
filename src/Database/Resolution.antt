-- ===== src/Database/Resolution.antt =====
-- The three ways out of PENDING together: the writeback, the quarantine, the remediation.
use mathlib.Core.Path.{subst}
use settlement_engine.Prelude.{◌≡◌, ◌≢◌, refl, sym, String, Bool, true, false, arith}
use settlement_engine.Exec.{Result, ok, err}
use settlement_engine.Schemas.{Match}
use settlement_engine.Database.Tables.{Db, MatchRow, is_pending_id, to_settled, to_failed}
use settlement_engine.Database.Connection.{PgError, Session, Pg, with_transaction}
use settlement_engine.Database.Effect.{AllOrNothing, with_transaction-AllOrNothing}
use settlement_engine.Database.LockRelease.{
  lender_release, borrower_release, apply_match_settlement_writeback,
}
use settlement_engine.Database.OrderFailure.{quarantine_failed_match}
use settlement_engine.Database.PendingSweep.{remediate_unsettled_match, sweeper_failure_reason}
use settlement_engine.Database.Locks.{unlock_both}
use settlement_engine.Database.Gate.{gated_effect}
use settlement_engine.Database.Once.{second_idle}
use settlement_engine.Database.Writeback.{writeback-Does}
use settlement_engine.Database.Failure.{
  stuck_of, failure_work, quarantine_transaction, remediate-eq-quarantine,
}

pub data Resolution : Type 0 where
  write_back : String → Resolution
  quarantine : String → Resolution
  remediate : Resolution

-- the transaction of each
abbrev pub resolve : Resolution → Match → Pg Bool
resolve (write_back tx_hash) m = with_transaction (apply_match_settlement_writeback m tx_hash)
resolve (quarantine reason) m = quarantine_failed_match m reason
resolve remediate m = remediate_unsettled_match (stuck_of m)

abbrev pub resolved : Resolution → MatchRow → MatchRow
resolved (write_back tx_hash) = to_settled tx_hash
resolved (quarantine reason) = to_failed reason
resolved remediate = to_failed sweeper_failure_reason

abbrev pub resolution_work : Resolution → Match → Db → Db
resolution_work (write_back _) m = unlock_both (lender_release m) (borrower_release m)
resolution_work (quarantine _) m = failure_work m
resolution_work remediate m = failure_work m

abbrev pub resolution_effect : Resolution → Match → Db → Bool × Db
resolution_effect r m = gated_effect (is_pending_id m.match_id) (resolved r) (resolution_work r m)

pub resolve-AllOrNothing :
    (r : Resolution) (m : Match) (s : Session)
    → AllOrNothing (resolution_effect r m) s.db (resolve r m s)
resolve-AllOrNothing (write_back tx_hash) m s =
    with_transaction-AllOrNothing (writeback-Does m tx_hash) s
resolve-AllOrNothing (quarantine reason) m s = (quarantine_transaction m reason s).0
resolve-AllOrNothing remediate m s =
    rw (remediate-eq-quarantine m s) (quarantine_transaction m sweeper_failure_reason s).0

outcome-keeps :
    (P : Db → Type 0) (f : Db → Bool × Db) (d : Db) (o : Result PgError Bool × Session)
    → AllOrNothing f d o
    → P d
    → P (f d).1
    → P o.1.db
outcome-keeps P f d (ok b, s) h before after = subst (λ (p : Bool × Db). P p.1) (sym h) after
outcome-keeps P f d (err e, s) h before after = subst P (sym h) before

-- what holds before a resolution and after its effect holds whether or not it throws
pub resolve-keeps :
    (P : Db → Type 0) (r : Resolution) (m : Match) (s : Session)
    → P s.db
    → P (resolution_effect r m s.db).1
    → P (resolve r m s).1.db
resolve-keeps P r m s =
    outcome-keeps P (resolution_effect r m) s.db (resolve r m s) (resolve-AllOrNothing r m s)

pub resolved_ends :
    (r : Resolution) (i : String) (x : MatchRow) → is_pending_id i (resolved r x) ≡ false
resolved_ends (write_back _) i x = ground arith
resolved_ends (quarantine _) i x = ground arith
resolved_ends remediate i x = ground arith

pub resolution_keeps :
    (r : Resolution) (m : Match) (d : Db) → (resolution_work r m d).matches ≡ d.matches
resolution_keeps (write_back _) m d = refl
resolution_keeps (quarantine _) m d = refl
resolution_keeps remediate m d = refl

-- Once one of the three has resolved a match, none of the three (a retry of it, or another one that
-- races it) reports that it has acted or changes the database that was left, whatever queries fail.
pub resolve_exactly_once :
    (first second : Resolution) (m : Match) (s t : Session)
    → (resolve first m s).0 ≡ ok true
    → t.db ≡ (resolve first m s).1.db
    → ((resolve second m t).0 ≢ ok true) × ((resolve second m t).1.db ≡ t.db)
resolve_exactly_once first second m s t =
    second_idle (is_pending_id m.match_id) (resolved first) (resolved second)
      (resolved_ends first m.match_id) (resolution_work first m) (resolution_keeps first m)
      (resolution_work second m) (resolve first m) (resolve second m) (resolve-AllOrNothing first m)
      (resolve-AllOrNothing second m) s t
