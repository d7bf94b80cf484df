-- ===== src/Database/Once.antt =====
-- Transactions behind the gate: once one has done its work, a retry does nothing.
use settlement_engine.Prelude.{◌≡◌, ◌≢◌, refl, Bool, true, false, any}
use settlement_engine.Exec.{Result, ok, err}
use settlement_engine.Database.Tables.{Db, MatchRow}
use settlement_engine.Database.Connection.{PgError, Session, Pg}
use settlement_engine.Database.Effect.{AllOrNothing}
use settlement_engine.Database.Gate.{gated_effect, gated_once}

-- what a transaction returned, and the database that it left, when it acts all or nothing
pub effect_of_ok :
    (f : Db → Bool × Db) (d : Db) (b : Bool) (r : Result PgError Bool × Session)
    → AllOrNothing f d r
    → r.0 ≡ ok b
    → (b, r.1.db) ≡ f d
effect_of_ok f d b (ok a, s) h e = cc (h, e)
effect_of_ok f d b (err x, s) h e = cc e

idle_of_effect :
    (f : Db → Bool × Db) (d : Db) (r : Result PgError Bool × Session)
    → AllOrNothing f d r
    → f d ≡ (false, d)
    → (r.0 ≢ ok true) × (r.1.db ≡ d)
idle_of_effect f d (ok a, s) h e = (λ q. cc (h, e, q), cc (h, e))
idle_of_effect f d (err x, s) h e = (λ q. cc q, h)

module _ (p : MatchRow → Bool) (f g : MatchRow → MatchRow) (ends : (x : MatchRow) → p (f x) ≡ false)
    (work : Db → Db) (keeps : (d : Db) → (work d).matches ≡ d.matches) (work' : Db → Db)
    (first second : Pg Bool)
    (acts : (s : Session) → AllOrNothing (gated_effect p f work) s.db (first s))
    (acts' : (s : Session) → AllOrNothing (gated_effect p g work') s.db (second s)) where
  pub second_idle :
      (s t : Session)
      → (first s).0 ≡ ok true
      → t.db ≡ (first s).1.db
      → ((second t).0 ≢ ok true) × ((second t).1.db ≡ t.db)
  second_idle s t done same =
      idle_of_effect (gated_effect p g work') t.db (second t) (acts' t) (rw (gone) refl)
    where
      gone : any p t.db.matches ≡ false
      gone = rw same (
          gated_once p f ends work keeps s.db (first s).1.db
            (effect_of_ok (gated_effect p f work) s.db true (first s) (acts s) done))
