-- ===== src/Database/Lifecycle.antt =====
-- Which statuses a match can leave: the resolutions only leave PENDING, the batch clean-up does not ask.
use settlement_engine.Prelude.{
  ◌≡◌, ap, ◌∙◌, inl, inr, Bool-cases, String, Bool, true, false, List, [], ◌∷◌, arith, any, ◌&&◌,
  str_eq, update_where,
}
use settlement_engine.Exec.{Result, ok, err}
use settlement_engine.Schemas.{Match}
use settlement_engine.Database.Tables.{
  Db, MatchRow, SettlementStatus, pending, settled, failed, is_pending_id,
}
use settlement_engine.Database.Connection.{PgError, Session}
use settlement_engine.Database.Effect.{AllOrNothing}
use settlement_engine.Database.Gate.{flipped}
use settlement_engine.Database.Resolution.{
  Resolution, write_back, quarantine, remediate, resolve, resolved, resolution_effect,
  resolution_keeps, resolve-AllOrNothing,
}

abbrev pub has_status : SettlementStatus → SettlementStatus → Bool
has_status pending pending = true
has_status settled settled = true
has_status failed failed = true
has_status _ _ = false

-- some row of the match has the status
abbrev pub is_at : SettlementStatus → String → Db → Bool
is_at status i d = any (λ r. str_eq r.id i && has_status status r.settlement_status) d.matches

update-is_at :
    (status : SettlementStatus) (i j : String) (r : Resolution) (rows : List MatchRow)
    → has_status status pending ≡ false
    → any (λ x. str_eq x.id i && has_status status x.settlement_status) rows ≡ true
    → any
        (λ x. str_eq x.id i && has_status status x.settlement_status)
        (update_where (is_pending_id j) (resolved r) rows)
      ≡ true
update-is_at status i j r [] n h = cc
update-is_at pending i j r (x ∷ rows) n h = cc
update-is_at settled i j (write_back t) (x ∷ rows) n h =
    ground (arith, update-is_at settled i j (write_back t) rows n)
update-is_at settled i j (quarantine t) (x ∷ rows) n h =
    ground (arith, update-is_at settled i j (quarantine t) rows n)
update-is_at settled i j remediate (x ∷ rows) n h =
    ground (arith, update-is_at settled i j remediate rows n)
update-is_at failed i j (write_back t) (x ∷ rows) n h =
    ground (arith, update-is_at failed i j (write_back t) rows n)
update-is_at failed i j (quarantine t) (x ∷ rows) n h =
    ground (arith, update-is_at failed i j (quarantine t) rows n)
update-is_at failed i j remediate (x ∷ rows) n h =
    ground (arith, update-is_at failed i j remediate rows n)

effect-is_at :
    (status : SettlementStatus) (i : String) (r : Resolution) (m : Match) (d : Db)
    → has_status status pending ≡ false
    → is_at status i d ≡ true
    → is_at status i (resolution_effect r m d).1 ≡ true
effect-is_at status i r m d n h = elim (Bool-cases (any (is_pending_id m.match_id) d.matches)) [
  | inl e ↦ rw e (
      rw (resolution_keeps r m (flipped (is_pending_id m.match_id) (resolved r) d))
        (update-is_at status i m.match_id r d.matches n h))
  | inr e ↦ rw e h
]

outcome-is_at :
    (status : SettlementStatus) (i : String) (f : Db → Bool × Db) (d : Db)
    (o : Result PgError Bool × Session)
    → AllOrNothing f d o
    → is_at status i d ≡ true
    → is_at status i (f d).1 ≡ true
    → is_at status i o.1.db ≡ true
outcome-is_at status i f d (ok b, s) h before after =
    ap (λ (p : Bool × Db). is_at status i p.1) h ∙ after
outcome-is_at status i f d (err e, s) h before after = ap (is_at status i) h ∙ before

-- A row that is settled or failed stays so under every resolution of any match, and whatever queries
-- fail: the three resolutions only leave PENDING.
pub resolve_keeps_resolved :
    (status : SettlementStatus) (i : String) (r : Resolution) (m : Match) (s : Session)
    → has_status status pending ≡ false
    → is_at status i s.db ≡ true
    → is_at status i (resolve r m s).1.db ≡ true
resolve_keeps_resolved status i r m s n h =
    outcome-is_at status i (resolution_effect r m) s.db (resolve r m s) (resolve-AllOrNothing r m s)
      h (effect-is_at status i r m s.db n h)
