-- ===== src/Database/BatchFailure.antt =====
-- The batch clean-up after a non-retryable error: three transactions that swallow their errors, with
-- no condition on the status of a match.
use settlement_engine.Prelude.{
  ◌+◌, ◌-◌, ◌≡◌, refl, ap, ◌⊎◌, inl, inr, Bool-cases, String, true, false, List, [], ◌∷◌, map,
  arith, any, ◌&&◌, str_eq, eq_iff, Option, none, some, update_where,
}
use settlement_engine.Exec.{Result, ok, err}
use settlement_engine.Schemas.{Match}
use settlement_engine.Database.Tables.{
  Db, MatchRow, BalanceRow, settled, has_id, to_failed, is_pending_id,
}
use settlement_engine.Database.Connection.{PgError, Session, Pg, query, statement}
use settlement_engine.Database.Effect.{
  Does, Does-query, Does-pure, Does-bind, OnSuccess, body-Does, calm,
}
use settlement_engine.Database.OrderFailure.{
  swallow, caught_transaction, for_each, unlock_match, unlock_failed_matches, record_match,
  record_failed_matches, restore_match, restore_orders_for_failed_matches, mark_failed,
  lender_unlock, borrower_unlock, quarantine_failed_match,
}
use settlement_engine.Database.Locks.{unlock_both, unlocked, Does-ordered}
use settlement_engine.Database.Failure.{failed_effect, quarantine_transaction, orders_restored}
use settlement_engine.Database.Lifecycle.{is_at, has_status}
use settlement_engine.Database.Conservation.{held}

-- one step for each match, in order
abbrev pub each : (Match → Db → Db) → List Match → Db → Db
each e [] d = d
each e (m ∷ rest) d = each e rest (e m d)

Does-for_each :
    (step : Match → Pg (Unit {0})) (e : Match → Db → Db)
    → ((m : Match) → Does (step m) (λ d. (tt, e m d)))
    → (ms : List Match) → Does (for_each step ms) (λ d. (tt, each e ms d))
Does-for_each step e h [] = Does-pure tt
Does-for_each step e h (m ∷ rest) = Does-bind (h m) (λ _. Does-for_each step e h rest)

-- `ROLLBACK` changes no row, also where it fails
statement-db : (s : Session) → (statement s).1.db ≡ s.db
unfolding query
statement-db s = go s.faults
  where
    go : (l : List (Option PgError)) → (statement (record s { faults = l })).1.db ≡ s.db
    go [] = refl
    go (none ∷ l) = refl
    go (some e ∷ l) = refl

module _ {m : Pg (Unit {0})} {f : Db → Db} (h : Does m (λ d. (tt, f d))) where
  swallow-outcome :
      (d : Db) (r : Result PgError (Unit {0}) × Session)
      → OnSuccess (λ x. (tt, f x)) d r
      → ((swallow d r).1.db ≡ f d) ⊎ ((swallow d r).1.db ≡ d)
  swallow-outcome d (ok _, s) p = inl (ap (λ (x : Unit {0} × Db). x.1) p)
  swallow-outcome d (err e, s) p = inr (statement-db (record s { db = d }))

  caught-outcome :
      (s : Session)
      → ((caught_transaction m s).1.db ≡ f s.db) ⊎ ((caught_transaction m s).1.db ≡ s.db)
  unfolding caught_transaction query
  caught-outcome s = go s.faults
    where
      go :
          (l : List (Option PgError))
          → let s' = (caught_transaction m (record s { faults = l })).1.db in
            (s' ≡ f s.db) ⊎ (s' ≡ s.db)
      go [] = swallow-outcome s.db _ ((body-Does h).acts (record s { faults = [] }))
      go (none ∷ l) = swallow-outcome s.db _ ((body-Does h).acts (record s { faults = l }))
      go (some e ∷ l) = inr refl

  caught-returns : (d : Db) → caught_transaction m (calm d) ≡ (ok tt, calm (f d))
  unfolding caught_transaction query
  caught-returns d = rw ((body-Does h).returns d)

abbrev pub unlock_work : Match → Db → Db
unlock_work m = unlock_both (lender_unlock m) (borrower_unlock m)

abbrev pub marked : String → Match → Db → Db
marked reason m = mark_failed m.match_id reason

unlock-Does : (ms : List Match) → Does (for_each unlock_match ms) (λ d. (tt, each unlock_work ms d))
unlock-Does =
    Does-for_each unlock_match unlock_work (λ m. Does-ordered (lender_unlock m) (borrower_unlock m))

record-Does :
    (reason : String) (ms : List Match)
    → Does (for_each (record_match reason) ms) (λ d. (tt, each (marked reason) ms d))
record-Does reason = Does-for_each (record_match reason) (marked reason) (λ m. Does-query _)

restore-Does :
    (ms : List Match) → Does (for_each restore_match ms) (λ d. (tt, each orders_restored ms d))
restore-Does =
    Does-for_each restore_match orders_restored (λ m. Does-bind (Does-query _) λ _. Does-query _)

-- Each of the three helpers has done its work on every match of the batch or on none, whether it
-- throws or returns.
pub batch_cleanup_atomic :
    (ms : List Match) (reason : String) (s : Session)
    → ((unlock_failed_matches ms s).1.db ≡ each unlock_work ms s.db
        ⊎ (unlock_failed_matches ms s).1.db ≡ s.db)
      × ((record_failed_matches ms reason s).1.db ≡ each (marked reason) ms s.db
          ⊎ (record_failed_matches ms reason s).1.db ≡ s.db)
      × ((restore_orders_for_failed_matches ms s).1.db ≡ each orders_restored ms s.db
          ⊎ (restore_orders_for_failed_matches ms s).1.db ≡ s.db)
unfolding unlock_failed_matches record_failed_matches restore_orders_for_failed_matches
batch_cleanup_atomic ms reason s = (
  caught-outcome (unlock-Does ms) s,
  caught-outcome (record-Does reason ms) s,
  caught-outcome (restore-Does ms) s,
)

-- where no query fails
pub batch_cleanup_returns :
    (ms : List Match) (reason : String) (d : Db)
    → (unlock_failed_matches ms (calm d) ≡ (ok tt, calm (each unlock_work ms d)))
      × (record_failed_matches ms reason (calm d) ≡ (ok tt, calm (each (marked reason) ms d)))
      × (restore_orders_for_failed_matches ms (calm d) ≡ (ok tt, calm (each orders_restored ms d)))
unfolding unlock_failed_matches record_failed_matches restore_orders_for_failed_matches
batch_cleanup_returns ms reason d = (
  caught-returns (unlock-Does ms) d,
  caught-returns (record-Does reason ms) d,
  caught-returns (restore-Does ms) d,
)

-- a row that is not settled, or not of the match, stays so
not_settled_kept :
    (i j reason : String) (rows : List MatchRow)
    → any (λ r. str_eq r.id i && has_status settled r.settlement_status) rows ≡ false
    → any
        (λ r. str_eq r.id i && has_status settled r.settlement_status)
        (update_where (has_id j) (to_failed reason) rows)
      ≡ false
not_settled_kept i j reason [] h = refl
not_settled_kept i j reason (x ∷ rows) h = ground (arith, not_settled_kept i j reason rows)

own_settled_gone :
    (i reason : String) (rows : List MatchRow)
    → any
        (λ r. str_eq r.id i && has_status settled r.settlement_status)
        (update_where (has_id i) (to_failed reason) rows)
      ≡ false
own_settled_gone i reason [] = refl
own_settled_gone i reason (x ∷ rows) = ground (arith, own_settled_gone i reason rows)

marked_none_settled :
    (i reason : String) (ms : List Match) (d : Db)
    → is_at settled i d ≡ false
    → is_at settled i (each (marked reason) ms d) ≡ false
marked_none_settled i reason [] d h = h
marked_none_settled i reason (m ∷ rest) d h =
    marked_none_settled i reason rest (marked reason m d)
      (not_settled_kept i m.match_id reason d.matches h)

marked_overwrites :
    (i reason : String) (ms : List Match) (d : Db)
    → any (λ m. str_eq m.match_id i) ms ≡ true
    → is_at settled i (each (marked reason) ms d) ≡ false
marked_overwrites i reason [] d h = cc h
marked_overwrites i reason (m ∷ rest) d h = elim (Bool-cases (str_eq m.match_id i)) [
  | inl e ↦
      marked_none_settled i reason rest (marked reason m d)
        (rw ((eq_iff m.match_id i).0 e) (own_settled_gone i reason d.matches))
  | inr e ↦ marked_overwrites i reason rest (marked reason m d) (rw e at h)
]

-- The batch clean-up does not ask for PENDING: where no query fails, a match of the batch that was
-- settled is settled no more.
pub record_failed_overwrites_settled :
    (i reason : String) (ms : List Match) (d : Db)
    → any (λ m. str_eq m.match_id i) ms ≡ true
    → is_at settled i d ≡ true
    → is_at settled i (record_failed_matches ms reason (calm d)).1.db ≡ false
unfolding record_failed_matches
record_failed_overwrites_settled i reason ms d h was =
    rw (caught-returns (record-Does reason ms) d) (marked_overwrites i reason ms d h)

-- a row that has lost twice what the match held of it
abbrev pub unlocked_twice : Match → BalanceRow → BalanceRow
unlocked_twice m r = record r { in_orders = r.in_orders - (held m r + held m r) }

twice_unlocked :
    (m : Match) (rows : List BalanceRow)
    → let once = map (unlocked (lender_unlock m) (borrower_unlock m)) in
      once (once rows) ≡ map (unlocked_twice m) rows
twice_unlocked m [] = refl
twice_unlocked m (r ∷ rows) = ground (arith, twice_unlocked m rows)

pub unlock-returns :
    (ms : List Match) (d : Db)
    → unlock_failed_matches ms (calm d) ≡ (ok tt, calm (each unlock_work ms d))
unfolding unlock_failed_matches
unlock-returns ms d = caught-returns (unlock-Does ms) d

-- A match that has been quarantined and is then part of the batch clean-up loses its lock twice, where
-- no query fails: each balance row falls by twice what the match held of it.
pub unlock_after_quarantine_doubles :
    (m : Match) (reason : String) (d : Db)
    → any (is_pending_id m.match_id) d.matches ≡ true
    → let quarantined = (quarantine_failed_match m reason (calm d)).1 in
      (unlock_failed_matches (m ∷ []) quarantined).1.db.user_balance
      ≡ map (unlocked_twice m) d.user_balance
unlock_after_quarantine_doubles m reason d h = rw ((quarantine_transaction m reason (calm d)).1) (
    rw (unlock-returns (m ∷ []) (failed_effect m reason d).1)
      (rw h (twice_unlocked m d.user_balance)))
