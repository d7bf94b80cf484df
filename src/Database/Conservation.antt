-- ===== src/Database/Conservation.antt =====
-- The sum of all `in_orders` under the three resolutions of a match.
use settlement_engine.Prelude.{
  ℕ, ◌+◌, ◌≤◌, ◌≡◌, refl, true, List, [], ◌∷◌, map, ap, ◌∙◌, arith, All,
}
use settlement_engine.Exec.{ok}
use settlement_engine.Schemas.{Match}
use settlement_engine.Database.Tables.{Db, BalanceRow, is_pending_id}
use settlement_engine.Database.Connection.{Session}
use settlement_engine.Database.LockRelease.{split_trade_fees}
use settlement_engine.Database.OrderFailure.{lender_unlock, borrower_unlock}
use settlement_engine.Database.Locks.{share_of, unlocked}
use settlement_engine.Database.Gate.{flipped, gated_done}
use settlement_engine.Database.Once.{effect_of_ok}
use settlement_engine.Database.Resolution.{
  Resolution, write_back, quarantine, remediate, resolve, resolved, resolution_work,
  resolution_effect, resolve-AllOrNothing,
}

abbrev pub total_in_orders : List BalanceRow → ℕ
total_in_orders [] = 0
total_in_orders (r ∷ rows) = r.in_orders + total_in_orders rows

-- what a match holds of a row: the lender's lock, the borrower's, or both
abbrev pub held : Match → BalanceRow → ℕ
held m r = share_of (lender_unlock m) r + share_of (borrower_unlock m) r

abbrev pub total_held : Match → List BalanceRow → ℕ
total_held m [] = 0
total_held m (r ∷ rows) = held m r + total_held m rows

-- every row still has what the match holds of it
abbrev pub Covers : Match → List BalanceRow → Type 0
Covers m = All (λ r. held m r ≤ r.in_orders)

total-unlocked :
    (m : Match) (rows : List BalanceRow)
    → Covers m rows
    → total_in_orders rows
      ≡ total_in_orders (map (unlocked (lender_unlock m) (borrower_unlock m)) rows)
        + total_held m rows
total-unlocked m [] h = omega arith
total-unlocked m (r ∷ rows) h = omega (arith, total-unlocked m rows h.1, h.0)

pub work-balances :
    (r : Resolution) (m : Match) (d : Db)
    → (resolution_work r m d).user_balance
      ≡ map (unlocked (lender_unlock m) (borrower_unlock m)) d.user_balance
unfolding split_trade_fees
work-balances (write_back _) m d = refl
work-balances (quarantine _) m d = refl
work-balances remediate m d = refl

-- Where each row still has what the match held of it: a resolution that reports that it has acted takes
-- from each row exactly that, and the sum of all `in_orders` falls by exactly the sum held.
pub resolve_releases_held :
    (r : Resolution) (m : Match) (s : Session)
    → (resolve r m s).0 ≡ ok true
    → Covers m s.db.user_balance
    → let after = (resolve r m s).1.db.user_balance in
      (after ≡ map (unlocked (lender_unlock m) (borrower_unlock m)) s.db.user_balance)
      × (total_in_orders s.db.user_balance ≡ total_in_orders after + total_held m s.db.user_balance)
resolve_releases_held r m s done covered =
    (each, rw each (total-unlocked m s.db.user_balance covered))
  where
    each :
        (resolve r m s).1.db.user_balance
        ≡ map (unlocked (lender_unlock m) (borrower_unlock m)) s.db.user_balance
    each =
        ap (λ (d : Db). d.user_balance)
          (gated_done (is_pending_id m.match_id) (resolved r) (resolution_work r m) s.db
            (resolve r m s).1.db
            (effect_of_ok (resolution_effect r m) s.db true (resolve r m s)
              (resolve-AllOrNothing r m s) done))
        ∙ work-balances r m (flipped (is_pending_id m.match_id) (resolved r) s.db)
