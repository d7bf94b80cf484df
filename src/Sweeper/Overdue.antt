-- ===== src/Sweeper/Overdue.antt =====
-- A sweep with its query.
use mathlib.Core.Logic.{◌∨₁◌, ∨₁_prop}
use mathlib.Core.Logic.Or
use settlement_engine.Prelude.{
  ℕ, ◌≡◌, refl, String, false, some, List, length, All, any, str_eq, eq_iff,
}
use settlement_engine.Prelude.Members.{any-of_mem}
use settlement_engine.Database.Tables.{Db, is_pending_id}
use settlement_engine.Database.Effect.{calm}
use settlement_engine.Database.PendingSweep.{StuckMatch}
use settlement_engine.Database.StuckMatches.{Sources, find_stuck_pending_matches}
use settlement_engine.Database.StuckMatches.Oldest.{OrdersByAge, IsStuck, Older, stuck-IsReached}
use settlement_engine.Contract.Settled.{CallResult}
use settlement_engine.Sweeper.{sweep_overdue}
use settlement_engine.Sweeper.Reads.{read}
use settlement_engine.Sweeper.Rescue.{sweep_rescues}

-- While no query fails: a match that has been PENDING for longer than the threshold and is not settled on
-- the chain is not PENDING after a sweep, or the sweep has as many candidates as a batch holds, none of
-- them younger than the match.
pub overdue_match_resolved :
    {order_by : List StuckMatch → List StuckMatch} (sorts : OrdersByAge order_by)
    (uuid_to_bytes32 : String → String) (is_settled : String → CallResult)
    (now threshold batch_size : ℕ) (t : Sources) (d : Db) (s : StuckMatch)
    → IsStuck now threshold t s
    → read uuid_to_bytes32 is_settled s.id ≡ some false
    → (any
          (is_pending_id s.id)
          (sweep_overdue order_by uuid_to_bytes32 is_settled now threshold batch_size t
            (calm d)).1.db.matches
        ≡ false)
      ∨₁ ((length (find_stuck_pending_matches order_by now threshold batch_size t) ≡ batch_size)
          × All (λ c. Older c s) (find_stuck_pending_matches order_by now threshold batch_size t))
unfolding sweep_overdue
overdue_match_resolved {order_by} sorts uuid_to_bytes32 is_settled now threshold batch_size t d s q
      e =
    let found = find_stuck_pending_matches order_by now threshold batch_size t in
    Or.elim ∨₁_prop (stuck-IsReached sorts now threshold batch_size t s q)
      (λ m. Or.inl (
        sweep_rescues uuid_to_bytes32 is_settled found d s.id
          (any-of_mem (λ c. str_eq c.id s.id) found m ((eq_iff s.id s.id).1 refl)) e))
      (λ full. Or.inr full)
