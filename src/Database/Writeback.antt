-- ===== src/Database/Writeback.antt =====
-- The writeback of a settled match, against a description of the database before and after.
use settlement_engine.Prelude.{◌≡◌, String, Bool, true}
use settlement_engine.Exec.{ok}
use settlement_engine.Schemas.{Match}
use settlement_engine.Database.Tables.{Db, is_pending_id, to_settled}
use settlement_engine.Database.Connection.{Session, with_transaction}
use settlement_engine.Database.Effect.{
  Does, Does-pure, Does-bind, AllOrNothing, with_transaction-AllOrNothing, with_transaction-Does,
  calm,
}
use settlement_engine.Database.LockRelease.{
  lender_release, borrower_release, apply_match_settlement_writeback,
}
use settlement_engine.Database.Locks.{unlock_both, Does-ordered}
use settlement_engine.Database.Gate.{gated_effect, Does-gated}

-- Where some row of the match is pending: it becomes settled, and each balance row loses its share.
abbrev pub settled_effect : Match → String → Db → Bool × Db
settled_effect m tx_hash =
    gated_effect (is_pending_id m.match_id) (to_settled tx_hash)
      (unlock_both (lender_release m) (borrower_release m))

pub writeback-Does :
    (m : Match) (tx_hash : String)
    → Does (apply_match_settlement_writeback m tx_hash) (settled_effect m tx_hash)
unfolding apply_match_settlement_writeback
writeback-Does m tx_hash =
    Does-gated (is_pending_id m.match_id) (to_settled tx_hash)
      (unlock_both (lender_release m) (borrower_release m))
      (Does-bind (Does-ordered (lender_release m) (borrower_release m)) λ _. Does-pure true)

-- The writeback transaction either throws and leaves the database alone, or acts as `settled_effect`;
-- and where no query fails it returns.
pub writeback_transaction :
    (m : Match) (tx_hash : String) (s : Session)
    → AllOrNothing
        (settled_effect m tx_hash)
        s.db
        (with_transaction (apply_match_settlement_writeback m tx_hash) s)
      × (with_transaction (apply_match_settlement_writeback m tx_hash) (calm s.db)
          ≡ (ok (settled_effect m tx_hash s.db).0, calm (settled_effect m tx_hash s.db).1))
writeback_transaction m tx_hash s = (
  with_transaction-AllOrNothing (writeback-Does m tx_hash) s,
  (with_transaction-Does (writeback-Does m tx_hash)).returns s.db,
)
