-- ===== src/Database/WritebackBatch.antt =====
-- The writeback of a batch: a match that fails does not stop the rest, and the counters account for
-- the matches that were selected.
use settlement_engine.Prelude.{
  ℕ, ◌+◌, ◌≤◌, String, Bool, true, false, List, [], ◌∷◌, arith, any, count_where, ◌&&◌, str_eq,
  if◌then◌else◌, inl, inr, Bool-cases,
}
use settlement_engine.Exec.{Result, ok, err}
use settlement_engine.Schemas.{Match}
use settlement_engine.Database.Tables.{Db}
use settlement_engine.Database.Connection.{PgError, Session, with_transaction}
use settlement_engine.Database.LockRelease.{
  WritebackResult, tally, apply_match_settlement_writeback, writeback_one, writeback_from,
  writeback_settled_matches,
}
use settlement_engine.Database.Writeback.{settled_effect}

abbrev pub is_selected : List String → Match → Bool
is_selected ids m = any (str_eq m.match_id) ids

abbrev pub handled : WritebackResult → ℕ
handled c = c.settled + c.already_settled

handled-tally :
    (r : Result PgError Bool) (c : WritebackResult) → handled (tally r c) ≤ handled c + 1
handled-tally (ok true) c = omega arith
handled-tally (ok false) c = omega arith
handled-tally (err e) c = omega arith

handled-one :
    (ids : List String) (tx_hash : String) (m : Match) (c : WritebackResult) (s : Session)
    → handled (writeback_one ids tx_hash m c s).0 ≤ handled c + (if is_selected ids m then 1 else 0)
unfolding writeback_one
handled-one ids tx_hash m c s = elim (Bool-cases (is_selected ids m)) [
  | inl e ↦
      rw e (handled-tally (with_transaction (apply_match_settlement_writeback m tx_hash) s).0 c)
  | inr e ↦ rw e (omega arith)
]

handled-from :
    (ids : List String) (tx_hash : String) (ms : List Match) (c : WritebackResult) (s : Session)
    → handled (writeback_from ids tx_hash ms c s).0 ≤ handled c + count_where (is_selected ids) ms
unfolding writeback_from
handled-from ids tx_hash [] c s = omega arith
handled-from ids tx_hash (m ∷ rest) c s =
    let (c', s') = writeback_one ids tx_hash m c s in
    omega (arith, handled-one ids tx_hash m c s, handled-from ids tx_hash rest c' s')

-- Whatever queries fail, the matches counted as settled and as already settled are at most the
-- selected ones.
pub writeback_counts_bounded :
    (ms : List Match) (ids : List String) (tx_hash : String) (s : Session)
    → handled (writeback_settled_matches ms ids tx_hash s).0 ≤ count_where (is_selected ids) ms
unfolding writeback_settled_matches
writeback_counts_bounded ms ids tx_hash s =
    omega (arith, handled-from ids tx_hash ms (record { settled = 0; already_settled = 0 }) s)

-- one round where no query fails
abbrev one_effect : List String → String → Match → Db → Db
one_effect ids tx_hash m d = if is_selected ids m then (settled_effect m tx_hash d).1 else d

module _ (ids : List String) (tx_hash : String) (i : String) where
  abbrev reaches : List Match → Bool
  reaches = any (λ m. str_eq m.match_id i && is_selected ids m)
