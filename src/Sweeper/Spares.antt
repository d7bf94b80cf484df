-- ===== src/Sweeper/Spares.antt =====
-- Which matches a sweep leaves alone.
use mathlib.Core.Path.{subst}
use settlement_engine.Prelude.{
  ◌≡◌, ◌≢◌, refl, ap, ◌∙◌, sym, String, Bool, true, false, Option, none, some, List, [], ◌∷◌, arith,
  any, str_eq, eq_iff, inl, inr, Bool-cases, map, if◌then◌else◌, keep, update_where,
}
use settlement_engine.Exec.{Result, ok, err}
use settlement_engine.Schemas.{Match}
use settlement_engine.Database.Tables.{Db, MatchRow, has_id, is_pending_id, to_failed}
use settlement_engine.Database.Connection.{PgError, Session}
use settlement_engine.Database.Effect.{AllOrNothing, calm}
use settlement_engine.Database.PendingSweep.{
  StuckMatch, remediate_unsettled_match, sweeper_failure_reason,
}
use settlement_engine.Database.Failure.{
  failed_effect, quarantine_transaction, remediate-eq-quarantine,
}
use settlement_engine.Contract.Settled.{CallResult, check_matches_settled_on_chain, settled_of}
use settlement_engine.Sweeper.{SweepResult, no_counts, sweep_match, sweep_from, sweep}
use settlement_engine.Sweeper.Reads.{read}
use settlement_engine.Sweeper.Counters.{Agrees, checked-Agrees, status_of}

-- a match with the fields of a candidate; the others play no part
abbrev match_of : StuckMatch → Match
match_of m = record {
  match_id = m.id;
  market_id = "";
  lend_order_id = m.lend_order_id;
  borrow_order_id = m.borrow_order_id;
  lender_wallet = m.lender_wallet;
  borrower_wallet = m.borrower_wallet;
  matched_amount = m.matched_amount;
  rate = 0;
  loan_token = m.loan_token;
  maturity = 0;
  timestamp = 0;
  borrower_is_taker = m.borrower_is_taker;
  maker_fee_amount = m.maker_fee;
  taker_fee_amount = m.taker_fee;
  lender_settlement_fee_amount = m.lender_settlement_fee;
  borrower_settlement_fee_amount = m.borrower_settlement_fee;
}

abbrev pub remediation_effect : StuckMatch → Db → Bool × Db
remediation_effect m = failed_effect (match_of m) sweeper_failure_reason

pub remediation_transaction :
    (m : StuckMatch) (s : Session)
    → AllOrNothing (remediation_effect m) s.db (remediate_unsettled_match m s)
      × (remediate_unsettled_match m (calm s.db)
          ≡ (ok (remediation_effect m s.db).0, calm (remediation_effect m s.db).1))
unfolding remediate_unsettled_match
remediation_transaction m s = (
  rw (remediate-eq-quarantine (match_of m) s)
      (quarantine_transaction (match_of m) sweeper_failure_reason s).0,
  remediate-eq-quarantine (match_of m) (calm s.db)
      ∙ (quarantine_transaction (match_of m) sweeper_failure_reason s).1,
)

-- a property of the database that each remediation of the sweep keeps
module _ (Q : Db → Type 0) (status : StuckMatch → Option Bool) (settled_map : List (String × Bool))
    (step : (m : StuckMatch) (d : Db)
      → status m ≡ some false
      → Q d
      → Q (remediation_effect m d).1) where
  outcome-keeps :
      (f : Db → Bool × Db) (d : Db) (o : Result PgError Bool × Session)
      → AllOrNothing f d o
      → Q d
      → Q (f d).1
      → Q o.1.db
  outcome-keeps f d (ok b, s) h before after = subst (λ (p : Bool × Db). Q p.1) (sym h) after
  outcome-keeps f d (err e, s) h before after = subst Q (sym h) before

  match-keeps :
      (o : Option Bool) (m : StuckMatch) (c : SweepResult) (s : Session)
      → status m ≡ o
      → Q s.db
      → Q (sweep_match o m c s).1.db
  unfolding sweep_match
  match-keeps none m c s e h = h
  match-keeps (some true) m c s e h = h
  match-keeps (some false) m c s e h =
      outcome-keeps (remediation_effect m) s.db (remediate_unsettled_match m s)
        (remediation_transaction m s).0 h (step m s.db e h)

  pub sweep_from-keeps :
      (ms : List StuckMatch) (c : SweepResult) (s : Session)
      → Agrees status settled_map ms
      → Q s.db
      → Q (sweep_from settled_map ms c s).1.db
  unfolding sweep_from
  sweep_from-keeps [] c s a h = h
  sweep_from-keeps (m ∷ rest) c s a h =
      let o = settled_of m.id settled_map in
      sweep_from-keeps rest (sweep_match o m c s).0 (sweep_match o m c s).1 a.1
        (match-keeps o m c s a.0 h)

keep-update_other :
    (i j reason : String) (rows : List MatchRow)
    → str_eq j i ≡ false
    → keep (has_id i) (update_where (is_pending_id j) (to_failed reason) rows)
      ≡ keep (has_id i) rows
keep-update_other i j reason [] ne = refl
keep-update_other i j reason (x ∷ rows) ne = elim (Bool-cases (str_eq x.id j)) [
  | inl e ↦
      (let other : str_eq x.id i ≡ false =
          subst (λ k. str_eq k i ≡ false) (sym ((eq_iff x.id j).0 e)) ne in
        ground (arith, e, other, keep-update_other i j reason rows ne))
  | inr e ↦ rw e (
      ap (λ (l : List MatchRow). if str_eq x.id i then x ∷ l else l)
        (keep-update_other i j reason rows ne))
]

effect-other :
    (i : String) (m : StuckMatch) (d : Db)
    → str_eq m.id i ≡ false
    → keep (has_id i) (remediation_effect m d).1.matches ≡ keep (has_id i) d.matches
effect-other i m d ne = elim (Bool-cases (any (is_pending_id m.id) d.matches)) [
  | inl e ↦ rw e (keep-update_other i m.id sweeper_failure_reason d.matches ne)
  | inr e ↦ rw e refl
]

module _ (uuid_to_bytes32 : String → String) (is_settled : String → CallResult) where
  -- The rows of a match that the chain does not report as unsettled (it is settled there, or its read
  -- fails) stay as they are, whatever queries fail.
  pub sweep_spares :
      (ms : List StuckMatch) (s : Session) (i : String)
      → read uuid_to_bytes32 is_settled i ≢ some false
      → keep (has_id i) (sweep uuid_to_bytes32 is_settled ms s).1.db.matches
        ≡ keep (has_id i) s.db.matches
  unfolding sweep
  sweep_spares [] s i ne = refl
  sweep_spares (m ∷ rest) s i ne =
      sweep_from-keeps (λ d. keep (has_id i) d.matches ≡ keep (has_id i) s.db.matches)
        (status_of uuid_to_bytes32 is_settled)
        (check_matches_settled_on_chain uuid_to_bytes32 is_settled (map (λ c. c.id) (m ∷ rest)))
        (λ k d e h. effect-other i k d (other k e) ∙ h) (m ∷ rest) (no_counts _) s
        (checked-Agrees uuid_to_bytes32 is_settled (m ∷ rest) (map (λ c. c.id) (m ∷ rest))
          (λ j q. q))
        refl
    where
      other :
          (k : StuckMatch)
          → status_of uuid_to_bytes32 is_settled k ≡ some false
          → str_eq k.id i ≡ false
      other k e = elim (Bool-cases (str_eq k.id i)) [
        | inl q ↦ absurd (ne (sym (ap (read uuid_to_bytes32 is_settled) ((eq_iff k.id i).0 q)) ∙ e))
        | inr q ↦ q
      ]
