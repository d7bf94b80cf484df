-- ===== src/Sweeper/Rescue.antt =====
-- Which matches a sweep resolves.
use mathlib.Core.Path.{subst}
use settlement_engine.Prelude.{
  ◌≡◌, refl, ap, ◌∙◌, sym, String, Bool, true, false, Option, none, some, List, [], ◌∷◌, arith, any,
  str_eq, eq_iff, inl, inr, Bool-cases, map, update_where,
}
use settlement_engine.Exec.{Result}
use settlement_engine.Database.Tables.{Db, MatchRow, is_pending_id, to_failed}
use settlement_engine.Database.Connection.{PgError, Session}
use settlement_engine.Database.Effect.{calm}
use settlement_engine.Database.Gate.{any-update_where}
use settlement_engine.Database.PendingSweep.{StuckMatch, sweeper_failure_reason}
use settlement_engine.Contract.Settled.{CallResult, check_matches_settled_on_chain, settled_of}
use settlement_engine.Sweeper.{SweepResult, no_counts, sweep_match, sweep_from, sweep}
use settlement_engine.Sweeper.Reads.{read}
use settlement_engine.Sweeper.Counters.{Agrees, checked-Agrees, status_of}
use settlement_engine.Sweeper.Spares.{remediation_effect, remediation_transaction, sweep_from-keeps}

stays_resolved :
    (i j reason : String) (rows : List MatchRow)
    → any (is_pending_id i) rows ≡ false
    → any (is_pending_id i) (update_where (is_pending_id j) (to_failed reason) rows) ≡ false
stays_resolved i j reason [] h = refl
stays_resolved i j reason (x ∷ rows) h = ground (arith, stays_resolved i j reason rows)

effect-pending :
    (i : String) (m : StuckMatch) (d : Db)
    → any (is_pending_id i) d.matches ≡ false
    → any (is_pending_id i) (remediation_effect m d).1.matches ≡ false
effect-pending i m d h = elim (Bool-cases (any (is_pending_id m.id) d.matches)) [
  | inl e ↦ rw e (stays_resolved i m.id sweeper_failure_reason d.matches h)
  | inr e ↦ rw e h
]

effect-own_pending :
    (m : StuckMatch) (d : Db) → any (is_pending_id m.id) (remediation_effect m d).1.matches ≡ false
effect-own_pending m d = elim (Bool-cases (any (is_pending_id m.id) d.matches)) [
  | inl e ↦ rw e (
      any-update_where (is_pending_id m.id) (to_failed sweeper_failure_reason) d.matches
        (λ x. ground arith))
  | inr e ↦ rw e e
]

-- one round where no query fails
abbrev calm_effect : Option Bool → StuckMatch → Db → Db
calm_effect (some false) m d = (remediation_effect m d).1
calm_effect _ m d = d

match-returns :
    (o : Option Bool) (m : StuckMatch) (c : SweepResult) (d : Db)
    → (sweep_match o m c (calm d)).1 ≡ calm (calm_effect o m d)
unfolding sweep_match
match-returns none m c d = refl
match-returns (some true) m c d = refl
match-returns (some false) m c d =
    ap (λ (r : Result PgError Bool × Session). r.1) (remediation_transaction m (calm d)).1

module _ (status : StuckMatch → Option Bool) (settled_map : List (String × Bool)) (i : String)
    (stuck : (m : StuckMatch) → str_eq m.id i ≡ true → status m ≡ some false) where
  sweep_from-reaches :
      (ms : List StuckMatch) (c : SweepResult) (d : Db)
      → Agrees status settled_map ms
      → any (λ m. str_eq m.id i) ms ≡ true
      → any (is_pending_id i) (sweep_from settled_map ms c (calm d)).1.db.matches ≡ false
  unfolding sweep_from
  sweep_from-reaches [] c d a h = cc h
  sweep_from-reaches (m ∷ rest) c d a h =
      let o = settled_of m.id settled_map in
      let c' = (sweep_match o m c (calm d)).0 in
      subst
        (λ (t : Session).
          any (is_pending_id i) (sweep_from settled_map rest c' t).1.db.matches ≡ false)
        (sym (match-returns o m c d))
        (elim (Bool-cases (str_eq m.id i)) [
          | inl e ↦
              sweep_from-keeps (λ x. any (is_pending_id i) x.matches ≡ false) status settled_map
                (λ k x q g. effect-pending i k x g) rest c' (calm (calm_effect o m d)) a.1
                (rw (sym a.0 ∙ stuck m e) (
                  subst (λ j. any (is_pending_id j) (remediation_effect m d).1.matches ≡ false)
                    ((eq_iff m.id i).0 e) (effect-own_pending m d)))
          | inr e ↦ sweep_from-reaches rest c' (calm_effect o m d) a.1 (rw e at h)
        ])

module _ (uuid_to_bytes32 : String → String) (is_settled : String → CallResult) where
  -- Where no query fails, a candidate that is read as unsettled is pending no more after the sweep.
  pub sweep_rescues :
      (ms : List StuckMatch) (d : Db) (i : String)
      → any (λ m. str_eq m.id i) ms ≡ true
      → read uuid_to_bytes32 is_settled i ≡ some false
      → any (is_pending_id i) (sweep uuid_to_bytes32 is_settled ms (calm d)).1.db.matches ≡ false
  unfolding sweep
  sweep_rescues [] d i h e = cc h
  sweep_rescues (m ∷ rest) d i h e =
      sweep_from-reaches (status_of uuid_to_bytes32 is_settled)
        (check_matches_settled_on_chain uuid_to_bytes32 is_settled (map (λ c. c.id) (m ∷ rest))) i
        (λ k q. ap (read uuid_to_bytes32 is_settled) ((eq_iff k.id i).0 q) ∙ e) (m ∷ rest)
        (no_counts _) d
        (checked-Agrees uuid_to_bytes32 is_settled (m ∷ rest) (map (λ c. c.id) (m ∷ rest))
          (λ j q. q))
        h
