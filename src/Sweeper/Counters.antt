-- ===== src/Sweeper/Counters.antt =====
-- What the counters of a sweep say, and which matches it leaves alone.
use settlement_engine.Prelude.{
  ◌+◌, ◌≤◌, ◌≡◌, refl, ◌∙◌, sym, String, Bool, true, false, ◌||◌, Option, none, some, List, [], ◌∷◌,
  arith, any, str_eq, eq_iff, All, map, count_where, length,
}
use settlement_engine.Exec.{Result, ok, err}
use settlement_engine.Database.Connection.{PgError, Session}
use settlement_engine.Database.PendingSweep.{StuckMatch, remediate_unsettled_match}
use settlement_engine.Contract.Settled.{CallResult, check_matches_settled_on_chain, settled_of}
use settlement_engine.Sweeper.{
  SweepResult, no_counts, count_actioned, sweep_match, sweep_from, sweep,
}
use settlement_engine.Sweeper.Reads.{read, settled_of-checked}

abbrev pub is_unknown : Option Bool → Bool
is_unknown none = true
is_unknown (some b) = false

abbrev pub is_ghost : Option Bool → Bool
is_ghost (some true) = true
is_ghost _ = false

abbrev pub is_stuck : Option Bool → Bool
is_stuck (some false) = true
is_stuck _ = false

-- the counters of a loop that starts at `c` and meets `ms`
abbrev pub Counted :
    (StuckMatch → Option Bool) → List StuckMatch → SweepResult → SweepResult → Type 0
Counted status ms c r =
    (r.scanned ≡ c.scanned)
    × (r.skipped_unknown ≡ c.skipped_unknown + count_where (λ m. is_unknown (status m)) ms)
    × (r.ghost_settled ≡ c.ghost_settled + count_where (λ m. is_ghost (status m)) ms)
    × (r.failed_unlocked ≤ c.failed_unlocked + count_where (λ m. is_stuck (status m)) ms)

or_true : (b : Bool) → (b || true) ≡ true
or_true true = refl
or_true false = refl

count_actioned_bounds :
    (o : Result PgError Bool) (c : SweepResult)
    → let r = count_actioned o c in
      (r.scanned ≡ c.scanned)
      × (r.skipped_unknown ≡ c.skipped_unknown)
      × (r.ghost_settled ≡ c.ghost_settled)
      × (r.failed_unlocked ≤ c.failed_unlocked + 1)
count_actioned_bounds (ok true) c = (refl, refl, refl, omega arith)
count_actioned_bounds (ok false) c = (refl, refl, refl, omega arith)
count_actioned_bounds (err e) c = (refl, refl, refl, omega arith)

module _ (status : StuckMatch → Option Bool) (settled_map : List (String × Bool)) where
  -- the map says of each match what `status` says
  abbrev pub Agrees : List StuckMatch → Type 0
  Agrees = All (λ m. status m ≡ settled_of m.id settled_map)

  sweep_match-Counted :
      (o : Option Bool) (m : StuckMatch) (rest : List StuckMatch) (c : SweepResult) (s : Session)
      (r : SweepResult)
      → status m ≡ o
      → Counted status rest (sweep_match o m c s).0 r
      → Counted status (m ∷ rest) c r
  unfolding sweep_match
  sweep_match-Counted none m rest c s r e h =
      rw e (h.0, omega (arith, h.1), omega (arith, h.2), omega (arith, h.3))
  sweep_match-Counted (some true) m rest c s r e h =
      rw e (h.0, omega (arith, h.1), omega (arith, h.2), omega (arith, h.3))
  sweep_match-Counted (some false) m rest c s r e h =
      let b = count_actioned_bounds (remediate_unsettled_match m s).0 c in
      rw e (
        omega (arith, h.0, b.0),
        omega (arith, h.1, b.1),
        omega (arith, h.2, b.2),
        omega (arith, h.3, b.3),
      )

  sweep_from-Counted :
      (ms : List StuckMatch) (c : SweepResult) (s : Session)
      → Agrees ms
      → Counted status ms c (sweep_from settled_map ms c s).0
  unfolding sweep_from
  sweep_from-Counted [] c s a = (refl, omega arith, omega arith, omega arith)
  sweep_from-Counted (m ∷ rest) c s a =
      let o = settled_of m.id settled_map in
      sweep_match-Counted o m rest c s _ a.0
        (sweep_from-Counted rest (sweep_match o m c s).0 (sweep_match o m c s).1 a.1)

module _ (uuid_to_bytes32 : String → String) (is_settled : String → CallResult) where
  abbrev pub status_of : StuckMatch → Option Bool
  status_of m = read uuid_to_bytes32 is_settled m.id

  pub checked-Agrees :
      (ms : List StuckMatch) (ids : List String)
      → ((i : String)
          → any (λ j. str_eq j i) (map (λ m. m.id) ms) ≡ true
          → any (λ j. str_eq j i) ids ≡ true)
      → Agrees status_of (check_matches_settled_on_chain uuid_to_bytes32 is_settled ids) ms
  checked-Agrees [] ids h = tt
  checked-Agrees (m ∷ rest) ids h = (
    sym (
        settled_of-checked uuid_to_bytes32 is_settled m.id ids
        ∙ rw (h m.id (rw ((eq_iff m.id m.id).1 refl) refl)) refl),
    checked-Agrees rest ids (λ i q. h i (rw q (or_true (str_eq m.id i)))),
  )

  -- The counters of a sweep are those of the reads: the scanned matches are all candidates, those with
  -- a failed read are skipped, those reported as settled are the ghosts, and at most those reported as
  -- not settled were unlocked, whatever queries fail.
  pub sweep_counts :
      (ms : List StuckMatch) (s : Session)
      → Counted status_of ms (no_counts (length ms)) (sweep uuid_to_bytes32 is_settled ms s).0
  unfolding sweep
  sweep_counts [] s = (refl, refl, refl, omega arith)
  sweep_counts (m ∷ rest) s =
      sweep_from-Counted status_of
        (check_matches_settled_on_chain uuid_to_bytes32 is_settled (map (λ c. c.id) (m ∷ rest)))
        (m ∷ rest) (no_counts (length (m ∷ rest))) s
        (checked-Agrees (m ∷ rest) (map (λ c. c.id) (m ∷ rest)) (λ i q. q))
