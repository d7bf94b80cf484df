-- ===== src/Poison/Verdict.antt =====
-- What the isolation decides, and when it refuses to decide.
use settlement_engine.Prelude.{
  ◌≡◌, refl, String, Bool, true, false, not, Option, none, some, List, [], ◌∷◌, map, any, keep,
  Option-cases, Bool-cases, inl, inr, ap, sym, ◌⊎◌, ◌∙◌,
}
use settlement_engine.Exec.{Result, ok, err}
use settlement_engine.Schemas.{MatchWithMeta}
use settlement_engine.Contract.Errors.{SettlementError, Thrown}
use settlement_engine.Contract.Encode.{MatchData, CollateralMap}
use settlement_engine.Poison.{
  PoisonIsolationResult, Outcome, find_transient, sort_outcomes, probe, outcomes_of,
  simulate_settle_batch, reason_of, revalidated, conclude, simulate_matches_for_poison,
}

abbrev pub is_none : {A : Type 0} → Option A → Bool
is_none none = true
is_none (some _) = false

abbrev pub is_retryable : Option SettlementError → Bool
is_retryable none = false
is_retryable (some e) = e.retryable

module _ (uuid_to_bytes32 : String → String) (collateral : CollateralMap)
    (simulate_match : MatchData → Option Thrown) where
  -- the match dry-ran clean; its dry run failed by something that passes
  abbrev pub is_clean : MatchWithMeta → Bool
  is_clean m = is_none (probe uuid_to_bytes32 collateral simulate_match m)

  abbrev pub is_transient : MatchWithMeta → Bool
  is_transient m = is_retryable (probe uuid_to_bytes32 collateral simulate_match m)

  abbrev outcomes : List MatchWithMeta → List Outcome
  outcomes = outcomes_of uuid_to_bytes32 collateral simulate_match

  sort-survivors :
      (ms : List MatchWithMeta) (reasons : List (String × String))
      → ((sort_outcomes (outcomes ms) reasons).survivors ≡ keep is_clean ms)
        × ((sort_outcomes (outcomes ms) reasons).poison ≡ keep (λ m. not (is_clean m)) ms)
  unfolding sort_outcomes outcomes_of
  sort-survivors [] reasons = (refl, refl)
  sort-survivors (m ∷ rest) reasons =
      elim (Option-cases (probe uuid_to_bytes32 collateral simulate_match m)) [
        | inl e ↦ rw e (
          ap (λ (l : List MatchWithMeta). m ∷ l) (sort-survivors rest reasons).0,
          (sort-survivors rest reasons).1,
        )
        | inr (x, e) ↦ rw e (
          (sort-survivors rest ((m.id, reason_of x) ∷ reasons)).0,
          ap (λ (l : List MatchWithMeta). m ∷ l)
              (sort-survivors rest ((m.id, reason_of x) ∷ reasons)).1,
        )
      ]

  -- what `find` says of the probes
  abbrev Found : List MatchWithMeta → Option SettlementError → Type 0
  Found ms none = any is_transient ms ≡ false
  Found ms (some e) = e.retryable ≡ true

  find-Found : (ms : List MatchWithMeta) → Found ms (find_transient (outcomes ms))
  unfolding find_transient outcomes_of
  find-Found [] = refl
  find-Found (m ∷ rest) =
      go (find-Found rest) (probe uuid_to_bytes32 collateral simulate_match m) refl
    where
      later :
          (o : Option SettlementError) → is_transient m ≡ false → Found rest o → Found (m ∷ rest) o
      later none e h = rw e h
      later (some x) e h = h

      go :
          Found rest (find_transient (outcomes rest))
          → (o : Option SettlementError) → probe uuid_to_bytes32 collateral simulate_match m ≡ o
          → Found (m ∷ rest) (find_transient (outcomes (m ∷ rest)))
      go ih none e = rw e (later (find_transient (outcomes rest)) (ap is_retryable e) ih)
      go ih (some x) e = elim (Bool-cases x.retryable) [
        | inl r ↦ rw e (simp r)
        | inr r ↦ rw e (rw r (later (find_transient (outcomes rest)) (ap is_retryable e ∙ r) ih))
      ]

  module _ (simulate_survivors : List MatchData → Option Thrown) where
    -- whether the survivors settle together
    abbrev pub survive_together : List MatchWithMeta → Bool
    survive_together ms = is_none (
        simulate_settle_batch uuid_to_bytes32 collateral simulate_survivors
          (map (λ m. m.payload) ms))

    abbrev pub Verdict : List MatchWithMeta → Result SettlementError PoisonIsolationResult → Type 0
    Verdict ms (ok r) =
        (any is_transient ms ≡ false)
        × (r.survivors ≡ keep is_clean ms)
        × (r.poison ≡ keep (λ m. not (is_clean m)) ms)
        × (r.survivors_simulate_clean ≡ survive_together r.survivors)
    Verdict ms (err e) = e.retryable ≡ true

    revalidate-Verdict :
        (ms : List MatchWithMeta) (r : PoisonIsolationResult)
        → any is_transient ms ≡ false
        → r.survivors ≡ keep is_clean ms
        → r.poison ≡ keep (λ m. not (is_clean m)) ms
        → (o : Option SettlementError)
        → simulate_settle_batch uuid_to_bytes32 collateral simulate_survivors
            (map (λ m. m.payload) r.survivors)
          ≡ o
        → Verdict ms (revalidated r o)
    revalidate-Verdict ms r none_transient s p none e = (none_transient, s, p, sym (ap is_none e))
    revalidate-Verdict ms r none_transient s p (some x) e = go (Bool-cases x.retryable)
      where
        go : (x.retryable ≡ true) ⊎ (x.retryable ≡ false) → Verdict ms (revalidated r (some x))
        go (inl t) = simp t
        go (inr t) = simp t (none_transient, s, p, sym (ap is_none e))

    -- A verdict is given only if no dry run of a single match failed by something that passes; then the
    -- survivors are the matches whose dry run was clean, the poison is the others, both in order, and
    -- the flag tells whether the survivors dry-run clean together. Else the error is retryable.
    pub simulate_matches_for_poison-Verdict :
        (ms : List MatchWithMeta)
        → Verdict ms (
            simulate_matches_for_poison uuid_to_bytes32 collateral simulate_match simulate_survivors
              ms)
    unfolding simulate_matches_for_poison
    simulate_matches_for_poison-Verdict ms = go (find_transient (outcomes ms)) (find-Found ms)
      where
        go :
            (o : Option SettlementError)
            → Found ms o
            → Verdict ms (conclude uuid_to_bytes32 collateral simulate_survivors (outcomes ms) o)
        go none h =
            revalidate-Verdict ms (sort_outcomes (outcomes ms) []) h (sort-survivors ms []).0
              (sort-survivors ms []).1
              (simulate_settle_batch uuid_to_bytes32 collateral simulate_survivors
                (map (λ m. m.payload) (sort_outcomes (outcomes ms) []).survivors))
              refl
        go (some x) h = h
