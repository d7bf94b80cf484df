-- ===== src/Batch/Acks/Failing.antt =====
-- A batch that fails has acknowledged nothing that is still to be settled.
use mathlib.Core.Path.{subst}
use settlement_engine.Prelude.{
  sym, ◌≡◌, refl, Bool, true, false, not, Option, none, some, List, [], ◌∷◌, All, keep,
}
use settlement_engine.Exec.{Result, ok, err, continue, ◌>>=◌}
use settlement_engine.Schemas.{MatchWithMeta}
use settlement_engine.Contract.Settle.{settle_batch}
use settlement_engine.Database.ApplySettlement.{apply_settlement_result}
use settlement_engine.Redis.{xtrim}
use settlement_engine.Contract.Errors.{SettlementError}
use settlement_engine.Contract.Encode.{CollateralMap}
use settlement_engine.Contract.Settled.{FilterAlreadySettledResult, filter_already_settled_matches}
use settlement_engine.Contract.Filter.{reported_settled, filter_splits}
use settlement_engine.Poison.{PoisonIsolationResult}
use settlement_engine.Poison.Verdict.{is_clean, Verdict, simulate_matches_for_poison-Verdict}
use settlement_engine.Batch.{
  BatchProcessingError, World, Environment, Raised, transient_error, wrap_error, batch, settlement,
  at_database, at_wallet, at_redis, payloads, ack_and_delete_entries, quarantine_poison_matches,
  wrap_isolation, survivors_error, read_collateral,
}
use settlement_engine.Batch.Process.{
  quarantine_if_any, isolate_by, after_dry_run, isolate_poison, settle_and_apply, finish_batch,
  process_unsettled, process_filtered, recover_settled, process_settlement_batch,
}
use settlement_engine.Batch.Acks.Commands.{Entry, entry_of}
use settlement_engine.Batch.Acks.Steps.{
  AckedAll, All-keep, All-map, weaken, Failing-bind, Failing-redis_then, Keeps, Keeps-acks,
  Keeps-bind, Keeps-collateral, Keeps-database, Keeps-if, Keeps-pure, Keeps-release, Keeps-throw,
  Keeps-try, Keeps-wallet, KeepsFailing, OnBatchError, no_batch_error,
}

-- the collateral map that a batch reads for its matches that are not settled, after the settled ones have
-- been recovered
abbrev pub map_of : Result Raised CollateralMap → CollateralMap
map_of (ok c) = c
map_of (err e) = []

abbrev pub collateral_of : Environment → List MatchWithMeta → World → CollateralMap
collateral_of env ms w =
    let split = filter_already_settled_matches env.chain.uuid_to_bytes32 env.is_settled ms in
    map_of (read_collateral split.unsettled (recover_settled env split.already_settled w).1).0

not-true : (b : Bool) → not b ≡ true → b ≡ false
not-true true e = sym e
not-true false e = refl

module _ (env : Environment) where
  -- the chain reports the match as settled; its own dry run is clean
  abbrev pub is_settled_match : MatchWithMeta → Bool
  is_settled_match = reported_settled env.chain.uuid_to_bytes32 env.is_settled

  abbrev pub runs_clean : CollateralMap → MatchWithMeta → Bool
  runs_clean c = is_clean env.chain.uuid_to_bytes32 c env.simulate_match

module _ (P : Entry → Type 0) (env : Environment) where
  -- the property holds of the entries of those matches whose own dry run is not clean
  abbrev Unclean : CollateralMap → List MatchWithMeta → Type 0
  Unclean c = All (λ m. runs_clean env c m ≡ false → P (entry_of m))

  Keeps-quarantine :
      (iso : PoisonIsolationResult)
      → All (λ m. P (entry_of m)) iso.poison
      → Keeps P (quarantine_if_any env iso)
  unfolding quarantine_poison_matches
  Keeps-quarantine iso h = go iso.poison h
    where
      go :
          (l : List MatchWithMeta)
          → All (λ m. P (entry_of m)) l
          → Keeps P (quarantine_if_any env (record iso { poison = l }))
      go [] k = Keeps-pure P tt
      go (m ∷ rest) k = Keeps-bind P (Keeps-database P _) (λ _. Keeps-acks P (m ∷ rest) k)

  poison-All :
      (c : CollateralMap) (ms : List MatchWithMeta)
      → Unclean c ms
      → All (λ m. P (entry_of m)) (keep (λ m. not (runs_clean env c m)) ms)
  poison-All c ms h =
      All-keep (λ m. P (entry_of m)) (λ m. not (runs_clean env c m)) ms
        (All-map (λ m. runs_clean env c m ≡ false → P (entry_of m))
          (λ m. not (runs_clean env c m) ≡ true → P (entry_of m))
          (λ m k e. k (not-true (runs_clean env c m) e)) ms h)

  Keeps-isolate_by :
      (e : SettlementError) (c : CollateralMap) (ms : List MatchWithMeta)
      → Unclean c ms
      → (r : Result SettlementError PoisonIsolationResult)
      → Verdict env.chain.uuid_to_bytes32 c env.simulate_match env.simulate_survivors ms r
      → Keeps P (isolate_by env e r)
  Keeps-isolate_by e c ms u (err x) v = Keeps-throw P (settlement x)
  Keeps-isolate_by e c ms u (ok iso) v =
      Keeps-bind P
        (Keeps-quarantine iso (subst (All (λ m. P (entry_of m))) (sym v.2) (poison-All c ms u)))
        (λ _.
          Keeps-if P iso.survivors_simulate_clean (Keeps-pure P iso.survivors)
            (Keeps-throw P (survivors_error e)))

  Keeps-after_dry_run :
      (ms : List MatchWithMeta) (c : CollateralMap) (o : Option SettlementError)
      → Unclean c ms
      → Keeps P (after_dry_run env ms c o)
  Keeps-after_dry_run ms c none u = Keeps-pure P ms
  Keeps-after_dry_run ms c (some e) u = Keeps-if P e.retryable (Keeps-throw P (transient_error e)) (
      Keeps-isolate_by e c ms u _ (
        simulate_matches_for_poison-Verdict env.chain.uuid_to_bytes32 c env.simulate_match
          env.simulate_survivors ms))

  Keeps-isolate :
      (ms : List MatchWithMeta) (c : CollateralMap)
      → Unclean c ms
      → Keeps P (isolate_poison env ms c)
  unfolding isolate_poison
  Keeps-isolate ms c u = Keeps-try P _ wrap_isolation (Keeps-after_dry_run ms c _ u)

  Keeps-settle : (ms : List MatchWithMeta) (c : CollateralMap) → Keeps P (settle_and_apply env ms c)
  unfolding settle_and_apply
  Keeps-settle ms c =
      Keeps-bind P
        (Keeps-try P (at_wallet (settle_batch env.chain (payloads ms) c))
          (wrap_error "Smart contract settlement failed: ") (Keeps-wallet P _))
        (λ r.
          Keeps-try P (at_database (apply_settlement_result env.effects r (payloads ms)))
            (wrap_error "Settlement apply failed: ") (Keeps-database P _))

  Failing-finish :
      (ms : List MatchWithMeta) (c : CollateralMap) → KeepsFailing P (finish_batch env ms c)
  Failing-finish [] c = record { at = λ w h. tt }
  Failing-finish (m ∷ rest) c = Failing-bind P (Keeps-settle (m ∷ rest) c) (λ _.
      Failing-redis_then P (ack_and_delete_entries (m ∷ rest)) (at_redis xtrim)
        (λ w. no_batch_error P xtrim w))

  unsettled-acks :
      (ms : List MatchWithMeta) (w : World)
      → Unclean (map_of (read_collateral ms w).0) ms
      → AckedAll P w
      → OnBatchError P (process_unsettled env ms w)
  unsettled-acks [] w u h = tt
  unsettled-acks (m ∷ rest) w u h =
      go (read_collateral (m ∷ rest) w) u ((Keeps-collateral P (m ∷ rest)).at w h)
    where
      go :
          (r : Result Raised CollateralMap × World)
          → Unclean (map_of r.0) (m ∷ rest)
          → AckedAll P r.1
          → OnBatchError P (
              continue r.0
                (λ c. do to_settle ← isolate_poison env (m ∷ rest) c; finish_batch env to_settle c)
                r.1)
      go (ok c, v) u k =
          (Failing-bind P (Keeps-isolate (m ∷ rest) c u) (λ ms. Failing-finish ms c)).at v k
      go (err e, v) u k = weaken P {A = Unit {0}} (err e, v) k

  Keeps-recover :
      (ms : List MatchWithMeta) → All (λ m. P (entry_of m)) ms → Keeps P (recover_settled env ms)
  Keeps-recover [] h = Keeps-pure P tt
  Keeps-recover (m ∷ rest) h =
      Keeps-bind P (Keeps-release P (m ∷ rest)) (λ _. Keeps-acks P (m ∷ rest) h)

  filtered-acks :
      (split : FilterAlreadySettledResult) (w : World)
      → All (λ m. P (entry_of m)) split.already_settled
      → Unclean
          (map_of
            (read_collateral split.unsettled (recover_settled env split.already_settled w).1).0)
          split.unsettled
      → AckedAll P w
      → OnBatchError P (process_filtered env split w)
  filtered-acks split w s u h =
      go (recover_settled env split.already_settled w) u
        ((Keeps-recover split.already_settled s).at w h)
    where
      go :
          (r : Result Raised (Unit {0}) × World)
          → Unclean (map_of (read_collateral split.unsettled r.1).0) split.unsettled
          → AckedAll P r.1
          → OnBatchError P (continue r.0 (λ _. process_unsettled env split.unsettled) r.1)
      go (ok a, v) u k = unsettled-acks split.unsettled v u k
      go (err e, v) u k = weaken P {A = Unit {0}} (err e, v) k

  batch-acks :
      (ms : List MatchWithMeta) (w : World)
      → All (λ m. is_settled_match env m ≡ true → P (entry_of m)) ms
      → All
          (λ m.
            is_settled_match env m ≡ false
            → runs_clean env (collateral_of env ms w) m ≡ false
            → P (entry_of m))
          ms
      → AckedAll P w
      → OnBatchError P (process_settlement_batch env ms w)
  unfolding process_settlement_batch
  batch-acks [] w s u h = tt
  batch-acks (m ∷ rest) w s u h =
      let ms = m ∷ rest in
      let c = collateral_of env ms w in
      let split = filter_already_settled_matches env.chain.uuid_to_bytes32 env.is_settled ms in
      let parts = filter_splits env.chain.uuid_to_bytes32 env.is_settled ms in
      filtered-acks split w
        (subst (All (λ m. P (entry_of m))) (sym parts.0)
          (All-keep (λ m. P (entry_of m)) (is_settled_match env) ms s))
        (subst (Unclean c) (sym parts.1) (
          All-keep (λ m. runs_clean env c m ≡ false → P (entry_of m))
            (λ m. not (is_settled_match env m)) ms
            (All-map
              (λ m. is_settled_match env m ≡ false → runs_clean env c m ≡ false → P (entry_of m))
              (λ m.
                not (is_settled_match env m) ≡ true → runs_clean env c m ≡ false → P (entry_of m))
              (λ m k e. k (not-true (is_settled_match env m) e)) ms u)))
        h

  -- Where a batch fails by an error of the processor's own, every entry that Redis holds as acknowledged has
  -- any property that held of the entries acknowledged before, and that holds of the entry of each match
  -- of the batch that the chain reports as settled, and of each other match of the batch whose own dry run
  -- under the collateral map that the batch reads is not clean.
  pub failing_batch_acks :
      (ms : List MatchWithMeta) (w : World) (b : BatchProcessingError)
      → All (λ m. is_settled_match env m ≡ true → P (entry_of m)) ms
      → All
          (λ m.
            is_settled_match env m ≡ false
            → runs_clean env (collateral_of env ms w) m ≡ false
            → P (entry_of m))
          ms
      → (process_settlement_batch env ms w).0 ≡ err (batch b)
      → All P w.redis.acked
      → All P (process_settlement_batch env ms w).1.redis.acked
  failing_batch_acks ms w b s u e h =
      go (process_settlement_batch env ms w) e (batch-acks ms w s u h)
    where
      go :
          (r : Result Raised (Unit {0}) × World)
          → r.0 ≡ err (batch b)
          → OnBatchError P r
          → AckedAll P r.1
      go (r, w') e k = unpath (sym e) k
        where
          unpath :
              {x : Result Raised (Unit {0})}
              → err (batch b) ≡ x
              → OnBatchError P (x, w')
              → AckedAll P w'
          unpath p = subst (λ x. OnBatchError P (x, w') → AckedAll P w') p (λ k. k)
