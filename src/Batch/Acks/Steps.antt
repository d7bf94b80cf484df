-- ===== src/Batch/Acks/Steps.antt =====
-- The steps of a batch, seen through a property that every acknowledged entry has.
use settlement_engine.Prelude.{
  ◌≡◌, Bool, true, false, List, [], ◌∷◌, inl, inr, Bool-cases, All, if◌then◌else◌, keep, map,
  to_lower_case,
}
use settlement_engine.Exec.{Result, ok, err, pure, throw, continue, ◌>>=◌, ◌>>◌}
use settlement_engine.Schemas.{MatchWithMeta}
use settlement_engine.Redis.{Redis, RedisError, Command}
use settlement_engine.Contract.Errors.{Thrown}
use settlement_engine.Nonce.{NonceManager, Managed}
use settlement_engine.Database.Connection.{PgError, Session, Pg}
use settlement_engine.Database.CollateralFlags.{read_for_borrowers}
use settlement_engine.Contract.Encode.{CollateralMap, distinct_from}
use settlement_engine.Batch.{
  World, Raised, batch, settlement, database, other, redis, Step, at_database, at_wallet, at_redis,
  in_session, in_wallet, in_redis, try_catch, rethrow, or_empty, ack_and_delete_entries,
  release_locks_for_already_settled, read_collateral,
}
use settlement_engine.Batch.Acks.Commands.{Entry, entry_of, ack_and_delete-keeps}

module _ (P : Entry → Type 0) where
  abbrev pub AckedAll : World → Type 0
  AckedAll w = All P w.redis.acked

  pub record Keeps {A : Type 0} (m : Step A) : Type 0 where
    pub at : (w : World) → AckedAll w → AckedAll (m w).1

  -- the property of the acknowledged entries, where the step throws a `BatchProcessingError`
  abbrev pub OnBatchError : {A : Type 0} → Result Raised A × World → Type 0
  OnBatchError (err (batch b), w) = AckedAll w
  OnBatchError _ = Unit

  pub record KeepsFailing {A : Type 0} (m : Step A) : Type 0 where
    pub at : (w : World) → AckedAll w → OnBatchError (m w)

  module _ {A : Type 0} where
    pub weaken : (r : Result Raised A × World) → AckedAll r.1 → OnBatchError r
    weaken (err (batch b), w) h = h
    weaken (err (settlement e), w) h = tt
    weaken (err (database e), w) h = tt
    weaken (err (other e), w) h = tt
    weaken (err (redis e), w) h = tt
    weaken (ok a, w) h = tt

    pub Keeps-pure : (a : A) → Keeps (pure a)
    Keeps-pure a = record { at = λ w h. h }

    pub Keeps-throw : (e : Raised) → Keeps (throw {A = A} e)
    Keeps-throw e = record { at = λ w h. h }

    pub Keeps-try : (m : Step A) (wrap : Raised → Raised) → Keeps m → Keeps (try_catch m wrap)
    Keeps-try m wrap h = record { at = λ w k. go (m w) (h.at w k) }
      where
        go : (r : Result Raised A × World) → AckedAll r.1 → AckedAll (rethrow wrap r).1
        go (ok a, w) k = k
        go (err e, w) k = k

  module _ {A B : Type 0} where
    pub Keeps-bind :
        {m : Step A} {k : A → Step B} → Keeps m → ((a : A) → Keeps (k a)) → Keeps (m >>= k)
    Keeps-bind {m} {k} hm hk = record { at = λ w h. go (m w) (hm.at w h) }
      where
        go : (r : Result Raised A × World) → AckedAll r.1 → AckedAll (continue r.0 k r.1).1
        go (ok a, w) h = (hk a).at w h
        go (err e, w) h = h

    pub Failing-bind :
        {m : Step A} {k : A → Step B}
        → Keeps m
        → ((a : A) → KeepsFailing (k a))
        → KeepsFailing (m >>= k)
    Failing-bind {m} {k} hm hk = record { at = λ w h. go (m w) (hm.at w h) }
      where
        go : (r : Result Raised A × World) → AckedAll r.1 → OnBatchError (continue r.0 k r.1)
        go (ok a, w) h = (hk a).at w h
        go (err (batch b), w) h = h
        go (err (settlement e), w) h = tt
        go (err (database e), w) h = tt
        go (err (other e), w) h = tt
        go (err (redis e), w) h = tt

  -- a step on Redis alone throws no `BatchProcessingError`
  pub no_batch_error : (m : Command) (w : World) → OnBatchError (at_redis m w)
  no_batch_error m w = go w (m w.redis)
    where
      go : (w : World) (r : Result RedisError (Unit {0}) × Redis) → OnBatchError (in_redis w r)
      go w (ok a, c) = tt
      go w (err e, c) = tt

  pub Failing-redis_then :
      (m : Command) (k : Step (Unit {0}))
      → ((w : World) → OnBatchError (k w))
      → KeepsFailing (at_redis m >> k)
  Failing-redis_then m k always = record { at = λ w h. go w (m w.redis) }
    where
      go :
          (w : World) (r : Result RedisError (Unit {0}) × Redis)
          → OnBatchError (continue (in_redis w r).0 (λ _. k) (in_redis w r).1)
      go w (ok a, c) = always (record w { redis = c })
      go w (err e, c) = tt

  pub Keeps-acks :
      (ms : List MatchWithMeta)
      → All (λ m. P (entry_of m)) ms
      → Keeps (at_redis (ack_and_delete_entries ms))
  Keeps-acks ms h = record {
    at = λ w k. go w (ack_and_delete_entries ms w.redis) (ack_and_delete-keeps P ms w.redis h k);
  }
    where
      go :
          (w : World) (r : Result RedisError (Unit {0}) × Redis)
          → All P r.1.acked
          → AckedAll (in_redis w r).1
      go w (ok a, c) k = k
      go w (err e, c) k = k

  module _ {A : Type 0} where
    pub Keeps-database : (m : Pg A) → Keeps (at_database m)
    Keeps-database m = record { at = λ w h. go w h (m w.session) }
      where
        go :
            (w : World)
            → AckedAll w
            → (r : Result PgError A × Session) → AckedAll (in_session w r).1
        go w h (ok a, s) = h
        go w h (err e, s) = h

    pub Keeps-wallet : (m : Managed A) → Keeps (at_wallet m)
    Keeps-wallet m = record { at = λ w h. go w h (m w.nonce_manager) }
      where
        go :
            (w : World)
            → AckedAll w
            → (r : Result Thrown A × NonceManager) → AckedAll (in_wallet w r).1
        go w h (ok a, n) = h
        go w h (err e, n) = h

    pub Keeps-if : (b : Bool) {m k : Step A} → Keeps m → Keeps k → Keeps (if b then m else k)
    Keeps-if true h k = h
    Keeps-if false h k = k

  abbrev pub wallets_read : List MatchWithMeta → Pg CollateralMap
  wallets_read ms =
      read_for_borrowers (distinct_from [] (map (λ m. to_lower_case m.payload.borrower_wallet) ms))

  pub Keeps-collateral : (ms : List MatchWithMeta) → Keeps (read_collateral ms)
  unfolding read_collateral
  Keeps-collateral ms = record {
    at = λ w h. go (at_database (wallets_read ms) w) ((Keeps-database (wallets_read ms)).at w h);
  }
    where
      go : (r : Result Raised CollateralMap × World) → AckedAll r.1 → AckedAll (or_empty r).1
      go (ok c, w) h = h
      go (err e, w) h = h

  pub Keeps-release : (ms : List MatchWithMeta) → Keeps (release_locks_for_already_settled ms)
  unfolding release_locks_for_already_settled
  Keeps-release [] = record { at = λ w h. h }
  Keeps-release (m ∷ rest) = record { at = λ w h. h }

-- what holds of each element that the test accepts holds of all that are kept
pub All-keep :
    (Q : MatchWithMeta → Type 0) (p : MatchWithMeta → Bool) (ms : List MatchWithMeta)
    → All (λ m. p m ≡ true → Q m) ms
    → All Q (keep p ms)
All-keep Q p [] h = tt
All-keep Q p (m ∷ rest) h = elim (Bool-cases (p m)) [
  | inl e ↦ rw e (h.0 e, All-keep Q p rest h.1)
  | inr e ↦ rw e (All-keep Q p rest h.1)
]

pub All-map :
    (Q R : MatchWithMeta → Type 0)
    → ((m : MatchWithMeta) → Q m → R m)
    → (ms : List MatchWithMeta) → All Q ms
    → All R ms
All-map Q R f [] h = tt
All-map Q R f (m ∷ rest) h = (f m h.0, All-map Q R f rest h.1)
