-- ===== src/Database/Effect.antt =====
-- What the code around `withTransaction` means: a chain of queries acts as a function on the database,
-- or throws; in a transaction a throw leaves no write.
use mathlib.Core.Path.{subst}
use settlement_engine.Prelude.{◌≡◌, refl, none, some, [], ◌∷◌}
use settlement_engine.Exec.{Result, ok, err, pure, continue, ◌>>=◌}
use settlement_engine.Database.Tables.{Db}
use settlement_engine.Database.Connection.{
  PgError, Session, Pg, query, settle_transaction, transaction_body, with_transaction,
}

abbrev pub calm : Db → Session
calm d = record { db = d; faults = [] }

abbrev pub OnSuccess : {A : Type 0} → (Db → A × Db) → Db → Result PgError A × Session → Type 0
OnSuccess f d (ok a, s) = (a, s.db) ≡ f d
OnSuccess f d (err e, s) = Unit

-- A chain that returns has acted as `f`, and it returns where no query fails.
pub record Does {A : Type 0} (m : Pg A) (f : Db → A × Db) : Type 0 where
  pub acts : (s : Session) → OnSuccess f s.db (m s)
  pub returns : (d : Db) → m (calm d) ≡ (ok (f d).0, calm (f d).1)

module _ {A : Type 0} where
  query-acts : (f : Db → A × Db) (s : Session) → OnSuccess f s.db (query f s)
  unfolding query
  query-acts f s = go s.faults
    where
      go : (l : _) → OnSuccess f s.db (query f (record s { faults = l }))
      go [] = refl
      go (none ∷ l) = refl
      go (some e ∷ l) = tt

  pub Does-query : (f : Db → A × Db) → Does (query f) f
  unfolding query
  Does-query f = record { acts = query-acts f; returns = λ d. refl }

  pub Does-pure : (a : A) → Does (pure a) (λ d. (a, d))
  Does-pure a = record { acts = λ s. refl; returns = λ d. refl }

module _ {A B : Type 0} where
  -- the effect of a chain, from the effects of its parts
  abbrev pub then : (Db → A × Db) → (A → Db → B × Db) → Db → B × Db
  then f g d = let (a, d') = f d in g a d'

  bind-acts :
      (f : Db → A × Db) (g : A → Db → B × Db) (k : A → Pg B)
      → ((a : A) → Does (k a) (g a))
      → (d : Db) (r : Result PgError A × Session) → OnSuccess f d r
      → OnSuccess (then f g) d (continue r.0 k r.1)
  bind-acts f g k kg d (err e, s) h = tt
  bind-acts f g k kg d (ok a, s) h =
      subst (λ (p : A × Db). OnSuccess (λ _. g p.0 p.1) d (k a s)) h (moved a s)
    where
      moved : (a : A) (s : Session) → OnSuccess (λ _. g a s.db) d (k a s)
      moved a s = (kg a).acts s

  pub Does-bind :
      {m : Pg A} {f : Db → A × Db} {k : A → Pg B} {g : A → Db → B × Db}
      → Does m f
      → ((a : A) → Does (k a) (g a))
      → Does (m >>= k) (then f g)
  Does-bind {m} {f} {k} {g} h kg = record {
    acts = λ s. bind-acts f g k kg s.db (m s) (h.acts s);
    returns = λ d. rw (h.returns d) ((kg (f d).0).returns (f d).1);
  }

module _ {A : Type 0} where
  -- A transaction acts as its body, and one that throws leaves the database as it was.
  abbrev pub AllOrNothing : (Db → A × Db) → Db → Result PgError A × Session → Type 0
  AllOrNothing f d (ok a, s) = (a, s.db) ≡ f d
  AllOrNothing f d (err e, s) = s.db ≡ d

  settle-acts :
      (f : Db → A × Db) (d : Db) (r : Result PgError A × Session)
      → OnSuccess f d r
      → AllOrNothing f d (settle_transaction d r)
  settle-acts f d (ok a, s) h = h
  settle-acts f d (err e, s) h = refl

  pub body-Does : {m : Pg A} {f : Db → A × Db} → Does m f → Does (transaction_body m) f
  body-Does {m} {f} h =
      Does-bind (Does-query _) λ _. Does-bind h λ a. Does-bind (Does-query _) λ _. Does-pure a

  pub with_transaction-AllOrNothing :
      {m : Pg A} {f : Db → A × Db}
      → Does m f
      → (s : Session) → AllOrNothing f s.db (with_transaction m s)
  unfolding with_transaction
  with_transaction-AllOrNothing {m} {f} h s = go s.faults
    where
      at :
          (l : _)
          → AllOrNothing f s.db
              (settle_transaction s.db (transaction_body m (record s { faults = l })))
      at l = settle-acts f s.db _ ((body-Does h).acts (record s { faults = l }))

      go : (l : _) → AllOrNothing f s.db (with_transaction m (record s { faults = l }))
      go [] = at []
      go (none ∷ l) = at l
      go (some e ∷ l) = refl

  pub with_transaction-Does : {m : Pg A} {f : Db → A × Db} → Does m f → Does (with_transaction m) f
  unfolding with_transaction
  with_transaction-Does {m} {f} h = record {
    acts = λ s. weaken s.db (with_transaction m s) (with_transaction-AllOrNothing h s);
    returns = λ d. rw ((body-Does h).returns d);
  }
    where
      weaken : (d : Db) (r : Result PgError A × Session) → AllOrNothing f d r → OnSuccess f d r
      weaken d (ok a, s) p = p
      weaken d (err e, s) p = tt
