-- ===== src/Database/Connection.antt =====
-- settlement/database/connection.ts: queries that may fail, and transactions. A session is the state
-- of the database with the outcome of each query to come: `some e` is a query that fails by `e`. Where
-- the list has ended, no query fails.
use settlement_engine.Prelude.{
  String, Bool, true, false, Option, none, some, List, [], ◌∷◌, any, str_eq, if◌then◌else◌,
}
use settlement_engine.Exec.{Exec, Result, ok, err, pure, ◌>>=◌, ◌>>◌}
use settlement_engine.Database.Tables.{Db}

pub record PgError : Type 0 where
  pub message : Option String
  pub code : Option String

pub record Session : Type 0 where
  pub db : Db
  pub faults : List (Option PgError)

abbrev pub Pg : Type 0 → Type 0
Pg = Exec Session PgError

abbrev run_query : {A : Type 0} → (Db → A × Db) → Option PgError → Pg A
run_query f none s = let (a, d) = f s.db in (ok a, record s { db = d })
run_query f (some e) s = (err e, s)

-- `client.query(sql, params)`, for SQL that acts on the database as `f` does
unfoldable pub query : {A : Type 0} → (Db → A × Db) → Pg A
query f s = elim s.faults [
  | [] ↦ run_query f none s
  | o ∷ rest ↦ run_query f o (record s { faults = rest })
]

-- a statement with no result and no effect on the rows: `connect`, `BEGIN`, `COMMIT`
abbrev pub statement : Pg (Unit {0})
statement = query (λ d. (tt, d))

abbrev pub drop_fault : List (Option PgError) → List (Option PgError)
drop_fault [] = []
drop_fault (o ∷ rest) = rest

-- The `catch` of a transaction that began at `snapshot`: a failed transaction leaves no write, and
-- an error of `ROLLBACK` itself is ignored.
abbrev pub settle_transaction :
    {A : Type 0} → Db → Result PgError A × Session → Result PgError A × Session
settle_transaction snapshot (ok a, s) = (ok a, s)
settle_transaction snapshot (err e, s) =
    (err e, record { db = snapshot; faults = drop_fault s.faults })

abbrev pub transaction_body : {A : Type 0} → Pg A → Pg A
transaction_body fn = do statement; a ← fn; statement; pure a

unfoldable pub with_transaction : {A : Type 0} → Pg A → Pg A
unfolding query
with_transaction fn = do statement; λ s. settle_transaction s.db (transaction_body fn s)

-- The `DatabaseError` that the retry loop reads.
pub record DatabaseError : Type 0 where
  pub message : String
  pub code : Option String
  pub retryable : Bool

abbrev pub retryable_codes : List String
retryable_codes =
    "40001" ∷ "40P01" ∷ "55P03" ∷ "57P01" ∷ "57P02" ∷ "57P03" ∷ "08006" ∷ "08001" ∷ "08003" ∷ []

abbrev pub non_retryable_codes : List String
non_retryable_codes = "23505" ∷ "23503" ∷ "23502" ∷ "23514" ∷ "22P02" ∷ []

unfoldable pub is_retryable : Option String → Bool
is_retryable none = false
is_retryable (some code) =
    if str_eq code ""
    then false
    else if any (str_eq code) retryable_codes
    then true
    else if any (str_eq code) non_retryable_codes
    then false
    else true

unfoldable pub map_postgres_error_to_database_error : PgError → DatabaseError
unfolding is_retryable
map_postgres_error_to_database_error error = record {
  message = elim error.message [ none ↦ "Unknown database error" | some m ↦ m ];
  code = error.code;
  retryable = is_retryable error.code;
}
