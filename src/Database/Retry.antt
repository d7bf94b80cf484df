-- ===== src/Database/Retry.antt =====
-- `executeWithRetry` of settlement/database/connection.ts. The delays that it sleeps come back in a list.
use settlement_engine.Prelude.{
  ℕ, zero, suc, ◌+◌, ◌*◌, ◌^◌, ◌≤◌, ◌≡◌, refl, ◌⊎◌, inl, inr, false, Bool-cases, List, [], ◌∷◌,
  arith, length, All, if◌then◌else◌,
}
use settlement_engine.Exec.{Result, ok, err}
use settlement_engine.Helpers.{calculate_backoff_delay}
use settlement_engine.Database.Connection.{
  PgError, Session, Pg, DatabaseError, map_postgres_error_to_database_error,
}

pub record Tried (A : Type 0) : Type 0 where
  pub result : Result DatabaseError A
  pub session : Session
  pub delays : List ℕ

module _ {A : Type 0} where
  abbrev given_up : DatabaseError → Session → Tried A
  given_up e s = record { result = err e; session = s; delays = [] }

  abbrev done : A → Session → Tried A
  done a s = record { result = ok a; session = s; delays = [] }

  -- a round with no retry left
  abbrev last_try : Result PgError A → Session → Tried A
  last_try (ok a) s = done a s
  last_try (err e) s = given_up (map_postgres_error_to_database_error e) s

  module _ (operation : Pg A) (retry_delay_ms max_delay_ms : ℕ) where
    -- a round before `rest`
    abbrev next_try : ℕ → Tried A → Result PgError A → Session → Tried A
    next_try attempt rest (ok a) s = done a s
    next_try attempt rest (err e) s =
        let failure = map_postgres_error_to_database_error e in
        if failure.retryable
        then record rest {
          delays = calculate_backoff_delay (attempt + 1) retry_delay_ms max_delay_ms ∷ rest.delays;
        }
        else given_up failure s

    -- the loop with `left` retries, from `attempt` on
    unfoldable pub retry_from : ℕ → ℕ → Session → Tried A
    unfolding calculate_backoff_delay map_postgres_error_to_database_error
    retry_from zero attempt s = let (r, s') = operation s in last_try r s'
    retry_from (suc left) attempt s =
        let (r, s') = operation s in next_try attempt (retry_from left (attempt + 1) s') r s'

  unfoldable pub execute_with_retry : Pg A → ℕ → ℕ → Session → Tried A
  unfolding retry_from
  execute_with_retry operation max_retries retry_delay_ms =
      retry_from operation retry_delay_ms (retry_delay_ms * 2 ^ max_retries) max_retries 0

  -- an error is given up on if it does not pass, or after all retries
  abbrev pub GivesUpLate : ℕ → Tried A → Type 0
  GivesUpLate left t = elim t.result [
    | ok a ↦ Unit
    | err e ↦ (e.retryable ≡ false) ⊎ (length t.delays ≡ left)
  ]

  module _ (operation : Pg A) (retry_delay_ms max_delay_ms : ℕ) where
    abbrev Bounded : ℕ → Tried A → Type 0
    Bounded left t =
        (length t.delays ≤ left) × All (λ d. d ≤ max_delay_ms) t.delays × GivesUpLate left t

    retried :
        (left attempt : ℕ) (t : Tried A)
        → Bounded left t
        → Bounded (suc left) (record t {
          delays = calculate_backoff_delay (attempt + 1) retry_delay_ms max_delay_ms ∷ t.delays;
        })
    unfolding calculate_backoff_delay
    retried left attempt t b = (omega (arith, b.0), (omega arith, b.1), late t.result b.2)
      where
        late :
            (r : Result DatabaseError A)
            → GivesUpLate left (record t { result = r })
            → GivesUpLate (suc left) (record t { result = r; delays = 0 ∷ t.delays })
        late (ok a) g = tt
        late (err e) (inl n) = inl n
        late (err e) (inr n) = inr (omega (arith, n))

    next_try-Bounded :
        (left attempt : ℕ) (rest : Tried A) (r : Result PgError A) (s : Session)
        → Bounded left rest
        → Bounded (suc left) (next_try operation retry_delay_ms max_delay_ms attempt rest r s)
    next_try-Bounded left attempt rest (ok a) s b = (omega arith, tt, tt)
    next_try-Bounded left attempt rest (err e) s b =
        elim (Bool-cases (map_postgres_error_to_database_error e).retryable) [
          | inl h ↦ rw h (retried left attempt rest b)
          | inr h ↦ rw h (omega arith, tt, inl refl)
        ]

    retry_from-Bounded :
        (left attempt : ℕ) (s : Session)
        → Bounded left (retry_from operation retry_delay_ms max_delay_ms left attempt s)
    unfolding retry_from
    retry_from-Bounded zero attempt s = last (operation s).0
      where
        last : (r : Result PgError A) → Bounded zero (last_try r (operation s).1)
        last (ok a) = (omega arith, tt, tt)
        last (err e) = (omega arith, tt, inr refl)
    retry_from-Bounded (suc left) attempt s =
        next_try-Bounded left attempt _ (operation s).0 (operation s).1
          (retry_from-Bounded left (attempt + 1) (operation s).1)

  -- Whatever fails, at most `max_retries` delays are slept, each at most the base times 2 to the power
  -- of `max_retries`; and an error is thrown only if it does not pass, or after all retries.
  pub execute_with_retry-bounded :
      (operation : Pg A) (max_retries retry_delay_ms : ℕ) (s : Session)
      → let t = execute_with_retry operation max_retries retry_delay_ms s in
        (length t.delays ≤ max_retries)
        × All (λ d. d ≤ retry_delay_ms * 2 ^ max_retries) t.delays
        × GivesUpLate max_retries t
  unfolding execute_with_retry
  execute_with_retry-bounded operation max_retries retry_delay_ms s =
      retry_from-Bounded operation retry_delay_ms (retry_delay_ms * 2 ^ max_retries) max_retries 0 s
