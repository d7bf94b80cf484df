-- ===== src/Processor/Backoff.antt =====
-- How long the processor waits after a failure, and what is still to be acknowledged then.
use settlement_engine.Prelude.{
  ℕ, suc, ◌+◌, ◌-◌, ◌*◌, ◌^◌, ◌≤◌, min, ◌≡◌, refl, inl, inr, Bool-cases, List, [], ◌∷◌, arith,
}
use settlement_engine.Exec.{Result, ok, err}
use settlement_engine.Schemas.{MatchWithMeta}
use settlement_engine.Accumulator.{get_batch}
use settlement_engine.Batch.{World, Environment, Raised, batch, settlement, database, other, redis}
use settlement_engine.Batch.Process.{process_settlement_batch}
use settlement_engine.Helpers.{calculate_backoff_delay}
use settlement_engine.Processor.{
  BatchProcessor, back_off, conclude_batch, process_taken, process_batch,
}

double_power : (b n : ℕ) → b * 2 ^ suc n ≡ 2 * (b * 2 ^ n)
double_power b n = grind arith

delay-suc :
    (n base_ms max_ms : ℕ)
    → calculate_backoff_delay (suc n) base_ms max_ms ≡ min (base_ms * 2 ^ n) max_ms
unfolding calculate_backoff_delay
delay-suc n base_ms max_ms = let e : suc n - 1 ≡ n = omega arith in rw e refl

-- The delay doubles with each further failure, up to the maximum.
pub backoff_doubles :
    (attempt base_ms max_ms : ℕ)
    → (calculate_backoff_delay 1 base_ms max_ms ≡ min base_ms max_ms)
      × (calculate_backoff_delay (suc (suc attempt)) base_ms max_ms
          ≡ min (2 * calculate_backoff_delay (suc attempt) base_ms max_ms) max_ms)
unfolding calculate_backoff_delay
backoff_doubles attempt base_ms max_ms = (
  omega arith,
  rw (delay-suc (suc attempt) base_ms max_ms, delay-suc attempt base_ms max_ms)
      (omega (arith, double_power base_ms attempt)),
)

-- What a call returns or throws, and the wait that it leaves.
abbrev pub Waits : ℕ → BatchProcessor → Result Raised (Unit {0}) × BatchProcessor → Type 0
Waits later p (ok _, q) = q.next_retry_at ≡ p.next_retry_at
Waits later p (err _, q) =
    (q.consecutive_failures ≡ p.consecutive_failures + 1)
    × (q.next_retry_at
        ≡ later
          + calculate_backoff_delay (p.consecutive_failures + 1) p.failure_backoff_base_ms
              p.failure_backoff_max_ms)
    × (q.next_retry_at ≤ later + p.failure_backoff_max_ms)

back_off-Waits : (later : ℕ) (e : Raised) (p : BatchProcessor) → Waits later p (back_off later e p)
unfolding back_off calculate_backoff_delay
back_off-Waits later e p = (refl, refl, omega arith)

conclude-Waits :
    (later : ℕ) (ms : List MatchWithMeta) (p : BatchProcessor)
    (r : Result Raised (Unit {0}) × World)
    → Waits later p (conclude_batch later ms p r)
unfolding conclude_batch
conclude-Waits later ms p (ok _, w) = refl
conclude-Waits later ms p (err (batch e), w) = elim (Bool-cases e.retryable) [
  | inl h ↦ rw h (back_off-Waits later (batch e) (record p { world = w }))
  | inr h ↦ rw h refl
]
conclude-Waits later ms p (err (settlement e), w) =
    back_off-Waits later (settlement e) (record p { world = w })
conclude-Waits later ms p (err (database e), w) =
    back_off-Waits later (database e) (record p { world = w })
conclude-Waits later ms p (err (other e), w) =
    back_off-Waits later (other e) (record p { world = w })
conclude-Waits later ms p (err (redis e), w) =
    back_off-Waits later (redis e) (record p { world = w })

-- A batch that returns leaves the time of the next try alone; one that throws counts as one more
-- failure and waits by its delay, which is at most the maximum.
pub process_batch-Waits :
    (env : Environment) (now later : ℕ) (p : BatchProcessor)
    → Waits later p (process_batch env now later p)
unfolding process_batch get_batch
process_batch-Waits env now later p = go p.accumulator.queue
  where
    go :
        (l : List MatchWithMeta)
        → Waits later p
            (process_taken env later l (record p { accumulator = (get_batch now p.accumulator).1 }))
    go [] = refl
    go (m ∷ rest) =
        conclude-Waits later (m ∷ rest) (record p { accumulator = (get_batch now p.accumulator).1 })
          (process_settlement_batch env (m ∷ rest) p.world)
