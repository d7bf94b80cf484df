-- ===== src/Accumulator/Triggers.antt =====
-- When the accumulator asks for matches and when it releases a batch.
use settlement_engine.Prelude.{
  ℕ, zero, suc, ◌+◌, ◌≤◌, ◌<◌, ◌⊎◌, ◌≡◌, refl, ap, ◌∙◌, true, false, List, [], ◌∷◌, arith, length,
  length-append, take, min,
}
use settlement_engine.Schemas.{MatchWithMeta}
use settlement_engine.Accumulator.{
  BatchAccumulator, add_matches, should_process, needs_more_matches, accept, get_batch,
}
use settlement_engine.Accumulator.Queue.{fresh, room_of, add_matches-appends}

length-take : (n : ℕ) (ms : List MatchWithMeta) → length (take n ms) ≡ min n (length ms)
length-take zero ms = omega arith
length-take (suc n) [] = omega arith
length-take (suc n) (m ∷ ms) = omega (arith, length-take n ms)

length-added :
    (ms : List MatchWithMeta) (a : BatchAccumulator)
    → length (add_matches ms a).queue
      ≡ length a.queue + min (room_of a) (length (fresh a.seen_ids ms))
length-added ms a =
    ap length (add_matches-appends ms a)
    ∙ (length-append a.queue (take (room_of a) (fresh a.seen_ids ms))
        ∙ ap (λ (n : ℕ). length a.queue + n) (length-take (room_of a) (fresh a.seen_ids ms)))

record SameSettings (a b : BatchAccumulator) : Type 0 where
  size : a.batch_size ≡ b.batch_size
  interval : a.batch_interval_ms ≡ b.batch_interval_ms
  since : a.last_processed_time ≡ b.last_processed_time

accept-SameSettings : (m : MatchWithMeta) (a : BatchAccumulator) → SameSettings (accept m a) a
accept-SameSettings m a = ground arith

added-SameSettings :
    (ms : List MatchWithMeta) (a : BatchAccumulator) → SameSettings (add_matches ms a) a
unfolding add_matches
added-SameSettings [] a = record { size = refl; interval = refl; since = refl }
added-SameSettings (m ∷ rest) a =
    ground (arith, added-SameSettings rest (accept m a), accept-SameSettings m a)

-- A batch is released only when it holds a match, and whenever no more matches are asked for.
pub released_batch_nonempty :
    (now : ℕ) (a : BatchAccumulator)
    → 0 < a.batch_size
    → ((should_process now a ≡ false) ⊎ (0 < length (get_batch now a).0))
      × ((needs_more_matches a ≡ true) ⊎ (should_process now a ≡ true))
unfolding should_process needs_more_matches get_batch
released_batch_nonempty now a h = (ground arith, ground arith)

-- Size trigger: as soon as the queue and the fresh matches reach the batch size, and the capacity
-- allows for that, the batch is released at any time.
pub size_trigger :
    (now : ℕ) (ms : List MatchWithMeta) (a : BatchAccumulator)
    → a.batch_size ≤ a.max_capacity
    → a.batch_size ≤ length a.queue + length (fresh a.seen_ids ms)
    → should_process now (add_matches ms a) ≡ true
unfolding should_process
size_trigger now ms a cap enough = ground (arith, length-added ms a, added-SameSettings ms a)

-- Time trigger: after a batch was taken at `start`, any fresh match is released once the interval has
-- passed, however few there are.
pub time_trigger :
    (start now : ℕ) (ms : List MatchWithMeta) (a : BatchAccumulator)
    → 0 < a.max_capacity
    → 0 < length ms
    → start + a.batch_interval_ms ≤ now
    → should_process now (add_matches ms (get_batch start a).1) ≡ true
unfolding should_process get_batch
time_trigger start now [] a cap some_match late = absurd (omega arith)
time_trigger start now (m ∷ rest) a cap some_match late = ground (
  arith,
  length-added (m ∷ rest) (get_batch start a).1,
  added-SameSettings (m ∷ rest) (get_batch start a).1,
)
