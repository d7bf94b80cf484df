-- ===== src/Accumulator.antt =====
-- settlement/batchAccumulator.ts: the queue between the stream and the settlement of a batch. `now` is
-- what `Date.now()` returns in the call.
pub mod Queue
pub mod Triggers
use settlement_engine.Prelude.{
  ℕ, ◌+◌, ◌*◌, ◌<◌, String, Bool, true, false, ◌&&◌, ◌||◌, Option, none, some, List, [], ◌∷◌, ◌++◌,
  length, any, leb, ltb, str_eq, if◌then◌else◌,
}
use settlement_engine.Schemas.{MatchWithMeta}

pub record BatchAccumulator : Type 0 where
  pub queue : List MatchWithMeta
  pub seen_ids : List String
  pub last_processed_time : ℕ
  pub batch_size : ℕ
  pub batch_interval_ms : ℕ
  pub max_capacity : ℕ

-- `new BatchAccumulator(batchSize, batchIntervalMs, maxCapacity?)`
unfoldable pub create : ℕ → ℕ → Option ℕ → ℕ → BatchAccumulator
create batch_size batch_interval_ms max_capacity now = record {
  queue = [];
  seen_ids = [];
  last_processed_time = now;
  batch_size = batch_size;
  batch_interval_ms = batch_interval_ms;
  max_capacity = elim max_capacity [ none ↦ batch_size * 5 | some capacity ↦ capacity ];
}

-- the part of a round of `addMatches` below the capacity test
abbrev pub accept : MatchWithMeta → BatchAccumulator → BatchAccumulator
accept match a =
    if any (str_eq match.id) a.seen_ids
    then a
    else record a { queue = a.queue ++ match ∷ []; seen_ids = a.seen_ids ++ match.id ∷ [] }

unfoldable pub add_matches : List MatchWithMeta → BatchAccumulator → BatchAccumulator
add_matches [] a = a
add_matches (match ∷ rest) a =
    let accepted = add_matches rest (accept match a) in
    if leb a.max_capacity (length a.queue) then a else accepted

unfoldable pub should_process : ℕ → BatchAccumulator → Bool
should_process now a =
    if leb a.batch_size (length a.queue)
    then true
    else leb (a.last_processed_time + a.batch_interval_ms) now && ltb 0 (length a.queue)

unfoldable pub needs_more_matches : BatchAccumulator → Bool
needs_more_matches a = ltb (length a.queue) a.batch_size

unfoldable pub reset_timer : ℕ → BatchAccumulator → BatchAccumulator
reset_timer now a = record a { last_processed_time = now }

unfoldable pub get_batch : ℕ → BatchAccumulator → List MatchWithMeta × BatchAccumulator
unfolding reset_timer
get_batch now a = (a.queue, reset_timer now (record a { queue = []; seen_ids = [] }))

unfoldable pub get_pending_count : BatchAccumulator → ℕ
get_pending_count a = length a.queue
