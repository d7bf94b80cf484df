-- ===== src/Processor/Polling.antt =====
-- The polls of settlement/batchProcessor.ts and its start and stop, at the grain of `await`: each function
-- is what runs without a pause. A poll that awaits `readMatches` is counted in `reads`, a reclaim in
-- `reclaims`; `in_flight` holds the batches that polls have started, the newest first, and `farewell` the
-- one of `stop`. What a batch does is process_batch; here it ends, in success or with a time of the next
-- try. `stopping` is a `stop` that awaits the batch in flight.
pub mod Spacing
pub mod Batches
pub mod Overlap
pub mod Requeue
use settlement_engine.Prelude.{
  ℕ, zero, suc, ◌+◌, ◌-◌, ◌<◌, ◌≡◌, Bool, true, false, not, ◌||◌, Option, none, some, List, [], ◌∷◌,
  ◌++◌, length, ltb, if◌then◌else◌,
}
use settlement_engine.Schemas.{MatchWithMeta}
use settlement_engine.Accumulator.{
  BatchAccumulator, add_matches, should_process, needs_more_matches, get_batch, get_pending_count,
}

pub record Polling : Type 0 where
  pub accumulator : BatchAccumulator
  pub is_running : Bool
  -- `processingPromise` is set
  pub processing : Bool
  pub next_retry_at : ℕ
  pub reads : ℕ
  pub reclaims : ℕ
  pub in_flight : List (List MatchWithMeta)
  pub farewell : Option (List MatchWithMeta)
  pub stopping : Bool

-- the end of a poll: `if (shouldProcess()) processingPromise = processBatch()`
unfoldable pub process_if_due : ℕ → Polling → Polling
unfolding should_process get_batch
process_if_due now p =
    let (batch, accumulator) = get_batch now p.accumulator in
    if should_process now p.accumulator
    then record p { accumulator = accumulator; processing = true; in_flight = batch ∷ p.in_flight }
    else p

-- a poll up to its `await`; Redis that is not ready makes it throw, which is logged
unfoldable pub poll : ℕ → Bool → Polling → Polling
unfolding process_if_due needs_more_matches
poll now ready p =
    if not p.is_running || (ltb now p.next_retry_at || p.processing)
    then p
    else if needs_more_matches p.accumulator
    then (if ready then record p { reads = p.reads + 1 } else p)
    else process_if_due now p

-- the rest of a poll whose read gives `matches`
unfoldable pub read_done : ℕ → List MatchWithMeta → Polling → Polling
unfolding process_if_due add_matches
read_done now matches p =
    process_if_due now
      (record p { accumulator = add_matches matches p.accumulator; reads = p.reads - 1 })

-- `processBatch` of a poll has ended: the promise is cleared, also where it has thrown
unfoldable pub batch_done :
    List (List MatchWithMeta) → List (List MatchWithMeta) → Option ℕ → Polling → Polling
batch_done newer older next_try p = record p {
  processing = false;
  in_flight = newer ++ older;
  next_retry_at = elim next_try [ none ↦ p.next_retry_at | some time ↦ time ];
}

-- the initial poll, after the flag and the timers
unfoldable pub start : ℕ → Bool → Polling → Polling
unfolding poll
start now ready p = if p.is_running then p else poll now ready (record p { is_running = true })

-- the end of `stop`: the matches that are left are processed, without `processingPromise`
unfoldable pub stop_rest : ℕ → Polling → Polling
unfolding get_batch get_pending_count
stop_rest now p =
    let (batch, accumulator) = get_batch now p.accumulator in
    if ltb 0 (get_pending_count p.accumulator)
    then record p { accumulator = accumulator; farewell = some batch; stopping = false }
    else record p { stopping = false }

unfoldable pub stop : ℕ → Polling → Polling
unfolding stop_rest
stop now p =
    let halted = record p { is_running = false } in
    if not p.is_running
    then p
    else if p.processing
    then record halted { stopping = true }
    else stop_rest now halted

-- the promise that `stop` awaits is settled; where it was rejected, `stop` throws and goes no further
unfoldable pub stop_goes_on : ℕ → Bool → Polling → Polling
unfolding stop_rest
stop_goes_on now rejected p = if rejected then record p { stopping = false } else stop_rest now p

unfoldable pub reclaim_pending : Bool → Polling → Polling
reclaim_pending ready p =
    if p.is_running then (if ready then record p { reclaims = p.reclaims + 1 } else p) else p

unfoldable pub reclaim_done : List MatchWithMeta → Polling → Polling
unfolding add_matches
reclaim_done matches p = record p {
  accumulator = add_matches matches p.accumulator;
  reclaims = p.reclaims - 1;
}

-- What may happen next. Where `spaced` holds, no poll begins while another awaits its read.
pub data Step (spaced : Bool) : Polling → Polling → Type 0 where
  started :
      (now : ℕ) (ready : Bool) (p : Polling)
      → (spaced ≡ true → p.reads ≡ 0)
      → Step spaced p (start now ready p)
  polled :
      (now : ℕ) (ready : Bool) (p : Polling)
      → (spaced ≡ true → p.reads ≡ 0)
      → Step spaced p (poll now ready p)
  read :
      (now : ℕ) (matches : List MatchWithMeta) (p : Polling)
      → 0 < p.reads
      → Step spaced p (read_done now matches p)
  finished :
      (newer older : List (List MatchWithMeta)) (batch : List MatchWithMeta) (next_try : Option ℕ)
      (p : Polling)
      → p.in_flight ≡ newer ++ batch ∷ older
      → Step spaced p (batch_done newer older next_try p)
  stopped : (now : ℕ) (p : Polling) → Step spaced p (stop now p)
  went_on :
      (now : ℕ) (rejected : Bool) (p : Polling)
      → p.stopping ≡ true
      → Step spaced p (stop_goes_on now rejected p)
  said_goodbye : (p : Polling) → Step spaced p (record p { farewell = none })
  reclaiming : (ready : Bool) (p : Polling) → Step spaced p (reclaim_pending ready p)
  reclaimed :
      (matches : List MatchWithMeta) (p : Polling)
      → 0 < p.reclaims
      → Step spaced p (reclaim_done matches p)

pub data Steps (spaced : Bool) : Polling → Polling → Type 0 where
  no_step : (p : Polling) → Steps spaced p p
  and_then : (p q r : Polling) → Steps spaced p q → Step spaced q r → Steps spaced p r

-- `new BatchProcessor(options)`
unfoldable pub new_polling : BatchAccumulator → Polling
new_polling accumulator = record {
  accumulator = accumulator;
  is_running = false;
  processing = false;
  next_retry_at = 0;
  reads = 0;
  reclaims = 0;
  in_flight = [];
  farewell = none;
  stopping = false;
}
