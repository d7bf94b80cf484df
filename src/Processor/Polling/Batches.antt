-- ===== src/Processor/Polling/Batches.antt =====
-- What the polls and `stop` hand over to be settled.
use settlement_engine.Prelude.{
  ℕ, ◌-◌, ◌<◌, ◌≡◌, refl, Bool, true, false, branch, not, ◌||◌, Option, none, some, List, [], ◌∷◌,
  ◌++◌, All, length, ltb, arith,
}
use mathlib.Core.Path.{subst}
use settlement_engine.Schemas.{MatchWithMeta}
use settlement_engine.Accumulator.{
  create, BatchAccumulator, accept, add_matches, should_process, needs_more_matches, get_batch,
  get_pending_count,
}
use settlement_engine.Accumulator.Queue.{
  create-IsValid, IsValid, ids_of, distinct, add_matches-IsValid, get_batch-IsValid,
}
use settlement_engine.Processor.Polling.{
  Polling, process_if_due, poll, read_done, batch_done, start, stop_rest, stop, stop_goes_on,
  reclaim_pending, reclaim_done, Step, started, polled, read, finished, stopped, went_on,
  said_goodbye, reclaiming, reclaimed, Steps, no_step, and_then, new_polling,
}

-- a batch holds a match, and each stream entry once
pub record IsBatch (batch : List MatchWithMeta) : Type 0 where
  pub filled : 0 < length batch
  pub once : distinct (ids_of batch) ≡ true

abbrev pub IsFarewell : Option (List MatchWithMeta) → Type 0
IsFarewell none = Unit
IsFarewell (some batch) = IsBatch batch

pub record Sound (a : BatchAccumulator) (in_flight : List (List MatchWithMeta))
    (last : Option (List MatchWithMeta)) : Type 0 where
  pub queue : IsValid a
  pub size : 0 < a.batch_size
  pub batches : All IsBatch in_flight
  pub farewell : IsFarewell last

abbrev pub HandsOver : Polling → Type 0
HandsOver p = Sound p.accumulator p.in_flight p.farewell

queue-IsBatch : (a : BatchAccumulator) → IsValid a → 0 < length a.queue → IsBatch a.queue
queue-IsBatch a v h = record {
  filled = h;
  once = subst (λ ids. distinct ids ≡ true) v.tracked v.once;
}

accepted_size : (m : MatchWithMeta) (a : BatchAccumulator) → (accept m a).batch_size ≡ a.batch_size
accepted_size m a = ground arith

pub same_size :
    (ms : List MatchWithMeta) (a : BatchAccumulator) → (add_matches ms a).batch_size ≡ a.batch_size
unfolding add_matches
same_size [] a = refl
same_size (m ∷ rest) a = ground (arith, same_size rest (accept m a), accepted_size m a)

due_filled :
    (now : ℕ) (a : BatchAccumulator)
    → 0 < a.batch_size
    → should_process now a ≡ true
    → 0 < length a.queue
unfolding should_process
due_filled now a h due = ground (arith, h, due)

process_if_due-HandsOver : (now : ℕ) (p : Polling) → HandsOver p → HandsOver (process_if_due now p)
unfolding process_if_due get_batch
process_if_due-HandsOver now p h =
    branch HandsOver (should_process now p.accumulator) _ _
      (λ due. record {
        queue = get_batch-IsValid now p.accumulator;
        size = h.size;
        batches = (
          queue-IsBatch p.accumulator h.queue (due_filled now p.accumulator h.size due),
          h.batches,
        );
        farewell = h.farewell;
      })
      λ early. h

poll-HandsOver : (now : ℕ) (ready : Bool) (p : Polling) → HandsOver p → HandsOver (poll now ready p)
unfolding poll
poll-HandsOver now ready p h =
    branch HandsOver (not p.is_running || (ltb now p.next_retry_at || p.processing)) _ _ (λ skip. h)
      λ go.
        branch HandsOver (needs_more_matches p.accumulator) _ _
          (λ short. branch HandsOver ready _ _ (λ up. h) λ down. h)
          λ full. process_if_due-HandsOver now p h

stop_rest-HandsOver : (now : ℕ) (p : Polling) → HandsOver p → HandsOver (stop_rest now p)
unfolding stop_rest get_batch get_pending_count
stop_rest-HandsOver now p h =
    branch HandsOver (ltb 0 (length p.accumulator.queue)) _ _
      (λ left. record {
        queue = get_batch-IsValid now p.accumulator;
        size = h.size;
        batches = h.batches;
        farewell = queue-IsBatch p.accumulator h.queue (ground (arith, left));
      })
      λ empty. h

All-without :
    (newer older : List (List MatchWithMeta)) (batch : List MatchWithMeta)
    → All IsBatch (newer ++ batch ∷ older)
    → All IsBatch (newer ++ older)
All-without [] older batch h = h.1
All-without (x ∷ newer) older batch h = (h.0, All-without newer older batch h.1)

step-HandsOver : (p q : Polling) → Step false p q → HandsOver p → HandsOver q
unfolding start read_done batch_done stop stop_goes_on reclaim_pending reclaim_done
step-HandsOver _ _ (polled now ready p spaced) h = poll-HandsOver now ready p h
step-HandsOver _ _ (started now ready p spaced) h =
    branch HandsOver p.is_running _ _ (λ on. h)
      (λ off. poll-HandsOver now ready (record p { is_running = true }) h)
step-HandsOver _ _ (read now matches p reading) h =
    process_if_due-HandsOver now
      (record p { accumulator = add_matches matches p.accumulator; reads = p.reads - 1 })
      (record {
        queue = add_matches-IsValid matches p.accumulator h.queue;
        size = rw (same_size matches p.accumulator) h.size;
        batches = h.batches;
        farewell = h.farewell;
      })
step-HandsOver _ _ (finished newer older batch next_try p at) h = record {
  queue = h.queue;
  size = h.size;
  batches = All-without newer older batch (subst (All IsBatch) at h.batches);
  farewell = h.farewell;
}
step-HandsOver _ _ (stopped now p) h =
    branch HandsOver (not p.is_running) _ _ (λ off. h)
      λ on.
        branch HandsOver p.processing _ _ (λ busy. h)
          λ free. stop_rest-HandsOver now (record p { is_running = false }) h
step-HandsOver _ _ (went_on now rejected p waiting) h =
    branch HandsOver rejected _ _ (λ no. h) λ yes. stop_rest-HandsOver now p h
step-HandsOver _ _ (said_goodbye p) h = record {
  queue = h.queue;
  size = h.size;
  batches = h.batches;
  farewell = tt;
}
step-HandsOver _ _ (reclaiming ready p) h =
    branch HandsOver p.is_running _ _ (λ on. branch HandsOver ready _ _ (λ up. h) λ down. h)
      λ off. h
step-HandsOver _ _ (reclaimed matches p one) h = record {
  queue = add_matches-IsValid matches p.accumulator h.queue;
  size = rw (same_size matches p.accumulator) h.size;
  batches = h.batches;
  farewell = h.farewell;
}

kept-HandsOver : (p q : Polling) → Steps false p q → HandsOver p → HandsOver q
kept-HandsOver _ _ (no_step p) h = h
kept-HandsOver _ _ (and_then p q r before s) h = step-HandsOver q r s (kept-HandsOver p q before h)

-- Whatever the order of polls, reads, ends of batches, reclaims, start and stop, overlapping polls
-- included: in every state that a new processor with a positive batch size can reach, the queue is valid,
-- and every batch that polls or `stop` have in flight holds a match, and each stream entry once.
pub reachable-HandsOver :
    (batch_size batch_interval_ms : ℕ) (max_capacity : Option ℕ) (now : ℕ) (p : Polling)
    → 0 < batch_size
    → Steps false (new_polling (create batch_size batch_interval_ms max_capacity now)) p
    → HandsOver p
unfolding new_polling create
reachable-HandsOver batch_size batch_interval_ms max_capacity now p h steps =
    kept-HandsOver (new_polling (create batch_size batch_interval_ms max_capacity now)) p steps
      (record {
        queue = create-IsValid batch_size batch_interval_ms max_capacity now;
        size = h;
        batches = tt;
        farewell = tt;
      })

pub start-HandsOver :
    (now : ℕ) (ready : Bool) (p : Polling) → HandsOver p → HandsOver (start now ready p)
start-HandsOver now ready p =
    step-HandsOver p (start now ready p) (started now ready p (λ e. absurd (ground (arith, e))))
