-- ===== src/Processor/Polling/Overlap.antt =====
-- Polls whose reads overlap, with each other or with `stop`.
use settlement_engine.Prelude.{
  ℕ, ◌+◌, ◌-◌, ◌≤◌, ◌<◌, ◌≡◌, refl, ap, ◌∙◌, true, false, List, [], ◌∷◌, length, arith,
}
use settlement_engine.Schemas.{MatchWithMeta}
use settlement_engine.Accumulator.{
  BatchAccumulator, accept, add_matches, should_process, needs_more_matches, get_batch,
  get_pending_count,
}
use settlement_engine.Accumulator.Queue.{fresh}
use settlement_engine.Accumulator.Triggers.{size_trigger}
use settlement_engine.Processor.Polling.{Polling, process_if_due, poll, read_done, stop, stop_rest}
use settlement_engine.Processor.Polling.Batches.{same_size}

accepted_capacity :
    (m : MatchWithMeta) (a : BatchAccumulator) → (accept m a).max_capacity ≡ a.max_capacity
accepted_capacity m a = ground arith

same_capacity :
    (ms : List MatchWithMeta) (a : BatchAccumulator)
    → (add_matches ms a).max_capacity ≡ a.max_capacity
unfolding add_matches
same_capacity [] a = refl
same_capacity (m ∷ rest) a = ground (arith, same_capacity rest (accept m a), accepted_capacity m a)

-- a poll that is free to read
pub record Reads (now : ℕ) (p : Polling) : Type 0 where
  pub running : p.is_running ≡ true
  pub free : p.processing ≡ false
  pub in_time : p.next_retry_at ≤ now
  pub short : length p.accumulator.queue < p.accumulator.batch_size

poll_reads :
    (now : ℕ) (p : Polling) → Reads now p → poll now true p ≡ record p { reads = p.reads + 1 }
unfolding poll needs_more_matches
poll_reads now p h = ground (arith, h.running, h.free, h.in_time, h.short)

read_starts :
    (now : ℕ) (ms : List MatchWithMeta) (p : Polling)
    → should_process now (add_matches ms p.accumulator) ≡ true
    → read_done now ms p ≡ record p {
      accumulator = (get_batch now (add_matches ms p.accumulator)).1;
      processing = true;
      reads = p.reads - 1;
      in_flight = (add_matches ms p.accumulator).queue ∷ p.in_flight;
    }
unfolding read_done process_if_due get_batch
read_starts now ms p due = rw due refl

-- Two polls that begin while no batch is in flight, one before the read of the other is done, start two
-- batches at once, where each read brings enough matches for a batch: the second poll does not ask
-- again whether one is in flight.
pub overlapping_polls_two_batches :
    (now first second : ℕ) (ms ns : List MatchWithMeta) (p : Polling)
    → Reads now p
    → p.accumulator.batch_size ≤ p.accumulator.max_capacity
    → p.accumulator.batch_size
      ≤ length p.accumulator.queue + length (fresh p.accumulator.seen_ids ms)
    → p.accumulator.batch_size ≤ length (fresh [] ns)
    → (read_done second ns (read_done first ms (poll now true (poll now true p)))).in_flight
      ≡ (add_matches ns (get_batch first (add_matches ms p.accumulator)).1).queue
        ∷ (add_matches ms p.accumulator).queue
        ∷ p.in_flight
unfolding get_batch
overlapping_polls_two_batches now first second ms ns p h room enough more =
    let a = p.accumulator in
    let p' : Polling = record p { reads = p.reads + 1 } in
    let p'' : Polling = record p' { reads = p'.reads + 1 } in
    let due = size_trigger first ms a room enough in
    let taken = (get_batch first (add_matches ms a)).1 in
    let due' =
      size_trigger second ns taken (rw (same_size ms a, same_capacity ms a) room)
        (rw (same_size ms a) (omega (arith, more))) in
    let again : Reads now p' = record {
      running = h.running;
      free = h.free;
      in_time = h.in_time;
      short = h.short;
    } in
    ap (λ q. (read_done second ns (read_done first ms q)).in_flight)
      (ap (poll now true) (poll_reads now p h) ∙ poll_reads now p' again)
    ∙ ap (λ q. (read_done second ns q).in_flight) (read_starts first ms p'' due)
    ∙ ap (λ q. q.in_flight) (read_starts second ns _ due')

stop_over :
    (now : ℕ) (p : Polling)
    → p.is_running ≡ true
    → p.processing ≡ false
    → p.accumulator.queue ≡ []
    → stop now p ≡ record p { is_running = false; stopping = false }
unfolding stop stop_rest get_pending_count
stop_over now p on free empty = ground (arith, on, free, ap length empty)

-- A `stop` that finds no batch in flight and no match in the queue is done; a read that a poll still
-- awaits then starts a batch all the same, where it brings enough matches: nothing asks again whether
-- the processor runs.
pub late_read_starts_batch :
    (now later : ℕ) (ms : List MatchWithMeta) (p : Polling)
    → p.is_running ≡ true
    → p.processing ≡ false
    → p.accumulator.queue ≡ []
    → p.accumulator.batch_size ≤ p.accumulator.max_capacity
    → p.accumulator.batch_size ≤ length (fresh p.accumulator.seen_ids ms)
    → (stop now p ≡ record p { is_running = false; stopping = false })
      × ((read_done later ms (stop now p)).in_flight
          ≡ (add_matches ms p.accumulator).queue ∷ p.in_flight)
      × ((read_done later ms (stop now p)).is_running ≡ false)
late_read_starts_batch now later ms p on free empty room enough =
    let stopped : Polling = record p { is_running = false; stopping = false } in
    let over = stop_over now p on free empty in
    let due = size_trigger later ms p.accumulator room (omega (arith, enough)) in
    let started = read_starts later ms stopped due in
    (
      over,
      ap (λ q. (read_done later ms q).in_flight) over ∙ ap (λ q. q.in_flight) started,
      ap (λ q. (read_done later ms q).is_running) over ∙ ap (λ q. q.is_running) started,
    )
