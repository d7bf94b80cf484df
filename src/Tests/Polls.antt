-- ===== src/Tests/Polls.antt =====
-- The theorems on polls that overlap and on sequences of resolutions, at samples.
use settlement_engine.Prelude.{
  ℕ, Codes, codes_eq, to_lower_case, inl, inr, if◌then◌else◌, ◌≤◌, ◌≡◌, refl, true, false, none,
  some, List, [], ◌∷◌, length, arith,
}
use settlement_engine.Accumulator.{BatchAccumulator, create, add_matches, get_batch}
use settlement_engine.Database.Tables.{Db, pending, decode_address}
use settlement_engine.Database.Fills.{Filled, run_all-Filled}
use settlement_engine.Database.Backing.{Backed, run_all-Backed}
use settlement_engine.Database.Resolution.{write_back, quarantine, remediate}
use settlement_engine.Database.Refinement.{Run, view, Attempt, run_all, resolutions_refine}
use settlement_engine.Processor.Polling.{
  Polling, new_polling, start, poll, read_done, Steps, no_step, and_then, started, read,
}
use settlement_engine.Processor.Polling.Spacing.{spaced_polls_one_batch}
use settlement_engine.Processor.Polling.Batches.{HandsOver, reachable-HandsOver}
use settlement_engine.Processor.Polling.Overlap.{Reads, overlapping_polls_two_batches}
use settlement_engine.Sweeper.Timer.{
  Timer, new_timer, start_timer, stop_timer, at_first, then_tick, starts, stops,
  one_sweep_and_none_after_stop,
}
use settlement_engine.Tests.Samples.{
  first_match, second_match, first_entry, second_entry, match_row, sample_db, deadlock,
}

abbrev small_queue : BatchAccumulator
small_queue = create 1 500 (some 3) 1000

-- started, the first poll awaits its read
abbrev reading : Polling
reading = start 1000 true (new_polling small_queue)

abbrev batched : Polling
batched = read_done 1010 (first_entry ∷ []) reading

one_read : (spaced : _) → Steps spaced (new_polling small_queue) batched
unfolding start poll new_polling create
one_read spaced =
    and_then (new_polling small_queue) reading batched
      (and_then (new_polling small_queue) (new_polling small_queue) reading
        (no_step (new_polling small_queue))
        (started 1000 true (new_polling small_queue) (λ e. refl)))
      (read 1010 (first_entry ∷ []) reading (omega arith))

spaced_polls_one_batch_example : length batched.in_flight ≤ 1
spaced_polls_one_batch_example = spaced_polls_one_batch small_queue batched (one_read true)

reachable-HandsOver_example : HandsOver batched
reachable-HandsOver_example =
    reachable-HandsOver 1 500 (some 3) 1000 batched (omega arith) (one_read false)

abbrev idle_polling : Polling
idle_polling = record (new_polling small_queue) { is_running = true }

idle-Reads : Reads 1000 idle_polling
unfolding new_polling create
idle-Reads = record { running = refl; free = refl; in_time = omega arith; short = omega arith }

overlapping_polls_two_batches_example :
    (read_done 1020
      (second_entry ∷ [])
      (read_done 1010 (first_entry ∷ []) (poll 1000 true (poll 1000 true idle_polling)))).in_flight
    ≡ (add_matches
        (second_entry ∷ [])
        (get_batch 1010 (add_matches (first_entry ∷ []) small_queue)).1).queue
      ∷ (add_matches (first_entry ∷ []) small_queue).queue
      ∷ []
unfolding new_polling create
overlapping_polls_two_batches_example =
    overlapping_polls_two_batches 1000 1010 1020 (first_entry ∷ []) (second_entry ∷ []) idle_polling
      idle-Reads (omega arith) (omega arith) (omega arith)

-- a quarantine that fails, a writeback, a remediation of the same match, and one of another
abbrev attempts : List Attempt
attempts =
    record {
      resolution = quarantine "POISON";
      match = first_match;
      faults = none ∷ some deadlock ∷ [];
    }
    ∷ record { resolution = write_back "0x01"; match = first_match; faults = [] }
    ∷ record { resolution = remediate; match = first_match; faults = [] }
    ∷ record { resolution = remediate; match = second_match; faults = [] }
    ∷ []

resolutions_refine_example :
    Run
      (view (sample_db pending))
      (run_all attempts (sample_db pending)).0
      (view (run_all attempts (sample_db pending)).1)
resolutions_refine_example = resolutions_refine attempts (sample_db pending)

-- both matches wait, and the rows hold more than what they need
abbrev both_pending : Db
both_pending = record (sample_db pending) {
  matches = match_row "m1" pending ∷ match_row "m2" pending ∷ [];
}

abbrev held_otherwise : Codes → Codes → ℕ
held_otherwise wallet asset = if codes_eq wallet (97 ∷ 97 ∷ []) then 292 else 38

run_all-Backed_example :
    Backed (first_match ∷ second_match ∷ []) held_otherwise (run_all attempts both_pending).1
unfolding codes_eq decode_address to_lower_case
run_all-Backed_example =
    run_all-Backed (first_match ∷ second_match ∷ []) held_otherwise ((refl, tt), (tt, tt)) attempts
      both_pending (inl refl, (inl refl, (inl refl, (inr (inl refl), tt)))) (refl, (refl, tt))

run_all-Filled_example :
    Filled (first_match ∷ second_match ∷ []) (λ i. 0) (run_all attempts both_pending).1
run_all-Filled_example =
    run_all-Filled (first_match ∷ second_match ∷ []) (λ i. 0) ((refl, tt), (tt, tt)) attempts
      both_pending (inl refl, (inl refl, (inl refl, (inr (inl refl), tt))))
      (((refl, tt), (tt, tt)), (refl, (refl, tt)))

-- a sweeper that is started, and stopped during its first sweep
abbrev stopping_timer : Timer
stopping_timer = stop_timer (start_timer new_timer)

one_sweep_and_none_after_stop_example :
    (stopping_timer.sweeps ≤ 1)
    × (stopping_timer.is_running ≡ false
        → stopping_timer.stopping ≡ false
        → stopping_timer.sweeps ≡ 0)
one_sweep_and_none_after_stop_example = one_sweep_and_none_after_stop stopping_timer (
    then_tick new_timer (start_timer new_timer) stopping_timer
      (then_tick new_timer new_timer (start_timer new_timer) (at_first new_timer)
        (starts new_timer))
      (stops (start_timer new_timer)))
