-- ===== src/Processor/Polling/Spacing.antt =====
-- Polls that do not overlap: one batch at a time.
use settlement_engine.Prelude.{
  ℕ, suc, ◌+◌, ◌-◌, ◌≤◌, ◌≡◌, refl, ap, ◌∙◌, Bool, true, false, branch, not, ◌||◌, List, ◌∷◌, ◌++◌,
  length, ltb, arith, length-append,
}
use settlement_engine.Schemas.{MatchWithMeta}
use settlement_engine.Accumulator.{
  BatchAccumulator, add_matches, should_process, needs_more_matches, get_pending_count,
}
use settlement_engine.Processor.Polling.{
  Polling, process_if_due, poll, read_done, batch_done, start, stop_rest, stop, stop_goes_on,
  reclaim_pending, reclaim_done, Step, started, polled, read, finished, stopped, went_on,
  said_goodbye, reclaiming, reclaimed, Steps, no_step, and_then, new_polling,
}

-- one poll at most awaits its read or its batch, and a batch in flight has set the promise
pub record One (reads : ℕ) (in_flight : List (List MatchWithMeta)) (processing : Bool)
    : Type 0 where
  pub one : reads + length in_flight ≤ 1
  pub seen : processing ≡ false → length in_flight ≡ 0

abbrev pub OneAtATime : Polling → Type 0
OneAtATime p = One p.reads p.in_flight p.processing

process_if_due-One :
    (now : ℕ) (p : Polling)
    → OneAtATime p
    → p.reads + length p.in_flight ≡ 0
    → OneAtATime (process_if_due now p)
unfolding process_if_due
process_if_due-One now p h idle =
    branch OneAtATime (should_process now p.accumulator) _ _
      (λ due. record { one = omega (arith, idle); seen = λ e. absurd (ground (arith, e)) })
      λ early. h

poll-One :
    (now : ℕ) (ready : Bool) (p : Polling)
    → OneAtATime p
    → p.reads ≡ 0
    → OneAtATime (poll now ready p)
unfolding poll
poll-One now ready p h none_reading =
    branch OneAtATime (not p.is_running || (ltb now p.next_retry_at || p.processing)) _ _
      (λ skip. h)
      λ go.
        let free : p.processing ≡ false = ground (arith, go) in
        let idle : length p.in_flight ≡ 0 = h.seen free in
        branch OneAtATime (needs_more_matches p.accumulator) _ _
          (λ short.
            branch OneAtATime ready _ _
              (λ up. record { one = omega (arith, idle, none_reading); seen = h.seen }) λ down. h)
          λ full. process_if_due-One now p h (omega (arith, idle, none_reading))

stop_rest-One : (now : ℕ) (p : Polling) → OneAtATime p → OneAtATime (stop_rest now p)
unfolding stop_rest
stop_rest-One now p h =
    branch OneAtATime (ltb 0 (get_pending_count p.accumulator)) _ _ (λ left. h) λ empty. h

pub step-One : (p q : Polling) → Step true p q → OneAtATime p → OneAtATime q
unfolding start read_done batch_done stop stop_goes_on reclaim_pending reclaim_done
step-One _ _ (polled now ready p spaced) h = poll-One now ready p h (spaced refl)
step-One _ _ (started now ready p spaced) h =
    branch OneAtATime p.is_running _ _ (λ on. h)
      (λ off. poll-One now ready (record p { is_running = true }) h (spaced refl))
step-One _ _ (read now matches p reading) h =
    let idle : (p.reads - 1) + length p.in_flight ≡ 0 = omega (arith, h.one, reading) in
    process_if_due-One now
      (record p { accumulator = add_matches matches p.accumulator; reads = p.reads - 1 })
      (record { one = omega (arith, idle); seen = h.seen }) idle
step-One _ _ (finished newer older batch next_try p at) h =
    let size : length p.in_flight ≡ length newer + suc (length older) =
      ap length at ∙ length-append newer (batch ∷ older) in
    let gone : length (newer ++ older) ≡ 0 =
      omega (arith, h.one, size, length-append newer older) in
    record { one = omega (arith, h.one, size, gone); seen = λ e. gone }
step-One _ _ (stopped now p) h =
    branch OneAtATime (not p.is_running) _ _ (λ off. h)
      λ on.
        branch OneAtATime p.processing _ _ (λ busy. h)
          λ free. stop_rest-One now (record p { is_running = false }) h
step-One _ _ (went_on now rejected p waiting) h =
    branch OneAtATime rejected _ _ (λ no. h) λ yes. stop_rest-One now p h
step-One _ _ (said_goodbye p) h = h
step-One _ _ (reclaiming ready p) h =
    branch OneAtATime p.is_running _ _ (λ on. branch OneAtATime ready _ _ (λ up. h) λ down. h)
      λ off. h
step-One _ _ (reclaimed matches p one) h = h

kept-One : (p q : Polling) → Steps true p q → OneAtATime p → OneAtATime q
kept-One _ _ (no_step p) h = h
kept-One _ _ (and_then p q r before s) h = step-One q r s (kept-One p q before h)

-- As long as no poll begins while another awaits its read, the polls have one batch in flight at most, in
-- every state that a new processor can reach.
pub spaced_polls_one_batch :
    (accumulator : BatchAccumulator) (p : Polling)
    → Steps true (new_polling accumulator) p
    → length p.in_flight ≤ 1
unfolding new_polling
spaced_polls_one_batch accumulator p steps =
    let h =
      kept-One (new_polling accumulator) p steps (record { one = omega arith; seen = λ e. refl }) in
    omega (arith, h.one)
