-- ===== src/Main/Shutdown/Halting.antt =====
-- The steps of a call of `shutdown` that stop the processor.
use settlement_engine.Prelude.{
  ℕ, ◌<◌, ◌≡◌, refl, ◌∙◌, true, false, Option, none, some, List, arith, Bool-cases, inl, inr,
}
use settlement_engine.Schemas.{MatchWithMeta}
use settlement_engine.Processor.Polling.{Polling, stop_rest, stop, stop_goes_on}
use settlement_engine.Processor.Polling.Spacing.{OneAtATime}
use settlement_engine.Sweeper.Timer.{Timer}
use settlement_engine.Main.Shutdown.{Engine, after_stop, stop_processor, await_batch}
use settlement_engine.Main.Shutdown.Signals.{halts, waits}
use settlement_engine.Main.Shutdown.Closing.{Halted, level, SweeperAt, Held}

-- the sweeper plays no part any more
pub later : (m n : ℕ) (s : Option Timer) → 1 < m → 1 < n → SweeperAt m s → SweeperAt n s
later m n none h k w = tt
later m n (some t) h k w = record {
  single = w.single;
  on = λ e. absurd (omega (arith, e));
  off = λ l. w.off (omega arith);
  over = λ l. w.over h;
}

-- a processor that is stopped, with no batch of a poll in flight
pub rested :
    (e : Engine) (p : Polling) (farewell : Option (List MatchWithMeta))
    → p.farewell ≡ farewell
    → OneAtATime p
    → SweeperAt 2 e.sweeper
    → Halted p
    → p.processing ≡ false
    → Held (level (after_stop farewell)) (record e { polling = p })
rested e p none none_left one watched halted free = record {
  one = one;
  watched = later 2 _ e.sweeper (omega arith) (omega arith) watched;
  on = λ l. absurd (omega (arith, l));
  halted = λ l. halted;
  settled = λ l. free;
  said = λ l. none_left;
  released = λ l. absurd (omega (arith, l));
  closed = λ l. absurd (omega (arith, l));
}
rested e p (some batch) left one watched halted free = record {
  one = one;
  watched = later 2 _ e.sweeper (omega arith) (omega arith) watched;
  on = λ l. absurd (omega (arith, l));
  halted = λ l. halted;
  settled = λ l. free;
  said = λ l. absurd (omega (arith, l));
  released = λ l. absurd (omega (arith, l));
  closed = λ l. absurd (omega (arith, l));
}

stopped-rests :
    (now : ℕ) (p : Polling)
    → ((stop_rest now p).is_running ≡ p.is_running)
      × ((stop_rest now p).reads ≡ p.reads)
      × ((stop_rest now p).processing ≡ p.processing)
      × ((stop_rest now p).in_flight ≡ p.in_flight)
unfolding stop_rest
stopped-rests now p = ground arith

module _ (now : ℕ) (e : Engine) where
  rest-Held :
      (p : Polling)
      → OneAtATime p
      → SweeperAt 2 e.sweeper
      → Halted p
      → p.processing ≡ false
      → Held
          (level (after_stop (stop_rest now p).farewell))
          (record e { polling = stop_rest now p })
  rest-Held p one watched halted free =
      let (same, reads, busy, flying) = stopped-rests now p in
      rested e (stop_rest now p) (stop_rest now p).farewell refl
        (record { one = rw (reads, flying) one.one; seen = λ e. rw flying (one.seen free) }) watched
        (record { off = same ∙ halted.off; unread = reads ∙ halted.unread }) (busy ∙ free)

  stop_free :
      e.polling.is_running ≡ true
      → e.polling.processing ≡ false
      → stop_processor now e ≡ (
        after_stop (stop_rest now (record e.polling { is_running = false })).farewell,
        record e { polling = stop_rest now (record e.polling { is_running = false }) },
      )
  unfolding stop_processor stop
  stop_free on free = ground (arith, on, free)

  pub stop_processor-Held :
      Held 2 e
      → e.polling.reads ≡ 0
      → Held (level (stop_processor now e).0) (stop_processor now e).1
  stop_processor-Held h unread = elim (Bool-cases e.polling.processing) [
    | inl busy ↦ rw (halts now e (h.on (omega arith)) busy) (record {
      one = h.one;
      watched = later 2 3 e.sweeper (omega arith) (omega arith) h.watched;
      on = λ l. absurd (omega (arith, l));
      halted = λ l. record { off = refl; unread = unread };
      settled = λ l. absurd (omega (arith, l));
      said = λ l. absurd (omega (arith, l));
      released = λ l. absurd (omega (arith, l));
      closed = λ l. absurd (omega (arith, l));
    })
    | inr free ↦ rw (stop_free (h.on (omega arith)) free) (
        rest-Held (record e.polling { is_running = false }) h.one h.watched
          (record { off = refl; unread = unread }) free)
  ]

  await_free :
      e.polling.processing ≡ false
      → await_batch now false e ≡ (
        after_stop (stop_rest now e.polling).farewell,
        record e { polling = stop_rest now e.polling },
      )
  unfolding await_batch stop_goes_on
  await_free free = ground (arith, free)

  pub await_batch-Held :
      Held 3 e → Held (level (await_batch now false e).0) (await_batch now false e).1
  await_batch-Held h = elim (Bool-cases e.polling.processing) [
    | inl busy ↦ rw (waits now e busy) h
    | inr free ↦ rw (await_free free) (
        rest-Held e.polling h.one (later 3 2 e.sweeper (omega arith) (omega arith) h.watched)
          (h.halted (omega arith)) free)
  ]
