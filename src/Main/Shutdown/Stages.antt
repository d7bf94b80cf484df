-- ===== src/Main/Shutdown/Stages.antt =====
-- The steps of a call of `shutdown`, stage by stage.
use mathlib.Core.Path.{subst, sym}
use settlement_engine.Prelude.{ℕ, ◌≤◌, ◌≡◌, refl, true, false, Option, none, some, branch, arith}
use settlement_engine.Nonce.{NonceManager, destroy, release_lock}
use settlement_engine.Processor.Polling.Spacing.{OneAtATime}
use settlement_engine.Sweeper.Timer.{Timer, stops, stop_ends, stop_timer, each-One}
use settlement_engine.Main.Shutdown.{
  Engine, Stage, begins, sweep_awaited, at_processor, batch_awaited, farewell_awaited,
  at_nonce_manager, at_client, exited, failed, stop_sweeper, await_sweep, advance,
}
use settlement_engine.Main.Shutdown.Signals.{destroyed-goes_on, closed_client}
use settlement_engine.Main.Shutdown.Closing.{
  Closing, called, sweeping, polling, advancing, level, Watched, SweeperAt, Held, polling-Held,
  tick-Held,
}
use settlement_engine.Main.Shutdown.Halting.{later, rested, stop_processor-Held, await_batch-Held}

released_lock : (n : NonceManager) → (destroy n).1.lock_id ≡ none
unfolding destroy release_lock
released_lock n = ground arith

abbrev pub HeldAt : Stage × Engine → Type 0
HeldAt (s, e) = Held (level s) e

pub early_Held :
    (n : ℕ) (e : Engine)
    → n ≤ 2
    → OneAtATime e.polling
    → e.polling.is_running ≡ true
    → SweeperAt n e.sweeper
    → Held n e
early_Held n e l one on watched = record {
  one = one;
  watched = watched;
  on = λ _. on;
  halted = λ k. absurd (omega (arith, k, l));
  settled = λ k. absurd (omega (arith, k, l));
  said = λ k. absurd (omega (arith, k, l));
  released = λ k. absurd (omega (arith, k, l));
  closed = λ k. absurd (omega (arith, k, l));
}

stop_timer-Watched : (t : Timer) → Watched 0 t → Watched 1 (stop_timer t)
unfolding stop_timer
stop_timer-Watched t w = record {
  single = each-One t (stop_timer t) (stops t) w.single;
  on = λ e. absurd (omega (arith, e));
  off = λ l. ground (arith, w.on refl);
  over = λ l. absurd (omega (arith, l));
}

sweep_over-Watched :
    (t : Timer) → t.awaited ≡ false → Watched 1 t → Watched 2 (record t { stopping = false })
sweep_over-Watched t free w =
    let none_left : t.sweeps ≡ 0 = ground (arith, w.single.counted, free) in
    record {
      single = each-One t (record t { stopping = false }) (stop_ends t free) w.single;
      on = λ e. absurd (omega (arith, e));
      off = λ l. w.off (omega arith);
      over = λ l. none_left;
    }

stop_sweeper-Held :
    (e : Engine) (s : Option Timer)
    → e.sweeper ≡ s
    → Held 0 e
    → Held (level (stop_sweeper s e).0) (stop_sweeper s e).1
stop_sweeper-Held e none set h =
    early_Held 2 e (omega arith) h.one (h.on (omega arith)) (subst (SweeperAt 2) (sym set) tt)
stop_sweeper-Held e (some t) set h =
    let w : Watched 0 t = subst (SweeperAt 0) set h.watched in
    branch HeldAt t.is_running _ _
      (λ on.
        early_Held 1 (record e { sweeper = some (stop_timer t) }) (omega arith) h.one
          (h.on (omega arith)) (stop_timer-Watched t w))
      (λ off. absurd (ground (arith, off, w.on refl)))

await_sweep-Held :
    (e : Engine) (s : Option Timer)
    → e.sweeper ≡ s
    → Held 1 e
    → Held (level (await_sweep s e).0) (await_sweep s e).1
await_sweep-Held e none set h =
    early_Held 2 e (omega arith) h.one (h.on (omega arith)) (subst (SweeperAt 2) (sym set) tt)
await_sweep-Held e (some t) set h =
    let w : Watched 1 t = subst (SweeperAt 1) set h.watched in
    branch HeldAt t.awaited _ _ (λ busy. h)
      λ free.
        early_Held 2 (record e { sweeper = some (record t { stopping = false }) }) (omega arith)
          h.one (h.on (omega arith)) (sweep_over-Watched t free w)

advance-Held :
    (now : ℕ) (s : Stage) (e : Engine)
    → (s ≡ at_processor → e.polling.reads ≡ 0)
    → Held (level s) e
    → Held (level (advance now false s e).0) (advance now false s e).1
unfolding advance
advance-Held now begins e unread h = stop_sweeper-Held e e.sweeper refl h
advance-Held now sweep_awaited e unread h = await_sweep-Held e e.sweeper refl h
advance-Held now at_processor e unread h = stop_processor-Held now e h (unread refl)
advance-Held now batch_awaited e unread h = await_batch-Held now e h
advance-Held now farewell_awaited e unread h =
    rested e e.polling e.polling.farewell refl h.one
      (later 4 2 e.sweeper (omega arith) (omega arith) h.watched) (h.halted (omega arith))
      (h.settled (omega arith))
advance-Held now at_nonce_manager e unread h = rw (destroyed-goes_on e.nonce_manager e) (record {
  one = h.one;
  watched = later 5 6 e.sweeper (omega arith) (omega arith) h.watched;
  on = λ l. absurd (omega (arith, l));
  halted = λ l. h.halted (omega arith);
  settled = λ l. h.settled (omega arith);
  said = λ l. h.said (omega arith);
  released = λ l. released_lock e.nonce_manager;
  closed = λ l. absurd (omega (arith, l));
})
advance-Held now at_client e unread h = record {
  one = h.one;
  watched = later 6 7 e.sweeper (omega arith) (omega arith) h.watched;
  on = λ l. absurd (omega (arith, l));
  halted = λ l. h.halted (omega arith);
  settled = λ l. h.settled (omega arith);
  said = λ l. h.said (omega arith);
  released = λ l. h.released (omega arith);
  closed = λ l. closed_client e.clients;
}
advance-Held now exited e unread h = h
advance-Held now failed e unread h = h

pub run-Held : {first e : Engine} {s : Stage} → Closing first s e → Held 0 first → Held (level s) e
run-Held called h = h
run-Held (sweeping {s} e c set tick) h = tick-Held (level s) e set tick (run-Held c h)
run-Held (polling {s} e c step o) h = polling-Held (level s) e step o (run-Held c h)
run-Held (advancing s e now c unread) h = advance-Held now s e unread (run-Held c h)
