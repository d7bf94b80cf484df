-- ===== src/Main/Shutdown/Drained.antt =====
-- What a shutdown leaves.
use settlement_engine.Prelude.{◌≡◌, true, false, Option, none, some, length, arith}
use settlement_engine.Processor.Polling.Spacing.{OneAtATime}
use settlement_engine.Sweeper.Timer.{Timer, OneSweep}
use settlement_engine.Main.Shutdown.{Engine, exited}
use settlement_engine.Main.Shutdown.Closing.{Closing, SweeperAt}
use settlement_engine.Main.Shutdown.Stages.{early_Held, run-Held}

abbrev pub IsUp : Option Timer → Type 0
IsUp none = Unit
IsUp (some t) = OneSweep t × (t.is_running ≡ true)

abbrev pub IsDone : Option Timer → Type 0
IsDone none = Unit
IsDone (some t) = (t.is_running ≡ false) × (t.sweeps ≡ 0)

up-Watched : (s : Option Timer) → IsUp s → SweeperAt 0 s
up-Watched none u = tt
up-Watched (some t) (single, runs) = record {
  single = single;
  on = λ _. runs;
  off = λ l. absurd (omega (arith, l));
  over = λ l. absurd (omega (arith, l));
}

watched-IsDone : (s : Option Timer) → SweeperAt 7 s → IsDone s
watched-IsDone none w = tt
watched-IsDone (some t) w = (w.off (omega arith), w.over (omega arith))

-- One call of `shutdown` that begins while the engine runs, with one poll at most in its read or its batch
-- and one sweep at most, that finds no poll in its read when it stops the processor, and whose awaited
-- batch does not reject: where no second signal comes and no poll begins its read while another poll
-- reads, whatever the polls, reclaims, batches and sweeps do in between, when it exits the sweeper and the
-- processor do not run, no sweep and no batch of a poll or of `stop` is in flight, the manager has no lock,
-- and the engine has no client of Redis.
pub shutdown_drains :
    {first e : Engine}
    → IsUp first.sweeper
    → OneAtATime first.polling
    → first.polling.is_running ≡ true
    → Closing first exited e
    → IsDone e.sweeper
      × (e.polling.is_running ≡ false)
      × (length e.polling.in_flight ≡ 0)
      × (e.polling.farewell ≡ none)
      × (e.nonce_manager.lock_id ≡ none)
      × (e.clients.redis_client ≡ none)
shutdown_drains {first} {e} up one on closing =
    let h =
      run-Held closing (early_Held 0 first (omega arith) one on (up-Watched first.sweeper up)) in
    (
      watched-IsDone e.sweeper h.watched,
      (h.halted (omega arith)).off,
      h.one.seen (h.settled (omega arith)),
      h.said (omega arith),
      h.released (omega arith),
      h.closed (omega arith),
    )
