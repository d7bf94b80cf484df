-- ===== src/Tests/Endings.antt =====
-- The theorems on the end of the engine, at an engine with a batch in flight.
use settlement_engine.Prelude.{◌≡◌, refl, true, false, none, some, [], ◌∷◌, length, arith}
use settlement_engine.Accumulator.{create}
use settlement_engine.Nonce.{destroy}
use settlement_engine.Redis.Client.{no_client, get_redis_client, close_redis_client}
use settlement_engine.Processor.Polling.{
  Polling, new_polling, batch_done, finished, stop, stop_goes_on, stop_rest,
}
use settlement_engine.Processor.Polling.Spacing.{OneAtATime}
use settlement_engine.Sweeper.Timer.{Timer, stop_timer, sweep_ended}
use settlement_engine.Main.Shutdown.{
  Engine, begins, sweep_awaited, at_processor, batch_awaited, at_nonce_manager, at_client, exited,
  advance, advances,
}
use settlement_engine.Main.Shutdown.Signals.{second_signal_exits}
use settlement_engine.Main.Shutdown.Closing.{
  Closing, called, sweeping, sweep_ends, polling, advancing,
}
use settlement_engine.Main.Shutdown.Drained.{IsUp, IsDone, shutdown_drains}
use settlement_engine.Tests.Samples.{first_entry, wallet}

abbrev busy : Polling
busy = record (new_polling (create 1 500 none 1000)) {
  is_running = true;
  processing = true;
  in_flight = (first_entry ∷ []) ∷ [];
}

abbrev timer : Timer
timer = record { is_running = true; awaited = false; sweeps = 0; stopping = false }

abbrev engine : Engine
engine = record {
  sweeper = some timer;
  polling = busy;
  nonce_manager = wallet;
  clients = (get_redis_client (λ k. "ready") no_client).1;
}

abbrev after_first : Engine
after_first = (advances 3 2000 (begins, engine)).1

second_signal_exits_example :
    ((advances 3 2000 (begins, engine)).0 ≡ batch_awaited)
    × ((advances 4 2100 (begins, after_first)).0 ≡ exited)
    × ((advances 4 2100 (begins, after_first)).1.polling.in_flight ≡ (first_entry ∷ []) ∷ [])
    × ((advances 4 2100 (begins, after_first)).1.nonce_manager ≡ (destroy wallet).1)
    × ((advances 4 2100 (begins, after_first)).1.clients.redis_client ≡ none)
unfolding new_polling
second_signal_exits_example = second_signal_exits 2000 2100 engine refl refl (refl, refl)

-- the engine while a sweep runs too
abbrev sweeping_engine : Engine
sweeping_engine = record engine { sweeper = some (record timer { awaited = true; sweeps = 1 }) }

abbrev stopped_sweeper : Timer
stopped_sweeper = record { is_running = false; awaited = true; sweeps = 1; stopping = true }

abbrev asked : Engine
asked = record sweeping_engine { sweeper = some stopped_sweeper }

abbrev swept : Engine
swept = record asked { sweeper = some (sweep_ended stopped_sweeper) }

abbrev idle_sweeper : Timer
idle_sweeper = record { is_running = false; awaited = false; sweeps = 0; stopping = false }

abbrev sweep_over : Engine
sweep_over = record engine { sweeper = some idle_sweeper }

abbrev halted_polling : Polling
halted_polling = record busy { is_running = false; stopping = true }

abbrev waiting : Engine
waiting = record sweep_over { polling = halted_polling }

abbrev idle_polling : Polling
idle_polling = batch_done [] [] none halted_polling

abbrev settled : Engine
settled = record sweep_over { polling = idle_polling }

abbrev drained : Engine
drained = record settled { polling = stop_rest 2200 idle_polling }

abbrev unlocked : Engine
unlocked = record drained { nonce_manager = (destroy wallet).1 }

abbrev ended : Engine
ended = record unlocked { clients = close_redis_client engine.clients }

step_one : Closing sweeping_engine sweep_awaited asked
unfolding advance stop_timer new_polling
step_one = advancing begins sweeping_engine 2000 called (λ e. refl)

step_two : Closing sweeping_engine at_processor sweep_over
unfolding advance sweep_ended new_polling
step_two =
    advancing sweep_awaited swept 2050
      (sweeping asked step_one refl (sweep_ends stopped_sweeper (omega arith))) (λ e. refl)

step_three : Closing sweeping_engine batch_awaited waiting
unfolding advance stop new_polling
step_three = advancing at_processor sweep_over 2100 step_two (λ e. refl)

step_four : Closing sweeping_engine at_nonce_manager drained
unfolding advance stop_goes_on stop_rest batch_done new_polling create
step_four =
    advancing batch_awaited settled 2200
      (polling waiting step_three (finished [] [] (first_entry ∷ []) none halted_polling refl) tt)
      (λ e. cc)

step_five : Closing sweeping_engine exited ended
unfolding advance
step_five =
    advancing at_client unlocked 2300 (advancing at_nonce_manager drained 2250 step_four (λ e. cc))
      (λ e. cc)

up : IsUp sweeping_engine.sweeper
up = (record { counted = refl; quiet = λ off done. cc }, refl)

one_at_a_time : OneAtATime busy
unfolding new_polling
one_at_a_time = record { one = omega arith; seen = λ e. cc }

shutdown_drains_example :
    IsDone ended.sweeper
    × (ended.polling.is_running ≡ false)
    × (length ended.polling.in_flight ≡ 0)
    × (ended.polling.farewell ≡ none)
    × (ended.nonce_manager.lock_id ≡ none)
    × (ended.clients.redis_client ≡ none)
shutdown_drains_example = shutdown_drains up one_at_a_time refl step_five
