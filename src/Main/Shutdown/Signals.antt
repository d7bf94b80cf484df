-- ===== src/Main/Shutdown/Signals.antt =====
-- A second signal while the engine shuts down.
use settlement_engine.Prelude.{
  ℕ, ◌≡◌, refl, true, false, Option, none, some, arith, Option-cases, inl, inr,
}
use settlement_engine.Exec.{ok}
use settlement_engine.Nonce.{NonceManager, destroy, release_lock}
use settlement_engine.Redis.Client.{RedisClients, close_redis_client}
use settlement_engine.Processor.Polling.{Polling, stop}
use settlement_engine.Sweeper.Timer.{Timer, stop_timer}
use settlement_engine.Main.Shutdown.{
  Engine, begins, batch_awaited, at_nonce_manager, at_client, exited, stop_processor, await_batch,
  advance, advances, destroyed,
}

pub destroy-returns : (n : NonceManager) → (destroy n).0 ≡ ok tt
unfolding destroy release_lock
destroy-returns n = elim (Option-cases n.lock_id) [ inl e ↦ rw e refl | inr (id, e) ↦ rw e refl ]

pub destroyed-goes_on :
    (n : NonceManager) (e : Engine)
    → destroyed (destroy n) e ≡ (at_client, record e { nonce_manager = (destroy n).1 })
destroyed-goes_on n e = ground (arith, destroy-returns n)

pub closed_client : (c : RedisClients) → (close_redis_client c).redis_client ≡ none
unfolding close_redis_client
closed_client c = ground arith

-- a sweeper that runs and awaits no sweep
abbrev pub IsQuiet : Option Timer → Type 0
IsQuiet none = Unit
IsQuiet (some t) = (t.is_running ≡ true) × (t.awaited ≡ false)

busy_stop :
    (now : ℕ) (p : Polling)
    → p.is_running ≡ true
    → p.processing ≡ true
    → stop now p ≡ record p { is_running = false; stopping = true }
unfolding stop
busy_stop now p on busy = ground (arith, on, busy)

-- the engine when the first call awaits the batch in flight
abbrev halted : Option Timer → Engine → Engine
halted none e = record e { polling = record e.polling { is_running = false; stopping = true } }
halted (some t) e = record e {
  sweeper = some (record (stop_timer t) { stopping = false });
  polling = record e.polling { is_running = false; stopping = true };
}

pub halts :
    (now : ℕ) (e : Engine)
    → e.polling.is_running ≡ true
    → e.polling.processing ≡ true
    → stop_processor now e ≡ (
      batch_awaited,
      record e { polling = record e.polling { is_running = false; stopping = true } },
    )
unfolding stop_processor
halts now e on busy = ground (arith, on, busy, busy_stop now e.polling on busy)

pub waits :
    (now : ℕ) (e : Engine)
    → e.polling.processing ≡ true
    → await_batch now false e ≡ (batch_awaited, e)
unfolding await_batch
waits now e busy = ground (arith, busy)

first_call :
    (now : ℕ) (e : Engine) (s : Option Timer)
    → e.sweeper ≡ s
    → e.polling.is_running ≡ true
    → e.polling.processing ≡ true
    → IsQuiet s
    → advances 3 now (begins, e) ≡ (batch_awaited, halted s e)
unfolding advances advance stop_processor await_batch stop_timer
first_call now e none none_set on busy quiet =
    ground (arith, none_set, halts now e on busy, waits now (halted none e) busy)
first_call now e (some t) set on busy quiet = ground (
  arith,
  set,
  quiet.0,
  quiet.1,
  halts now (record e { sweeper = some (record (stop_timer t) { stopping = false }) }) on busy,
)

abbrev IsOff : Option Timer → Type 0
IsOff none = Unit
IsOff (some t) = t.is_running ≡ false

off_processor :
    (now : ℕ) (e : Engine)
    → e.polling.is_running ≡ false
    → stop_processor now e ≡ (at_nonce_manager, e)
unfolding stop_processor
off_processor now e off = ground (arith, off)

-- a call that finds the sweeper and the processor stopped
second_call :
    (now : ℕ) (e : Engine) (s : Option Timer)
    → e.sweeper ≡ s
    → IsOff s
    → e.polling.is_running ≡ false
    → advances 4 now (begins, e) ≡ (
      exited,
      record e {
        nonce_manager = (destroy e.nonce_manager).1;
        clients = close_redis_client e.clients;
      },
    )
unfolding advances advance
second_call now e none is_none off halt =
    ground (arith, is_none, off_processor now e halt, destroyed-goes_on e.nonce_manager e)
second_call now e (some t) set off halt =
    ground (arith, set, off, off_processor now e halt, destroyed-goes_on e.nonce_manager e)

halted-off :
    (now : ℕ) (e : Engine) (s : Option Timer)
    → IsQuiet s
    → e.sweeper ≡ s
    → advances 4 now (begins, halted s e) ≡ (
      exited,
      record (halted s e) {
        nonce_manager = (destroy e.nonce_manager).1;
        clients = close_redis_client e.clients;
      },
    )
unfolding stop_timer
halted-off now e none quiet is_none = second_call now (halted none e) none is_none tt refl
halted-off now e (some t) quiet set =
    second_call now (halted (some t) e) (some (record (stop_timer t) { stopping = false })) refl
      (ground (arith, quiet.0)) refl

halted-in_flight :
    (s : Option Timer) (e : Engine) → (halted s e).polling.in_flight ≡ e.polling.in_flight
halted-in_flight none e = refl
halted-in_flight (some t) e = refl

-- A signal that comes while polls have a batch in flight, and no sweep runs, makes `shutdown` await the
-- batch. A second signal then runs through: it takes the sweeper and the processor for stopped, gives the
-- lock of the wallet back, drops the client of Redis and exits, with the batch still in flight.
pub second_signal_exits :
    (now later : ℕ) (e : Engine)
    → e.polling.is_running ≡ true
    → e.polling.processing ≡ true
    → IsQuiet e.sweeper
    → ((advances 3 now (begins, e)).0 ≡ batch_awaited)
      × ((advances 4 later (begins, (advances 3 now (begins, e)).1)).0 ≡ exited)
      × ((advances 4 later (begins, (advances 3 now (begins, e)).1)).1.polling.in_flight
          ≡ e.polling.in_flight)
      × ((advances 4 later (begins, (advances 3 now (begins, e)).1)).1.nonce_manager
          ≡ (destroy e.nonce_manager).1)
      × ((advances 4 later (begins, (advances 3 now (begins, e)).1)).1.clients.redis_client ≡ none)
second_signal_exits now later e on busy quiet = rw (first_call now e e.sweeper refl on busy quiet) (
    rw (halted-off later e e.sweeper quiet refl)
      (refl, refl, halted-in_flight e.sweeper e, refl, closed_client e.clients))
