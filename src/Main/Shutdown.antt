-- ===== src/Main/Shutdown.antt =====
-- The handler of SIGINT and SIGTERM in index.ts, at the grain of `await`: each call of `shutdown` is at a
-- stage, and `advance` is what it runs without a pause, if what it awaits is there.
pub mod Closing
pub mod Halting
pub mod Stages
pub mod Drained
pub mod Signals
use settlement_engine.Prelude.{ℕ, zero, suc, Bool, false, Option, none, some, List, if◌then◌else◌}
use settlement_engine.Exec.{Result, ok, err}
use settlement_engine.Schemas.{MatchWithMeta}
use settlement_engine.Contract.Errors.{Thrown}
use settlement_engine.Nonce.{NonceManager, destroy}
use settlement_engine.Redis.Client.{RedisClients, close_redis_client}
use settlement_engine.Processor.Polling.{Polling, stop, stop_goes_on}
use settlement_engine.Sweeper.Timer.{Timer, stop_timer}

pub record Engine : Type 0 where
  pub sweeper : Option Timer
  pub polling : Polling
  pub nonce_manager : NonceManager
  pub clients : RedisClients

pub data Stage : Type 0 where
  begins : Stage
  -- `await this.sweepPromise` in `sweeper.stop()`
  sweep_awaited : Stage
  at_processor : Stage
  -- `await this.processingPromise` in `batchProcessor.stop()`
  batch_awaited : Stage
  -- `await this.processBatch()` there
  farewell_awaited : Stage
  at_nonce_manager : Stage
  at_client : Stage
  -- `process.exit(0)`
  exited : Stage
  -- `shutdown` has thrown
  failed : Stage

abbrev pub after_stop : Option (List MatchWithMeta) → Stage
after_stop none = at_nonce_manager
after_stop (some batch) = farewell_awaited

-- `if (sweeper) await sweeper.stop()`
abbrev pub stop_sweeper : Option Timer → Engine → Stage × Engine
stop_sweeper none e = (at_processor, e)
stop_sweeper (some t) e =
    if t.is_running
    then (sweep_awaited, record e { sweeper = some (stop_timer t) })
    else (at_processor, e)

abbrev pub await_sweep : Option Timer → Engine → Stage × Engine
await_sweep none e = (at_processor, e)
await_sweep (some t) e =
    if t.awaited
    then (sweep_awaited, e)
    else (at_processor, record e { sweeper = some (record t { stopping = false }) })

-- `await batchProcessor.stop()`
unfoldable pub stop_processor : ℕ → Engine → Stage × Engine
unfolding stop
stop_processor now e =
    let p = stop now e.polling in
    if e.polling.is_running
    then (if e.polling.processing
        then (batch_awaited, record e { polling = p })
        else (after_stop p.farewell, record e { polling = p }))
    else (at_nonce_manager, e)

unfoldable pub await_batch : ℕ → Bool → Engine → Stage × Engine
unfolding stop_goes_on
await_batch now rejected e =
    let p = stop_goes_on now rejected e.polling in
    if e.polling.processing
    then (batch_awaited, e)
    else if rejected
    then (failed, record e { polling = p })
    else (after_stop p.farewell, record e { polling = p })

abbrev pub destroyed : Result Thrown (Unit {0}) × NonceManager → Engine → Stage × Engine
destroyed (ok done, n) e = (at_client, record e { nonce_manager = n })
destroyed (err thrown, n) e = (failed, record e { nonce_manager = n })

-- `rejected` is whether the promise of the batch in flight has been rejected
unfoldable pub advance : ℕ → Bool → Stage → Engine → Stage × Engine
unfolding stop_processor await_batch destroy close_redis_client
advance now rejected begins e = stop_sweeper e.sweeper e
advance now rejected sweep_awaited e = await_sweep e.sweeper e
advance now rejected at_processor e = stop_processor now e
advance now rejected batch_awaited e = await_batch now rejected e
advance now rejected farewell_awaited e = (after_stop e.polling.farewell, e)
advance now rejected at_nonce_manager e = destroyed (destroy e.nonce_manager) e
advance now rejected at_client e = (exited, record e { clients = close_redis_client e.clients })
advance now rejected exited e = (exited, e)
advance now rejected failed e = (failed, e)

-- a number of steps of one call
unfoldable pub advances : ℕ → ℕ → Stage × Engine → Stage × Engine
unfolding advance
advances zero now s = s
advances (suc rounds) now (stage, e) = advances rounds now (advance now false stage e)
