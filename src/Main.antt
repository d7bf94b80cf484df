-- ===== src/Main.antt =====
-- `main` of index.ts up to its start, on the answers of the environment and of Redis. `created_at` and `now`
-- are what `Date.now()` returns when the accumulator is made and when the first poll begins.
pub mod Boot
pub mod Shutdown
use settlement_engine.Prelude.{
  ℕ, ◌*◌, ◌<◌, String, Codes, Bool, true, false, Option, none, some, length, ltb, if◌then◌else◌,
}
use settlement_engine.Exec.{ok, err}
use settlement_engine.Schemas.Value.{JavaScript}
use settlement_engine.Redis.{Redis}
use settlement_engine.Accumulator.{BatchAccumulator, create, add_matches}
use settlement_engine.Config.{ProcessEnv, AppConfig, load_config}
use settlement_engine.Consumer.{create_invalid_entry_handler}
use settlement_engine.Consumer.Read.{Reply}
use settlement_engine.Consumer.Startup.{
  GroupReply, ensure_consumer_group, Options, Loading, ClaimReplies, process_pending_entries,
}
use settlement_engine.Nonce.Keys.{ManagerSettings, create_nonce_manager}
use settlement_engine.Processor.Polling.{Polling, new_polling, start}
use settlement_engine.Sweeper.Timer.{Timer, new_timer, start_timer}

-- what comes from outside until the engine runs
pub record Answers : Type 0 where
  pub group : GroupReply
  pub replies : ℕ → Reply
  pub claims : ℕ → ClaimReplies
  pub created_at : ℕ
  pub now : ℕ
  pub redis_ready : Bool

pub data Main : Type 0 where
  -- `main` throws, and the process exits
  crashes : Main
  -- the pending entries are still being processed when the fuel is used up
  reclaims : Main
  runs : Polling → Option Timer → Main

abbrev pub reclaim_options : JavaScript → AppConfig → Options
reclaim_options js config = record {
  js = js;
  on_invalid = some create_invalid_entry_handler;
  read_count = config.read_count;
  max_entries = some (config.batch_size * 3);
}

-- the accumulator with the matches of the pending entries
unfoldable pub filled_accumulator : AppConfig → ℕ → Loading → BatchAccumulator
unfolding create add_matches
filled_accumulator config created_at (matches, redis) =
    let accumulator = create config.batch_size config.batch_interval_ms none created_at in
    if ltb 0 (length matches) then add_matches matches accumulator else accumulator

abbrev pub sweeper_of : AppConfig → Option Timer
sweeper_of config = if config.sweeper_enabled then some (start_timer new_timer) else none

-- from `createNonceManager` on, which may throw
abbrev pub started_with : Option ManagerSettings → AppConfig → Answers → Loading → Main
started_with none config answers loaded = crashes
started_with (some manager) config answers loaded =
    runs
      (start answers.now answers.redis_ready
        (new_polling (filled_accumulator config answers.created_at loaded)))
      (sweeper_of config)

unfoldable pub run_engine : (Codes → Option String) → AppConfig → Answers → Option Loading → Main
unfolding filled_accumulator new_polling start start_timer create_nonce_manager
run_engine address_of config answers none = reclaims
run_engine address_of config answers (some loaded) =
    started_with (create_nonce_manager address_of config none) config answers loaded

-- Processing the pending entries does not throw, since its loops catch what Redis throws.
unfoldable pub boot : JavaScript → (Codes → Option String) → Answers → ℕ → Redis → AppConfig → Main
unfolding ensure_consumer_group process_pending_entries run_engine
boot js address_of answers fuel redis config = elim (ensure_consumer_group answers.group) [
  | err message ↦ crashes
  | ok created ↦ run_engine address_of config answers (
      process_pending_entries (reclaim_options js config) config.settlement_matches_stream
        answers.replies answers.claims fuel redis)
]

abbrev pub boot_with :
    JavaScript → (Codes → Option String) → Answers → ℕ → Redis → Option AppConfig → Main
boot_with js address_of answers fuel redis none = crashes
boot_with js address_of answers fuel redis (some config) =
    boot js address_of answers fuel redis config

unfoldable pub main :
    JavaScript → (String → Bool) → (Codes → Option String) → ProcessEnv → Answers → ℕ → Redis → Main
unfolding load_config boot
main js is_url address_of env answers fuel redis =
    boot_with js address_of answers fuel redis (load_config js is_url env)
