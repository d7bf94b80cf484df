-- ===== src/Tests/Settings.antt =====
-- The theorems on the configuration and on the start, at an environment with the required settings and one more.
use mathlib.Core.Option.{none-ne-some}
use settlement_engine.Prelude.{
  Option, Codes, codes_eq, ◌++◌, true, arith, String, str_eq, Bool, false, not, none, some, [], ◌∷◌,
  ◌≡◌, refl, if◌then◌else◌,
}
use settlement_engine.Prelude.Text.{codes, codes_start_with}
use settlement_engine.Contract.Clients.{with_prefix}
use settlement_engine.Schemas.Amount.{value_of}
use settlement_engine.Schemas.Value.{JavaScript, natural}
use settlement_engine.Config.{ProcessEnv, AppConfig, load_config}
use settlement_engine.Exec.{ok}
use settlement_engine.Redis.{Redis}
use settlement_engine.Consumer.Read.{streams}
use settlement_engine.Consumer.Startup.{refused, ensure_consumer_group}
use settlement_engine.Processor.Polling.{Polling}
use settlement_engine.Main.{Answers, runs, sweeper_of, main}
use settlement_engine.Main.Boot.{IsReady, main-IsReady}
use settlement_engine.Config.Usable.{IsUsable, load_config-IsUsable}

abbrev js : JavaScript
js = record {
  json_parse = λ s. none;
  number_of = λ s. natural (value_of (codes s));
  is_uuid = λ s. not (str_eq s "");
}

abbrev address : String
address = "0x00112233445566778899aAbBcCdDeEfF00112233"

abbrev key : String
key = "00112233445566778899aabbccddeeff00112233445566778899aabbccddeeff"

abbrev env : ProcessEnv
env k =
    if str_eq k "SETTLEMENT_CONTRACT_ADDRESS"
    then some address
    else if str_eq k "ETHEREUM_RPC_URL"
    then some "https://rpc.example"
    else if str_eq k "SETTLEMENT_PRIVATE_KEY"
    then some key
    else if str_eq k "SETTLEMENT_BATCH_SIZE"
    then some "25"
    else none

abbrev is_url : String → Bool
is_url s = not (str_eq s "")

abbrev pub config : AppConfig
config = record {
  redis_url = "redis://localhost:6379";
  settlement_matches_stream = "settlement:matches";
  consumer_group = "settlement-engine";
  consumer_name = "settlement-engine-1";
  read_block_ms = 5000;
  read_count = 10;
  stream_max_len = 10000;
  batch_size = 25;
  batch_interval_ms = 5000;
  poll_interval_ms = 200;
  pending_reclaim_interval_ms = 60000;
  xclaim_min_idle_ms = 60000;
  failure_backoff_base_ms = 1000;
  failure_backoff_max_ms = 60000;
  settlement_contract_address = address;
  ethereum_rpc_urls = "https://rpc.example" ∷ [];
  settlement_private_key = key;
  ethereum_chain_id = 1;
  nonce_lock_ttl_ms = 30000;
  tx_confirmation_timeout_ms = 120000;
  nonce_lock_retry_delay_ms = 500;
  sweeper_enabled = false;
  sweeper_interval_ms = 3600000;
  sweeper_stuck_threshold_ms = 86400000;
  sweeper_batch_size = 50;
}

loaded : load_config js is_url env ≡ some config
unfolding load_config codes
loaded = refl

load_config-IsUsable_example : IsUsable config
load_config-IsUsable_example = load_config-IsUsable js is_url env config refl loaded

-- the group is there, and nothing is pending
abbrev answers : Answers
answers = record {
  group = refused "BUSYGROUP Consumer Group name already exists";
  replies = λ i. streams (("settlement:matches", []) ∷ []);
  claims = λ i. record { summary = some (some 0); details = none; claimed = none };
  created_at = 1000;
  now = 1001;
  redis_ready = true;
}

abbrev redis : Redis
redis = record { acked = []; deleted = []; trims = 0; dead_letters = []; faults = [] }

group_there : ensure_consumer_group answers.group ≡ ok tt
unfolding ensure_consumer_group
group_there = refl

-- one key has an account
abbrev address_of : Codes → Option String
address_of k = if codes_eq k (codes "0x" ++ codes key) then some address else none

main-IsReady_example :
    (p : Polling) × (main js is_url address_of env answers 76 redis ≡ runs p (sweeper_of config))
    × IsReady p
unfolding with_prefix codes codes_eq codes_start_with
main-IsReady_example =
    main-IsReady js is_url address_of env answers redis config address refl loaded refl group_there
      (λ i h. absurd (omega (arith, h))) (λ i ids es e e'. absurd (none-ne-some ids e))
