-- ===== src/Config.antt =====
-- config.ts: the settings that `loadConfig` reads from the environment, or that it refuses.
pub mod Usable
use settlement_engine.Prelude.{
  ℕ, String, str_eq, Codes, Bool, true, false, ◌&&◌, ◌||◌, Option, none, some, List, [], ◌∷◌, ltb,
  ◌==◌, length, if◌then◌else◌,
}
use settlement_engine.Prelude.Text.{codes}
use settlement_engine.Schemas.Value.{JavaScript, JsNumber, natural, other_number}
use settlement_engine.Schemas.Validation.{◌>>=◌, guarded, all_hex, is_ethereum_address}

-- `process.env`
abbrev pub ProcessEnv : Type 0
ProcessEnv = String → Option String

pub record AppConfig : Type 0 where
  pub redis_url : String
  pub settlement_matches_stream : String
  pub consumer_group : String
  pub consumer_name : String
  pub read_block_ms : ℕ
  pub read_count : ℕ
  pub stream_max_len : ℕ
  pub batch_size : ℕ
  pub batch_interval_ms : ℕ
  pub poll_interval_ms : ℕ
  pub pending_reclaim_interval_ms : ℕ
  pub xclaim_min_idle_ms : ℕ
  pub failure_backoff_base_ms : ℕ
  pub failure_backoff_max_ms : ℕ
  pub settlement_contract_address : String
  pub ethereum_rpc_urls : List String
  pub settlement_private_key : String
  pub ethereum_chain_id : ℕ
  pub nonce_lock_ttl_ms : ℕ
  pub tx_confirmation_timeout_ms : ℕ
  pub nonce_lock_retry_delay_ms : ℕ
  pub sweeper_enabled : Bool
  pub sweeper_interval_ms : ℕ
  pub sweeper_stuck_threshold_ms : ℕ
  pub sweeper_batch_size : ℕ

-- `z.string().default(fallback)`
abbrev pub text_setting : String → Option String → Option String
text_setting fallback none = some fallback
text_setting fallback (some s) = some s

-- `z.number().int().positive()`
abbrev pub positive_int : JsNumber → Option ℕ
positive_int (natural n) = guarded (ltb 0 n) n
positive_int other_number = none

-- `transform((value) => Number(value || otherwise))`, whose default is a text too
abbrev pub positive_setting : JavaScript → String → ℕ → Option String → Option ℕ
positive_setting js fallback otherwise none = positive_int (js.number_of fallback)
positive_setting js fallback otherwise (some s) =
    positive_int (if str_eq s "" then natural otherwise else js.number_of s)

-- a text that has to be there and to pass a test
abbrev pub required : (String → Bool) → Option String → Option String
required p none = none
required p (some s) = guarded (p s) s

-- `z.string().url().optional()`
abbrev pub optional_url : (String → Bool) → Option String → Option (Option String)
optional_url is_url none = some none
optional_url is_url (some s) = guarded (is_url s) (some s)

-- `^[a-fA-F0-9]{64}$`
abbrev pub is_key : Codes → Bool
is_key s = length s == 64 && all_hex s

-- `^(0x)?[a-fA-F0-9]{64}$`
abbrev pub has_key_form : Codes → Bool
has_key_form (z ∷ x ∷ s) = (z == b'0' && x == b'x' && is_key s) || is_key (z ∷ x ∷ s)
has_key_form s = is_key s

unfoldable pub is_private_key : String → Bool
unfolding codes
is_private_key s = has_key_form (codes s)

-- `value === 'true'`, `false` by default
abbrev pub flag_setting : Option String → Bool
flag_setting none = false
flag_setting (some s) = str_eq s "true"

-- `[primary, secondary, tertiary].filter((url) => Boolean(url))`
abbrev pub present : List (Option String) → List String
present [] = []
present (none ∷ urls) = present urls
present (some url ∷ urls) = let rest = present urls in if str_eq url "" then rest else url ∷ rest

-- `is_url` is Zod's test
unfoldable pub load_config : JavaScript → (String → Bool) → ProcessEnv → Option AppConfig
unfolding is_private_key is_ethereum_address
load_config js is_url env = do
  redis_url ← text_setting "redis://localhost:6379" (env "REDIS_URL")
  settlement_matches_stream ←
      text_setting "settlement:matches" (env "REDIS_STREAM_SETTLEMENT_MATCHES")
  consumer_group ← text_setting "settlement-engine" (env "REDIS_CONSUMER_GROUP")
  consumer_name ← text_setting "settlement-engine-1" (env "REDIS_CONSUMER_NAME")
  read_block_ms ← positive_setting js "5000" 5000 (env "REDIS_READ_BLOCK_MS")
  read_count ← positive_setting js "10" 10 (env "REDIS_READ_COUNT")
  stream_max_len ← positive_setting js "10000" 10000 (env "REDIS_STREAM_MAXLEN")
  batch_size ← positive_setting js "10" 10 (env "SETTLEMENT_BATCH_SIZE")
  batch_interval_ms ← positive_setting js "5000" 5000 (env "SETTLEMENT_BATCH_INTERVAL_MS")
  poll_interval_ms ← positive_setting js "200" 200 (env "SETTLEMENT_POLL_INTERVAL_MS")
  pending_reclaim_interval_ms ←
      positive_setting js "60000" 60000 (env "SETTLEMENT_PENDING_RECLAIM_INTERVAL_MS")
  xclaim_min_idle_ms ← positive_setting js "60000" 60000 (env "REDIS_XCLAIM_MIN_IDLE_MS")
  failure_backoff_base_ms ←
      positive_setting js "1000" 1000 (env "SETTLEMENT_FAILURE_BACKOFF_BASE_MS")
  failure_backoff_max_ms ←
      positive_setting js "60000" 60000 (env "SETTLEMENT_FAILURE_BACKOFF_MAX_MS")
  settlement_contract_address ← required is_ethereum_address (env "SETTLEMENT_CONTRACT_ADDRESS")
  primary ← required is_url (env "ETHEREUM_RPC_URL")
  secondary ← optional_url is_url (env "ETHEREUM_RPC_URL_SECONDARY")
  tertiary ← optional_url is_url (env "ETHEREUM_RPC_URL_TERTIARY")
  settlement_private_key ← required is_private_key (env "SETTLEMENT_PRIVATE_KEY")
  ethereum_chain_id ← positive_setting js "1" 1 (env "ETHEREUM_CHAIN_ID")
  nonce_lock_ttl_ms ← positive_setting js "30000" 30000 (env "NONCE_LOCK_TTL_MS")
  tx_confirmation_timeout_ms ←
      positive_setting js "120000" 120000 (env "TX_CONFIRMATION_TIMEOUT_MS")
  nonce_lock_retry_delay_ms ← positive_setting js "500" 500 (env "NONCE_LOCK_RETRY_DELAY_MS")
  sweeper_interval_ms ← positive_setting js "3600000" 3600000 (env "SWEEPER_INTERVAL_MS")
  sweeper_stuck_threshold_ms ←
      positive_setting js "86400000" 86400000 (env "SWEEPER_STUCK_THRESHOLD_MS")
  sweeper_batch_size ← positive_setting js "50" 50 (env "SWEEPER_BATCH_SIZE")
  some (record {
    redis_url = redis_url;
    settlement_matches_stream = settlement_matches_stream;
    consumer_group = consumer_group;
    consumer_name = consumer_name;
    read_block_ms = read_block_ms;
    read_count = read_count;
    stream_max_len = stream_max_len;
    batch_size = batch_size;
    batch_interval_ms = batch_interval_ms;
    poll_interval_ms = poll_interval_ms;
    pending_reclaim_interval_ms = pending_reclaim_interval_ms;
    xclaim_min_idle_ms = xclaim_min_idle_ms;
    failure_backoff_base_ms = failure_backoff_base_ms;
    failure_backoff_max_ms = failure_backoff_max_ms;
    settlement_contract_address = settlement_contract_address;
    ethereum_rpc_urls = present (some primary ∷ secondary ∷ tertiary ∷ []);
    settlement_private_key = settlement_private_key;
    ethereum_chain_id = ethereum_chain_id;
    nonce_lock_ttl_ms = nonce_lock_ttl_ms;
    tx_confirmation_timeout_ms = tx_confirmation_timeout_ms;
    nonce_lock_retry_delay_ms = nonce_lock_retry_delay_ms;
    sweeper_enabled = flag_setting (env "SWEEPER_ENABLED");
    sweeper_interval_ms = sweeper_interval_ms;
    sweeper_stuck_threshold_ms = sweeper_stuck_threshold_ms;
    sweeper_batch_size = sweeper_batch_size;
  })

pub data Transport : Type 0 where
  http : String → Transport
  fallback_of : List String → Transport

-- `buildTransport` of settlement/smartContract.ts, `none` where it throws
abbrev pub build_transport : List String → Option Transport
build_transport [] = none
build_transport (url ∷ []) = some (http url)
build_transport (url ∷ next ∷ urls) = some (fallback_of (url ∷ next ∷ urls))
