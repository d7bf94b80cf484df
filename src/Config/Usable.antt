-- ===== src/Config/Usable.antt =====
-- What a configuration that is loaded satisfies.
use mathlib.Core.Path.{subst}
use mathlib.Core.Option.{some-injective, none-ne-some}
use settlement_engine.Prelude.{
  ℕ, ◌<◌, ◌≡◌, refl, sym, String, str_eq, eq_iff, Bool, true, false, Bool-cases, inl, inr, Option,
  none, some, List, [], ◌∷◌, ltb, arith, if◌then◌else◌,
}
use settlement_engine.Schemas.Value.{JavaScript, JsNumber, natural, other_number}
use settlement_engine.Schemas.Validation.{◌>>=◌, guarded, is_ethereum_address}
use settlement_engine.Config.{
  ProcessEnv, AppConfig, text_setting, positive_int, positive_setting, required, optional_url,
  is_private_key, present, load_config, Transport, http, fallback_of, build_transport,
}

pub record IsUsable (config : AppConfig) : Type 0 where
  pub read_block_ms : 0 < config.read_block_ms
  pub read_count : 0 < config.read_count
  pub stream_max_len : 0 < config.stream_max_len
  pub batch_size : 0 < config.batch_size
  pub batch_interval_ms : 0 < config.batch_interval_ms
  pub poll_interval_ms : 0 < config.poll_interval_ms
  pub pending_reclaim_interval_ms : 0 < config.pending_reclaim_interval_ms
  pub xclaim_min_idle_ms : 0 < config.xclaim_min_idle_ms
  pub failure_backoff_base_ms : 0 < config.failure_backoff_base_ms
  pub failure_backoff_max_ms : 0 < config.failure_backoff_max_ms
  pub ethereum_chain_id : 0 < config.ethereum_chain_id
  pub nonce_lock_ttl_ms : 0 < config.nonce_lock_ttl_ms
  pub tx_confirmation_timeout_ms : 0 < config.tx_confirmation_timeout_ms
  pub nonce_lock_retry_delay_ms : 0 < config.nonce_lock_retry_delay_ms
  pub sweeper_interval_ms : 0 < config.sweeper_interval_ms
  pub sweeper_stuck_threshold_ms : 0 < config.sweeper_stuck_threshold_ms
  pub sweeper_batch_size : 0 < config.sweeper_batch_size
  pub settlement_contract_address : is_ethereum_address config.settlement_contract_address ≡ true
  pub settlement_private_key : is_private_key config.settlement_private_key ≡ true
  pub transport : (t : Transport) × (build_transport config.ethereum_rpc_urls ≡ some t)

module _ {B R : Type 0} (b : B) where
  some_result :
      {A : Type 0} (P : A → Type 0) (o : Option A) (k : A → Option B)
      → ((a : A) → o ≡ some a → P a)
      → o >>= k ≡ some b
      → ((a : A) → P a → k a ≡ some b → R)
      → R
  some_result P none k h e use_it = absurd (none-ne-some b e)
  some_result P (some a) k h e use_it = use_it a (h a refl) e

  positive_some :
      (js : JavaScript) (fallback : String) (otherwise : ℕ) (v : Option String) (k : ℕ → Option B)
      → positive_setting js fallback otherwise v >>= k ≡ some b
      → ((n : ℕ) → 0 < n → k n ≡ some b → R)
      → R
  positive_some js fallback otherwise v k =
      some_result (λ n. 0 < n) (positive_setting js fallback otherwise v) k (read v)
    where
      guarded_positive : (n m : ℕ) (c : Bool) → c ≡ ltb 0 n → guarded c n ≡ some m → 0 < m
      guarded_positive n m true c e = subst (λ x. 0 < x) (some-injective n m e) (ground (arith, c))
      guarded_positive n m false c e = absurd (none-ne-some m e)

      of_number : (x : JsNumber) (m : ℕ) → positive_int x ≡ some m → 0 < m
      of_number (natural n) m e = guarded_positive n m (ltb 0 n) refl e
      of_number other_number m e = absurd (none-ne-some m e)

      read : (v : Option String) (m : ℕ) → positive_setting js fallback otherwise v ≡ some m → 0 < m
      read none m e = of_number (js.number_of fallback) m e
      read (some s) m e = of_number (if str_eq s "" then natural otherwise else js.number_of s) m e

  required_some :
      (p : String → Bool) (v : Option String) (k : String → Option B)
      → required p v >>= k ≡ some b
      → ((s : String) → p s ≡ true → k s ≡ some b → R)
      → R
  required_some p v k = some_result (λ s. p s ≡ true) (required p v) k (passed v)
    where
      passed_test : (s t : String) (c : Bool) → c ≡ p s → guarded c s ≡ some t → p t ≡ true
      passed_test s t true c e = subst (λ x. p x ≡ true) (some-injective s t e) (sym c)
      passed_test s t false c e = absurd (none-ne-some t e)

      passed : (v : Option String) (t : String) → required p v ≡ some t → p t ≡ true
      passed none t e = absurd (none-ne-some t e)
      passed (some s) t e = passed_test s t (p s) refl e

  any_some :
      {A : Type 0} (o : Option A) (k : A → Option B)
      → o >>= k ≡ some b
      → ((a : A) → Unit {0} → k a ≡ some b → R)
      → R
  any_some o k = some_result (λ a. Unit) o k (λ a e. tt)

has_transport :
    (url : String) (urls : List (Option String))
    → str_eq url "" ≡ false
    → (t : Transport) × (build_transport (present (some url ∷ urls)) ≡ some t)
has_transport url urls h = rw h (pick (present urls))
  where
    pick : (rest : List String) → (t : Transport) × (build_transport (url ∷ rest) ≡ some t)
    pick [] = (http url, refl)
    pick (next ∷ rest) = (fallback_of (url ∷ next ∷ rest), refl)

not_empty :
    (is_url : String → Bool) (url : String)
    → is_url "" ≡ false
    → is_url url ≡ true
    → str_eq url "" ≡ false
not_empty is_url url h k = elim (Bool-cases (str_eq url "")) [
  | inr e ↦ e
  | inl e ↦ absurd (ground (arith, subst (λ s. is_url s ≡ true) ((eq_iff url "").0 e) k, h))
]

-- A configuration that is loaded has only positive numbers, an address of the contract, a private key, and
-- an RPC endpoint, so that `buildTransport` does not throw, where the empty text is no URL.
pub load_config-IsUsable :
    (js : JavaScript) (is_url : String → Bool) (env : ProcessEnv) (config : AppConfig)
    → is_url "" ≡ false
    → load_config js is_url env ≡ some config
    → IsUsable config
unfolding load_config
load_config-IsUsable js is_url env c no_url e =
    any_some c (text_setting "redis://localhost:6379" (env "REDIS_URL")) _ e λ x0 h0 e0.
      any_some c (text_setting "settlement:matches" (env "REDIS_STREAM_SETTLEMENT_MATCHES")) _ e0
        λ x1 h1 e1.
          any_some c (text_setting "settlement-engine" (env "REDIS_CONSUMER_GROUP")) _ e1
            λ x2 h2 e2.
              any_some c (text_setting "settlement-engine-1" (env "REDIS_CONSUMER_NAME")) _ e2
                λ x3 h3 e3.
                  positive_some c js "5000" 5000 (env "REDIS_READ_BLOCK_MS") _ e3 λ x4 h4 e4.
                    positive_some c js "10" 10 (env "REDIS_READ_COUNT") _ e4 λ x5 h5 e5.
                      positive_some c js "10000" 10000 (env "REDIS_STREAM_MAXLEN") _ e5 λ x6 h6 e6.
                        positive_some c js "10" 10 (env "SETTLEMENT_BATCH_SIZE") _ e6 λ x7 h7 e7.
                          positive_some c js "5000" 5000 (env "SETTLEMENT_BATCH_INTERVAL_MS") _ e7
                            λ x8 h8 e8.
                              positive_some c js "200" 200 (env "SETTLEMENT_POLL_INTERVAL_MS") _ e8
                                λ x9 h9 e9.
                                  positive_some c js "60000" 60000
                                    (env "SETTLEMENT_PENDING_RECLAIM_INTERVAL_MS") _ e9
                                    λ x10 h10 e10.
                                      positive_some c js "60000" 60000
                                        (env "REDIS_XCLAIM_MIN_IDLE_MS") _ e10
                                        λ x11 h11 e11.
                                          positive_some c js "1000" 1000
                                            (env "SETTLEMENT_FAILURE_BACKOFF_BASE_MS") _ e11
                                            λ x12 h12 e12.
                                              positive_some c js "60000" 60000
                                                (env "SETTLEMENT_FAILURE_BACKOFF_MAX_MS") _ e12
                                                λ x13 h13 e13.
                                                  required_some c is_ethereum_address
                                                    (env "SETTLEMENT_CONTRACT_ADDRESS") _ e13
                                                    λ x14 h14 e14.
                                                      required_some c is_url
                                                        (env "ETHEREUM_RPC_URL") _ e14
                                                        λ x15 h15 e15.
                                                          any_some c
                                                            (optional_url is_url
                                                            (env "ETHEREUM_RPC_URL_SECONDARY"))
                                                            _ e15
                                                            λ x16 h16 e16.
                                                            any_some c
                                                            (optional_url is_url
                                                            (env "ETHEREUM_RPC_URL_TERTIARY"))
                                                            _ e16
                                                            λ x17 h17 e17.
                                                            required_some c is_private_key
                                                            (env "SETTLEMENT_PRIVATE_KEY") _ e17
                                                            λ x18 h18 e18.
                                                            positive_some c js "1" 1
                                                            (env "ETHEREUM_CHAIN_ID") _ e18
                                                            λ x19 h19 e19.
                                                            positive_some c js "30000" 30000
                                                            (env "NONCE_LOCK_TTL_MS") _ e19
                                                            λ x20 h20 e20.
                                                            positive_some c js "120000" 120000
                                                            (env "TX_CONFIRMATION_TIMEOUT_MS") _ e20
                                                            λ x21 h21 e21.
                                                            positive_some c js "500" 500
                                                            (env "NONCE_LOCK_RETRY_DELAY_MS") _ e21
                                                            λ x22 h22 e22.
                                                            positive_some c js "3600000" 3600000
                                                            (env "SWEEPER_INTERVAL_MS") _ e22
                                                            λ x23 h23 e23.
                                                            positive_some c js "86400000" 86400000
                                                            (env "SWEEPER_STUCK_THRESHOLD_MS") _ e23
                                                            λ x24 h24 e24.
                                                            positive_some c js "50" 50
                                                            (env "SWEEPER_BATCH_SIZE") _ e24
                                                            λ x25 h25 e25.
                                                            subst IsUsable (some-injective _ _ e25)
                                                            (record {
                                                            read_block_ms = h4;
                                                            read_count = h5;
                                                            stream_max_len = h6;
                                                            batch_size = h7;
                                                            batch_interval_ms = h8;
                                                            poll_interval_ms = h9;
                                                            pending_reclaim_interval_ms = h10;
                                                            xclaim_min_idle_ms = h11;
                                                            failure_backoff_base_ms = h12;
                                                            failure_backoff_max_ms = h13;
                                                            ethereum_chain_id = h19;
                                                            nonce_lock_ttl_ms = h20;
                                                            tx_confirmation_timeout_ms = h21;
                                                            nonce_lock_retry_delay_ms = h22;
                                                            sweeper_interval_ms = h23;
                                                            sweeper_stuck_threshold_ms = h24;
                                                            sweeper_batch_size = h25;
                                                            settlement_contract_address = h14;
                                                            settlement_private_key = h18;
                                                            transport =
                                                            has_transport x15 (x16 ∷ x17 ∷ [])
                                                            (not_empty is_url x15 no_url h15);
                                                            })
