-- ===== src/Nonce/Keys.antt =====
-- The keys of a wallet in Redis and the settings of a manager, of settlement/nonceManager.ts. `address_of`
-- is the address of the account of a private key, `none` where `privateKeyToAccount` throws.
use settlement_engine.Prelude.{
  Option, none, some, ℕ, ◌≡◌, ◌≢◌, ap, String, Codes, to_lower_case, [], ◌∷◌, ◌++◌, arith,
}
use settlement_engine.Prelude.Text.{codes}
use settlement_engine.Config.{AppConfig}
use settlement_engine.Contract.Clients.{Client, Cached, with_prefix, get_public_client}

pub record RedisKeys : Type 0 where
  pub nonce : Codes
  pub lock : Codes
  pub pending_tx : Codes

unfoldable pub redis_keys : Codes → RedisKeys
unfolding codes
redis_keys address = record {
  nonce = codes "settlement:nonce:" ++ address;
  lock = codes "settlement:nonce:lock:" ++ address;
  pending_tx = codes "settlement:nonce:pending_tx:" ++ address;
}

pub record ManagerSettings : Type 0 where
  pub wallet_address : String
  pub lock_ttl_ms : ℕ
  pub lock_retry_delay_ms : ℕ
  pub tx_confirmation_timeout_ms : ℕ
  pub consumer_name : String
  pub keys : RedisKeys

-- the constructor, for the address of the account
unfoldable pub new_nonce_manager : String → AppConfig → ManagerSettings
unfolding redis_keys to_lower_case
new_nonce_manager wallet_address config = record {
  wallet_address = wallet_address;
  lock_ttl_ms = config.nonce_lock_ttl_ms;
  lock_retry_delay_ms = config.nonce_lock_retry_delay_ms;
  tx_confirmation_timeout_ms = config.tx_confirmation_timeout_ms;
  consumer_name = config.consumer_name;
  keys = redis_keys (to_lower_case wallet_address);
}

-- the account of the key, then the constructor
abbrev pub manager_of : Option String → AppConfig → Option ManagerSettings
manager_of none config = none
manager_of (some wallet_address) config = some (new_nonce_manager wallet_address config)

-- `getPublicClient` before them, which throws where `buildTransport` does
abbrev pub with_client :
    Option Client → (Codes → Option String) → AppConfig → Option ManagerSettings
with_client none address_of config = none
with_client (some client) address_of config =
    manager_of (address_of (with_prefix config.settlement_private_key)) config

-- `createNonceManager`, with the cache of the public client
unfoldable pub create_nonce_manager :
    (Codes → Option String) → AppConfig → Option Cached → Option ManagerSettings
unfolding new_nonce_manager with_prefix get_public_client
create_nonce_manager address_of config cache =
    with_client (get_public_client config cache).0 address_of config

prefix_cancel : (p s t : Codes) → p ++ s ≡ p ++ t → s ≡ t
prefix_cancel [] s t e = e
prefix_cancel (c ∷ p) s t e = prefix_cancel p s t (cc e)

abbrev head : Codes → ℕ
head [] = 0
head (c ∷ s) = c

-- two keys that go on differently after the same prefix
heads_apart : (p s t : Codes) → head s ≢ head t → p ++ s ≢ p ++ t
heads_apart p s t ne e = ne (ap head (prefix_cancel p s t e))

-- Of two wallets, whose addresses begin with a 0, no two keys are the same, but for the keys of one kind
-- where the addresses are the same.
pub keys_apart :
    (a b : Codes)
    → ((redis_keys (b'0' ∷ a)).nonce ≢ (redis_keys (b'0' ∷ b)).lock)
      × ((redis_keys (b'0' ∷ a)).nonce ≢ (redis_keys (b'0' ∷ b)).pending_tx)
      × ((redis_keys (b'0' ∷ a)).lock ≢ (redis_keys (b'0' ∷ b)).pending_tx)
      × ((redis_keys (b'0' ∷ a)).lock ≡ (redis_keys (b'0' ∷ b)).lock → a ≡ b)
unfolding redis_keys codes
keys_apart a b = (
  heads_apart (codes "settlement:nonce:") (b'0' ∷ a) (codes "lock:" ++ b'0' ∷ b)
      (λ h. absurd (omega (arith, h))),
  heads_apart (codes "settlement:nonce:") (b'0' ∷ a) (codes "pending_tx:" ++ b'0' ∷ b)
      (λ h. absurd (omega (arith, h))),
  heads_apart (codes "settlement:nonce:") (codes "lock:" ++ b'0' ∷ a)
      (codes "pending_tx:" ++ b'0' ∷ b) (λ h. absurd (omega (arith, h))),
  λ e. cc (prefix_cancel (codes "settlement:nonce:lock:") (b'0' ∷ a) (b'0' ∷ b) e),
)
