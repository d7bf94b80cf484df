-- ===== src/Contract/Clients.antt =====
-- The clients of the chain in settlement/smartContract.ts and their caches. A client stands for what it is
-- made of; viem and the hash of the key are outside.
pub mod Cache
use settlement_engine.Prelude.{
  ℕ, ◌≡◌, String, Codes, codes_eq, str_eq, Bool, false, Option, none, some, List, [], ◌∷◌, ◌++◌,
  if◌then◌else◌,
}
use settlement_engine.Prelude.Text.{codes, codes_start_with}
use settlement_engine.Prelude.Joined.{join}
use settlement_engine.Schemas.Amount.RoundTrip.{decimal}
use settlement_engine.Config.{AppConfig, Transport, build_transport}

pub record Chain : Type 0 where
  pub id : ℕ
  pub name : Codes
  pub currency_name : String
  pub currency_symbol : String
  pub currency_decimals : ℕ
  pub multicall3_address : String

unfoldable pub create_chain_from_id : ℕ → Chain
unfolding codes decimal
create_chain_from_id chain_id = record {
  id = chain_id;
  name = codes "Chain " ++ decimal chain_id;
  currency_name = "Ether";
  currency_symbol = "ETH";
  currency_decimals = 18;
  multicall3_address = "0xcA11bde05977b3631167028862bE2a173976CA11";
}

pub record Client : Type 0 where
  pub chain : Chain
  pub transport : Transport
  -- the private key of its account, if it has one
  pub account_key : Option Codes

-- the variables `cached…Client` and `cached…Key`, which are set together
pub record Cached : Type 0 where
  pub client : Client
  pub key : Codes

-- a client that has been made is kept under its key; `none` where `buildTransport` throws
abbrev pub keep_client :
    (Transport → Client) → Codes → Option Transport → Option Cached → Option Client × Option Cached
keep_client client key none cache = (none, cache)
keep_client client key (some transport) cache =
    (some (client transport), some (record { client = client transport; key = key }))

abbrev pub is_cached : Codes → Option Cached → Bool
is_cached key none = false
is_cached key (some c) = codes_eq c.key key

abbrev pub client_of : Option Cached → Option Client
client_of none = none
client_of (some c) = some c.client

abbrev pub public_key : AppConfig → Codes
public_key config = decimal config.ethereum_chain_id ++ b'|' ∷ join b',' config.ethereum_rpc_urls

abbrev pub public_client : AppConfig → Transport → Client
public_client config transport = record {
  chain = create_chain_from_id config.ethereum_chain_id;
  transport = transport;
  account_key = none;
}

unfoldable pub get_public_client : AppConfig → Option Cached → Option Client × Option Cached
unfolding create_chain_from_id codes_eq join decimal
get_public_client config cache =
    if is_cached (public_key config) cache
    then (client_of cache, cache)
    else keep_client (public_client config) (public_key config)
        (build_transport config.ethereum_rpc_urls) cache

-- `0x` is put before a key that does not begin with it
unfoldable pub with_prefix : String → Codes
unfolding codes codes_start_with
with_prefix key =
    if codes_start_with (codes key) (codes "0x") then codes key else codes "0x" ++ codes key

module _ (key_hash : String → Codes) where
  abbrev pub wallet_key : AppConfig → Codes
  wallet_key config = public_key config ++ b'|' ∷ key_hash config.settlement_private_key

  abbrev pub wallet_client : AppConfig → Transport → Client
  wallet_client config transport = record {
    chain = create_chain_from_id config.ethereum_chain_id;
    transport = transport;
    account_key = some (with_prefix config.settlement_private_key);
  }

  unfoldable pub get_wallet_client : AppConfig → Option Cached → Option Client × Option Cached
  unfolding create_chain_from_id codes_eq join decimal with_prefix
  get_wallet_client config cache =
      if is_cached (wallet_key config) cache
      then (client_of cache, cache)
      else keep_client (wallet_client config) (wallet_key config)
          (build_transport config.ethereum_rpc_urls) cache

-- `address_of` is the address of the account of a private key, `none` where `privateKeyToAccount` throws
unfoldable pub get_settler_address : (Codes → Option String) → AppConfig → Option String
unfolding with_prefix
get_settler_address address_of config = address_of (with_prefix config.settlement_private_key)

-- `rpcHostForLogging`; `host_of` is `new URL(url).host`, `none` where it throws
unfoldable pub rpc_host_for_logging : (String → Option String) → Option String → String
rpc_host_for_logging host_of none = "<none>"
rpc_host_for_logging host_of (some url) =
    if str_eq url ""
    then "<none>"
    else elim (host_of url) [ none ↦ "<unparseable-rpc-url>" | some host ↦ host ]
