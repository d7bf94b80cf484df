-- ===== src/Contract/Clients/Cache.antt =====
-- The caches give each configuration its own client.
use settlement_engine.Prelude.{
  ℕ, ◌⊎◌, inl, inr, ◌≡◌, refl, ap, sym, ◌∙◌, String, Codes, codes_eq, codes_eq_iff, true, false,
  ◌||◌, Option, none, some, List, [], ◌∷◌, All, if◌then◌else◌, arith, and_true, map, branch,
}
use settlement_engine.Prelude.Joined.{join, IsPart, has_code, split_at, split_last, join_inj}
use settlement_engine.Schemas.Amount.{
  is_digit, is_nonzero_digit, all_digits, is_positive_decimal, is_zero, value_of,
}
use settlement_engine.Schemas.Amount.RoundTrip.{decimal, value_of-decimal, decimal_form}
use settlement_engine.Config.{AppConfig, Transport, build_transport}
use settlement_engine.Contract.Clients.{
  Client, Cached, keep_client, is_cached, client_of, public_key, public_client, get_public_client,
  wallet_key, wallet_client, get_wallet_client,
}

digits_whole : (s : Codes) → all_digits s ≡ true → has_code b'|' s ≡ false
digits_whole [] h = refl
digits_whole (c ∷ s) h =
    let (digit, rest) = and_true (is_digit c) (all_digits s) h in
    ground (arith, digit, digits_whole s rest)

print_whole : (s : Codes) → (is_zero s || is_positive_decimal s) ≡ true → has_code b'|' s ≡ false
print_whole [] h = refl
print_whole (c ∷ []) h = ground (arith, h)
print_whole (c ∷ d ∷ s) h =
    let (digit, rest) = and_true (is_nonzero_digit c) (all_digits (d ∷ s)) h in
    ground (arith, digit, digits_whole (d ∷ s) rest)

decimal_whole : (n : ℕ) → has_code b'|' (decimal n) ≡ false
decimal_whole n = print_whole (decimal n) (decimal_form n).1

-- the part of the configuration that a public client is made of can be told from its key
public_key-inj :
    (c d : AppConfig)
    → All (IsPart b',') c.ethereum_rpc_urls
    → All (IsPart b',') d.ethereum_rpc_urls
    → public_key c ≡ public_key d
    → (c.ethereum_chain_id ≡ d.ethereum_chain_id) × (c.ethereum_rpc_urls ≡ d.ethereum_rpc_urls)
public_key-inj c d hc hd e =
    let r =
      split_at b'|' (decimal c.ethereum_chain_id) (decimal d.ethereum_chain_id)
        (join b',' c.ethereum_rpc_urls) (join b',' d.ethereum_rpc_urls)
        (decimal_whole c.ethereum_chain_id) (decimal_whole d.ethereum_chain_id) e in
    (
      sym (value_of-decimal c.ethereum_chain_id)
          ∙ ap value_of r.0
          ∙ value_of-decimal d.ethereum_chain_id,
      join_inj b',' c.ethereum_rpc_urls d.ethereum_rpc_urls hc hd r.1,
    )

-- what a configuration gets with no cache
abbrev pub made : (Transport → Client) → Option Transport → Option Client
made client none = none
made client (some transport) = some (client transport)

abbrev pub fresh : (AppConfig → Transport → Client) → AppConfig → Option Client
fresh client c = made (client c) (build_transport c.ethereum_rpc_urls)

-- one call after the other, with the cache that each leaves
unfoldable pub get_all :
    (AppConfig → Option Cached → Option Client × Option Cached)
    → List AppConfig
    → Option Cached
    → List (Option Client)
get_all get [] cache = []
get_all get (c ∷ rest) cache =
    let (client, cache') = get c cache in client ∷ get_all get rest cache'

module _ (Good : AppConfig → Type 0) (key : AppConfig → Codes)
    (client : AppConfig → Transport → Client)
    (told : (c d : AppConfig)
      → Good c
      → Good d
      → key c ≡ key d
      → fresh client c ≡ fresh client d) where
  abbrev serve : AppConfig → Option Cached → Option Client × Option Cached
  serve c cache =
      if is_cached (key c) cache
      then (client_of cache, cache)
      else keep_client (client c) (key c) (build_transport c.ethereum_rpc_urls) cache

  -- the cache holds what a good configuration gets
  abbrev IsFresh : Option Cached → Type 0
  IsFresh none = Unit
  IsFresh (some k) = (c : AppConfig) × Good c × (k.key ≡ key c) × (some k.client ≡ fresh client c)

  abbrev Served : AppConfig → Option Client × Option Cached → Type 0
  Served c (o, cache) = (o ≡ fresh client c) × IsFresh cache

  kept-Served :
      (c : AppConfig) (t : Option Transport) (cache : Option Cached)
      → Good c
      → t ≡ build_transport c.ethereum_rpc_urls
      → IsFresh cache
      → Served c (keep_client (client c) (key c) t cache)
  kept-Served c none cache g e h = (rw (← e) refl, h)
  kept-Served c (some t) cache g e h = (rw (← e) refl, (c, g, refl, rw (← e) refl))

  serve-Served :
      (c : AppConfig) (cache : Option Cached) → Good c → IsFresh cache → Served c (serve c cache)
  serve-Served c none g h = kept-Served c (build_transport c.ethereum_rpc_urls) none g refl h
  serve-Served c (some k) g (d, gd, at, made_of) =
      branch (Served c) (codes_eq k.key (key c)) _ _
        (λ hit.
          let same : key d ≡ key c = sym at ∙ (codes_eq_iff k.key (key c)).0 hit in
          (made_of ∙ told d c gd g same, (d, gd, at, made_of)))
        λ miss.
          kept-Served c (build_transport c.ethereum_rpc_urls) (some k) g refl (d, gd, at, made_of)

  get_all_lem :
      (cs : List AppConfig) (cache : Option Cached)
      → All Good cs
      → IsFresh cache
      → get_all serve cs cache ≡ map (fresh client) cs
  unfolding get_all
  get_all_lem [] cache g h = refl
  get_all_lem (c ∷ rest) cache g h =
      let (first, next) = serve-Served c cache g.0 h in
      let others = get_all_lem rest (serve c cache).1 g.1 next in cc (first, others)

public-told :
    (c d : AppConfig)
    → All (IsPart b',') c.ethereum_rpc_urls
    → All (IsPart b',') d.ethereum_rpc_urls
    → public_key c ≡ public_key d
    → fresh public_client c ≡ fresh public_client d
public-told c d hc hd e = let r = public_key-inj c d hc hd e in rw (r.0, r.1) refl

abbrev pub HasParts : AppConfig → Type 0
HasParts c = All (IsPart b',') c.ethereum_rpc_urls

abbrev pub Asked : List AppConfig → AppConfig → Type 0
Asked [] c = ⊥
Asked (d ∷ configs) c = (c ≡ d) ⊎ Asked configs c

-- a configuration with whole parts, among those that ask
abbrev IsAsked : List AppConfig → AppConfig → Type 0
IsAsked configs c = HasParts c × Asked configs c

All-IsAsked :
    (asked configs : List AppConfig)
    → ((c : AppConfig) → Asked configs c → Asked asked c)
    → All HasParts configs
    → All (IsAsked asked) configs
All-IsAsked asked [] within h = tt
All-IsAsked asked (c ∷ rest) within h =
    ((h.0, within c (inl refl)), All-IsAsked asked rest (λ d a. within d (inr a)) h.1)

module _ (key_hash : String → Codes)
    (hexadecimal : (k : String) → has_code b'|' (key_hash k) ≡ false) where
  wallet-told :
      (c d : AppConfig)
      → HasParts c
      → HasParts d
      → (key_hash c.settlement_private_key ≡ key_hash d.settlement_private_key
          → c.settlement_private_key ≡ d.settlement_private_key)
      → wallet_key key_hash c ≡ wallet_key key_hash d
      → fresh (wallet_client key_hash) c ≡ fresh (wallet_client key_hash) d
  wallet-told c d hc hd no_collision e =
      let kc = c.settlement_private_key in
      let kd = d.settlement_private_key in
      let r =
        split_last b'|' (public_key c) (public_key d) (key_hash kc) (key_hash kd) (hexadecimal kc)
          (hexadecimal kd) e in
      let p = public_key-inj c d hc hd r.0 in
      let k : kc ≡ kd = no_collision r.1 in rw (p.0, p.1, k) refl

  -- Where no RPC URL is empty or holds a comma, the hash of a key has no bar in it, and no two different keys
  -- of the configurations that ask have one hash: whatever configurations ask for a client, one after the
  -- other, each gets the public client and the wallet client that it would get without the caches.
  pub caches_transparent :
      (configs : List AppConfig)
      → All HasParts configs
      → ((c d : AppConfig)
          → Asked configs c
          → Asked configs d
          → key_hash c.settlement_private_key ≡ key_hash d.settlement_private_key
          → c.settlement_private_key ≡ d.settlement_private_key)
      → (get_all get_public_client configs none ≡ map (fresh public_client) configs)
        × (get_all (get_wallet_client key_hash) configs none
            ≡ map (fresh (wallet_client key_hash)) configs)
  unfolding get_public_client get_wallet_client
  caches_transparent configs h no_collision = (
    get_all_lem HasParts public_key public_client public-told configs none h tt,
    get_all_lem (IsAsked configs) (wallet_key key_hash) (wallet_client key_hash)
        (λ c d gc gd e. wallet-told c d gc.0 gd.0 (no_collision c d gc.1 gd.1) e) configs none
        (All-IsAsked configs configs (λ c a. a) h) tt,
  )
