-- ===== src/Tests/Clients.antt =====
-- The theorem on the caches of the clients, at two configurations, with a hash that has collisions.
use settlement_engine.Prelude.{
  ap, sym, ◌∙◌, inl, inr, str_eq, if◌then◌else◌, ◌≡◌, refl, String, Codes, false, none, List, [],
  ◌∷◌, map, arith,
}
use settlement_engine.Prelude.Text.{codes}
use settlement_engine.Prelude.Joined.{IsPart, has_code}
use settlement_engine.Config.{AppConfig}
use settlement_engine.Contract.Clients.{
  public_client, get_public_client, wallet_client, get_wallet_client,
}
use settlement_engine.Contract.Clients.Cache.{Asked, fresh, get_all, caches_transparent}
use settlement_engine.Tests.Settings.{config}

-- a digest of one digit, with collisions
sample_hash : String → Codes
sample_hash s = if str_eq s "" then 48 ∷ [] else 49 ∷ []

sample_whole : (s : String) → has_code b'|' (sample_hash s) ≡ false
unfolding sample_hash
sample_whole s = ground arith

abbrev configs : List AppConfig
configs = config ∷ record config { ethereum_chain_id = 1 } ∷ config ∷ []

rpc-IsPart : IsPart b',' "https://rpc.example"
unfolding codes
rpc-IsPart = record { filled = λ e. cc; whole = refl }

-- all have the one private key
one_key :
    (c : AppConfig) → Asked configs c → c.settlement_private_key ≡ config.settlement_private_key
one_key c (inl e) = ap (λ (d : AppConfig). d.settlement_private_key) e
one_key c (inr (inl e)) = ap (λ (d : AppConfig). d.settlement_private_key) e
one_key c (inr (inr (inl e))) = ap (λ (d : AppConfig). d.settlement_private_key) e
one_key c (inr (inr (inr n))) = absurd n

caches_transparent_example :
    (get_all get_public_client configs none ≡ map (fresh public_client) configs)
    × (get_all (get_wallet_client sample_hash) configs none
        ≡ map (fresh (wallet_client sample_hash)) configs)
unfolding sample_hash
caches_transparent_example =
    caches_transparent sample_hash sample_whole configs
      ((rpc-IsPart, tt), ((rpc-IsPart, tt), ((rpc-IsPart, tt), tt)))
      (λ c d a b e. one_key c a ∙ sym (one_key d b))
