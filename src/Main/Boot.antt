-- ===== src/Main/Boot.antt =====
-- How `main` ends, and in which state it leaves the engine.
use settlement_engine.Prelude.{
  ℕ, suc, ◌*◌, ◌<◌, ◌≡◌, refl, ap, ◌∙◌, String, Codes, Option, Bool, true, false, branch, none,
  some, length, ltb, arith,
}
use settlement_engine.Exec.{ok}
use settlement_engine.Schemas.Value.{JavaScript}
use settlement_engine.Redis.{Redis}
use settlement_engine.Accumulator.{BatchAccumulator, create}
use settlement_engine.Accumulator.Queue.{IsValid, create-IsValid, add_matches-IsValid}
use settlement_engine.Config.{ProcessEnv, AppConfig, Transport, build_transport, load_config}
use settlement_engine.Config.Usable.{load_config-IsUsable}
use settlement_engine.Consumer.Startup.{Loading, ensure_consumer_group}
use settlement_engine.Consumer.Startup.Endings.{FruitfulReply, FruitfulClaim, reclaim_ends}
use settlement_engine.Processor.Polling.{Polling, new_polling, start, poll, process_if_due}
use settlement_engine.Processor.Polling.Batches.{HandsOver, same_size, start-HandsOver}
use settlement_engine.Nonce.Keys.{new_nonce_manager, create_nonce_manager}
use settlement_engine.Contract.Clients.{with_prefix, get_public_client}
use settlement_engine.Main.{
  Answers, runs, started_with, reclaim_options, filled_accumulator, sweeper_of, run_engine, boot,
  boot_with, main,
}

-- the engine runs, with a valid queue, and what it has started is a batch
pub record IsReady (p : Polling) : Type 0 where
  pub running : p.is_running ≡ true
  pub hands_over : HandsOver p

poll_keeps_running :
    (now : ℕ) (ready : Bool) (p : Polling) → (poll now ready p).is_running ≡ p.is_running
unfolding poll process_if_due
poll_keeps_running now ready p = ground arith

start_runs : (now : ℕ) (ready : Bool) (p : Polling) → (start now ready p).is_running ≡ true
unfolding start
start_runs now ready p =
    branch (λ (q : Polling). q.is_running ≡ true) p.is_running _ _ (λ on. on)
      λ off. poll_keeps_running now ready (record p { is_running = true })

filled-IsValid :
    (config : AppConfig) (created_at : ℕ) (loaded : Loading)
    → IsValid (filled_accumulator config created_at loaded)
unfolding filled_accumulator
filled-IsValid config created_at (matches, redis) =
    let fresh_one = create-IsValid config.batch_size config.batch_interval_ms none created_at in
    branch IsValid (ltb 0 (length matches)) _ _
      (λ some_match.
        add_matches-IsValid matches
          (create config.batch_size config.batch_interval_ms none created_at) fresh_one)
      λ no_match. fresh_one

filled_size :
    (config : AppConfig) (created_at : ℕ) (loaded : Loading)
    → (filled_accumulator config created_at loaded).batch_size ≡ config.batch_size
unfolding filled_accumulator create
filled_size config created_at (matches, redis) =
    branch (λ (a : BatchAccumulator). a.batch_size ≡ config.batch_size) (ltb 0 (length matches)) _ _
      (λ some_match.
        same_size matches (create config.batch_size config.batch_interval_ms none created_at))
      λ no_match. refl

engine-IsReady :
    (config : AppConfig) (answers : Answers) (loaded : Loading)
    → 0 < config.batch_size
    → IsReady (
        start answers.now answers.redis_ready
          (new_polling (filled_accumulator config answers.created_at loaded)))
unfolding new_polling
engine-IsReady config answers loaded h =
    let p = new_polling (filled_accumulator config answers.created_at loaded) in
    record {
      running = start_runs answers.now answers.redis_ready p;
      hands_over = start-HandsOver answers.now answers.redis_ready p (record {
        queue = filled-IsValid config answers.created_at loaded;
        size = rw (filled_size config answers.created_at loaded) h;
        batches = tt;
        farewell = tt;
      });
    }

-- the manager is made where the configuration has a transport and its key an account
created_manager :
    (address_of : Codes → Option String) (config : AppConfig) {t : Transport} {address : String}
    → build_transport config.ethereum_rpc_urls ≡ some t
    → address_of (with_prefix config.settlement_private_key) ≡ some address
    → create_nonce_manager address_of config none ≡ some (new_nonce_manager address config)
unfolding create_nonce_manager get_public_client
created_manager address_of config e h = rw (e, h) refl

-- Where the configuration is loaded, its private key has an account, the consumer group is there or is
-- created, and full pages of pending entries hold a match, `main` gets as far as to run the engine: with the processor started, its queue
-- valid, and in flight only batches that hold a match and each stream entry once.
pub main-IsReady :
    (js : JavaScript) (is_url : String → Bool) (address_of : Codes → Option String)
    (env : ProcessEnv) (answers : Answers) (redis : Redis) (config : AppConfig) (address : String)
    → is_url "" ≡ false
    → load_config js is_url env ≡ some config
    → address_of (with_prefix config.settlement_private_key) ≡ some address
    → ensure_consumer_group answers.group ≡ ok tt
    → ((i : ℕ) → FruitfulReply (reclaim_options js config) (answers.replies i))
    → ((i : ℕ)
        → FruitfulClaim
            (reclaim_options js config)
            config.settlement_matches_stream
            (answers.claims i))
    → (p : Polling) × (main js is_url address_of env answers (suc (config.batch_size * 3)) redis
        ≡ runs p (sweeper_of config))
      × IsReady p
unfolding main boot run_engine
main-IsReady js is_url address_of env answers redis config address no_url loads account group f f' =
    let fuel = suc (config.batch_size * 3) in
    let (loaded, ended) =
      reclaim_ends (reclaim_options js config) config.settlement_matches_stream answers.replies
        answers.claims redis f f' in
    let p =
      start answers.now answers.redis_ready
        (new_polling (filled_accumulator config answers.created_at loaded)) in
    let usable = load_config-IsUsable js is_url env config no_url loads in
    let made = created_manager address_of config usable.transport.1 account in
    let booted : boot js address_of answers fuel redis config ≡ runs p (sweeper_of config) =
      rw (boot, group)
        (ap (run_engine address_of config answers) ended
          ∙ ap (λ m. started_with m config answers loaded) made) in
    (
      p,
      ap (boot_with js address_of answers fuel redis) loads ∙ booted,
      engine-IsReady config answers loaded usable.batch_size,
    )
