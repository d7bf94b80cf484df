-- ===== src/Redis/Client.antt =====
-- redis/client.ts: the one client that the engine shares, and clients of their own. A client is the number
-- of its `new Redis`; `status` is what its field `status` holds at the time, which ioredis sets.
use settlement_engine.Prelude.{
  ℕ, ◌+◌, ◌<◌, ◌≡◌, String, Bool, true, false, ◌||◌, ◌==◌, Option, none, some, List, [], ◌∷◌, any,
  str_eq, if◌then◌else◌, arith,
}

pub record RedisClients : Type 0 where
  -- the variable `redisClient`
  pub redis_client : Option ℕ
  pub made : ℕ
  -- clients that `disconnect` or `quit` has been called on
  pub ended : List ℕ
  -- clients that were handed out for the caller to end
  pub isolated : List ℕ

-- as the module is loaded
abbrev pub no_client : RedisClients
no_client = record { redis_client = none; made = 0; ended = []; isolated = [] }

abbrev pub is_client_connected : String → Bool
is_client_connected status = str_eq status "ready" || str_eq status "connecting"

abbrev pub make_client : RedisClients → ℕ × RedisClients
make_client c = (c.made, record c { redis_client = some c.made; made = c.made + 1 })

abbrev pub end_client : ℕ → RedisClients → RedisClients
end_client k c = record c { redis_client = none; ended = k ∷ c.ended }

unfoldable pub get_redis_client : (ℕ → String) → RedisClients → ℕ × RedisClients
get_redis_client status c = elim c.redis_client [
  | none ↦ make_client c
  | some k ↦ if is_client_connected (status k) then (k, c) else make_client (end_client k c)
]

-- `quit` for a client that is connected, `disconnect` for another; what they throw is ignored
unfoldable pub close_redis_client : RedisClients → RedisClients
close_redis_client c = elim c.redis_client [ none ↦ c | some k ↦ end_client k c ]

unfoldable pub create_isolated_redis_client : RedisClients → ℕ × RedisClients
create_isolated_redis_client c =
    (c.made, record c { made = c.made + 1; isolated = c.made ∷ c.isolated })

-- What the modules that share the client may do, with any status of the clients.
pub data Uses : RedisClients → Type 0 where
  loaded : Uses no_client
  gets : (c : RedisClients) (status : ℕ → String) → Uses c → Uses (get_redis_client status c).1
  closes : (c : RedisClients) → Uses c → Uses (close_redis_client c)
  isolates : (c : RedisClients) → Uses c → Uses (create_isolated_redis_client c).1

abbrev pub is_current : ℕ → Option ℕ → Bool
is_current k none = false
is_current k (some j) = j == k

abbrev pub is_accounted : ℕ → RedisClients → Bool
is_accounted k c =
    is_current k c.redis_client || (any (λ j. j == k) c.ended || any (λ j. j == k) c.isolated)

-- a client that was made is the one that is shared, or it has been ended, or its caller has it
abbrev pub Accounted : RedisClients → Type 0
Accounted c = (k : ℕ) → k < c.made → is_accounted k c ≡ true

get-Accounted :
    (c : RedisClients) (status : ℕ → String) → Accounted c → Accounted (get_redis_client status c).1
unfolding get_redis_client
get-Accounted c status h k lt = ground (arith, h k)

close-Accounted : (c : RedisClients) → Accounted c → Accounted (close_redis_client c)
unfolding close_redis_client
close-Accounted c h k lt = ground (arith, h k)

isolate-Accounted : (c : RedisClients) → Accounted c → Accounted (create_isolated_redis_client c).1
unfolding create_isolated_redis_client
isolate-Accounted c h k lt = ground (arith, h k)

used-Accounted : {c : RedisClients} → Uses c → Accounted c
used-Accounted loaded = λ k lt. absurd (omega arith)
used-Accounted (gets c status u) = get-Accounted c status (used-Accounted u)
used-Accounted (closes c u) = close-Accounted c (used-Accounted u)
used-Accounted (isolates c u) = isolate-Accounted c (used-Accounted u)

-- Whatever is asked of the module, in any order and whatever the status of the clients: a client that has
-- neither been ended nor been handed out to its caller is the one that the engine shares.
pub open_client_shared :
    {c : RedisClients} (k : ℕ)
    → Uses c
    → k < c.made
    → any (λ j. j == k) c.ended ≡ false
    → any (λ j. j == k) c.isolated ≡ false
    → c.redis_client ≡ some k
open_client_shared {c} k u lt going kept =
    let h = used-Accounted u k lt in ground (arith, h, going, kept)
