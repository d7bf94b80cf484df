-- ===== src/Database/Pool.antt =====
-- `getPool` of settlement/database/connection.ts: the one pool, by its connection string. `is_url` is Zod's
-- test of a URL.
use settlement_engine.Prelude.{◌≡◌, String, Bool, Option, none, some, str_eq, if◌then◌else◌, arith}
use settlement_engine.Exec.{Exec, ok, err}

pub data PoolError : Type 0 where
  not_set invalid_url : PoolError

-- `new PgPool(…)`, for the value of `DATABASE_URL`
abbrev pub new_pool : (String → Bool) → Option String → Exec (Option String) PoolError String
new_pool is_url none pool = (err not_set, pool)
new_pool is_url (some url) pool =
    if str_eq url ""
    then (err not_set, pool)
    else if is_url url
    then (ok url, some url)
    else (err invalid_url, pool)

unfoldable pub get_pool : (String → Bool) → Option String → Exec (Option String) PoolError String
get_pool is_url database_url pool = elim pool [
  | none ↦ new_pool is_url database_url none
  | some made ↦ (ok made, some made)
]

-- Once there is a pool, every later call returns it, whatever the environment has become.
pub get_pool-kept :
    (is_url : String → Bool) (first later pool : Option String) {url : String}
    → (get_pool is_url first pool).0 ≡ ok url
    → get_pool is_url later (get_pool is_url first pool).1 ≡ (ok url, some url)
unfolding get_pool
get_pool-kept is_url none later none e = ground arith
get_pool-kept is_url (some u) later none e = ground arith
get_pool-kept is_url first later (some made) e = ground arith
