-- ===== src/Redis.antt =====
-- The stream commands that the settlement of a batch and the consumer send. `acked` and `deleted` record
-- them by stream and id, `dead_letters` what is added to the dead-letter stream; a command that throws is a `true` in the list of outcomes to come.
pub mod Client
use settlement_engine.Prelude.{ℕ, ◌+◌, String, Bool, true, false, List, [], ◌∷◌, ◌++◌, map}
use settlement_engine.Schemas.Value.{Object}
use settlement_engine.Exec.{Exec, ok, err}

-- an invalid entry on the dead-letter stream, its fields as they were before `JSON.stringify`
pub record DeadLetter : Type 0 where
  pub id : String
  pub stream : String
  pub raw : Object
  pub error : String

pub record Redis : Type 0 where
  pub acked : List (String × String)
  pub deleted : List (String × String)
  pub trims : ℕ
  pub dead_letters : List DeadLetter
  pub faults : List Bool

pub data RedisError : Type 0 where
  connection_lost : RedisError

abbrev pub Command : Type 0
Command = Exec Redis RedisError (Unit {0})

unfoldable pub command : (Redis → Redis) → Command
command f r = elim r.faults [
  | [] ↦ (ok tt, f r)
  | o ∷ rest ↦ elim o [
    | true ↦ (err connection_lost, record r { faults = rest })
    | false ↦ (ok tt, f (record r { faults = rest }))
  ]
]

-- `xack(stream, group, id)`, `xdel(stream, ...ids)`, `xtrim(stream, 'MAXLEN', '~', n)`
abbrev pub xack : String → String → Command
xack stream id = command (λ r. record r { acked = r.acked ++ (stream, id) ∷ [] })

abbrev pub xdel : String → List String → Command
xdel stream ids = command (λ r. record r { deleted = r.deleted ++ map (λ i. (stream, i)) ids })

abbrev pub xtrim : Command
xtrim = command (λ r. record r { trims = r.trims + 1 })

-- `xadd(SETTLEMENT_MATCHES_DEAD, 'MAXLEN', '~', n, '*', ...)`
abbrev pub xadd_dead : DeadLetter → Command
xadd_dead letter = command (λ r. record r { dead_letters = r.dead_letters ++ letter ∷ [] })
