-- ===== src/Nonce.antt =====
-- settlement/nonceManager.ts: the keys of a wallet in Redis, and the manager that issues its nonces. The
-- answers of the chain, and what the lock's key holds at each try, come as lists; Redis itself answers.
pub mod Issue
pub mod Lost
pub mod Lease
pub mod Keys
use settlement_engine.Prelude.{
  ℕ, String, Bool, true, false, ◌||◌, Option, none, some, List, [], ◌∷◌, str_eq, includes,
  if◌then◌else◌,
}
use settlement_engine.Prelude.Int.{ℤ, pos, succ_ℤ, pred_ℤ}
use settlement_engine.Exec.{Exec, Result, ok, err, pure, throw, ◌>>=◌, ◌>>◌}
use settlement_engine.Contract.Errors.{Thrown, error, message_of}

-- What has become of the lock's key while the manager awaits something, before its heartbeat runs or while
-- it is late: its time to live is not over, or it is, or it is and another instance has the lock, and has left the other two keys
-- so.
pub data Lapse : Type 0 where
  lasts expires : Lapse
  passes : String → Option ℤ → Option String → Lapse

pub record NonceManager : Type 0 where
  -- the keys `settlement:nonce`, `settlement:nonce:lock` and `settlement:nonce:pending_tx`
  pub nonce : Option ℤ
  pub lock : Option String
  pub pending_tx : Option String
  -- the manager's own fields
  pub lock_id : Option String
  pub heartbeat : Bool
  -- `getTransactionCount` in the calls to come, `none` where it throws
  pub counts : List (Option ℕ)
  -- what the lock's key holds at each try before the deadline
  pub tries : List (Option String)
  -- whether a pending transaction of an earlier run has a receipt in time
  pub landed : Bool
  -- how the lock lapses in the awaits after `acquireLock`, `lasts` where the list is over
  pub lapses : List Lapse

abbrev pub Managed : Type 0 → Type 0
Managed = Exec NonceManager Thrown

abbrev pub or_zero : Option ℤ → ℤ
or_zero none = pos 0
or_zero (some z) = z

-- `INCR` and `DECR`, which take a missing key for 0
abbrev pub incr : Option ℤ → Option ℤ
incr o = some (succ_ℤ (or_zero o))

abbrev pub decr : Option ℤ → Option ℤ
decr o = some (pred_ℤ (or_zero o))

unfoldable pub reset_from : List (Option ℕ) → Managed (Unit {0})
reset_from [] n = (err (error "getTransactionCount failed"), n)
reset_from (none ∷ rest) n = (err (error "getTransactionCount failed"), record n { counts = rest })
reset_from (some c ∷ rest) n = (ok tt, record n { nonce = some (pos c); counts = rest })

unfoldable pub reset_from_chain : Managed (Unit {0})
unfolding reset_from
reset_from_chain n = reset_from n.counts n

-- The loop of `acquireLock` with `SET key id PX ttl NX`. The end of the time to live of the manager's own key
-- is in `elapse`, that of another's in what the key holds at a try.
unfoldable pub try_lock : String → List (Option String) → Managed (Unit {0})
try_lock id [] n = (
  err (error "[nonce-manager] Failed to acquire nonce lock within the lock TTL"),
  record n { tries = [] },
)
try_lock id (none ∷ rest) n = (ok tt, record n { lock = some id; lock_id = some id; tries = rest })
try_lock id (some other ∷ rest) n = try_lock id rest (record n { lock = some other })

unfoldable pub acquire_lock : String → Managed (Unit {0})
unfolding try_lock
acquire_lock id n = try_lock id n.tries n

abbrev pub lapsed : Lapse → NonceManager → NonceManager
lapsed lasts n = n
lapsed expires n = record n { lock = none }
lapsed (passes other nonce pending_tx) n = record n {
  lock = some other;
  nonce = nonce;
  pending_tx = pending_tx;
}

-- time passes with the lock's key, and nothing extends it
unfoldable pub elapse_from : List Lapse → Managed (Unit {0})
elapse_from [] n = (ok tt, n)
elapse_from (l ∷ rest) n = (ok tt, lapsed l (record n { lapses = rest }))

abbrev pub elapse : Managed (Unit {0})
elapse n = elapse_from n.lapses n

abbrev pub delete_pending : Managed (Unit {0})
delete_pending n = (ok tt, record n { pending_tx = none })

abbrev pub clear_and_reset : Managed (Unit {0})
clear_and_reset = do delete_pending; reset_from_chain

abbrev pub retry_reset :
    Result Thrown (Unit {0}) × NonceManager → Result Thrown (Unit {0}) × NonceManager
retry_reset (ok _, n) = (ok tt, n)
retry_reset (err e, n) = clear_and_reset n

-- The `try` awaits the receipt, deletes the key and resets; its `catch` deletes and resets too.
unfoldable pub recover_pending : Managed (Unit {0})
unfolding reset_from_chain
recover_pending n = elim n.pending_tx [
  | none ↦ (ok tt, n)
  | some hash ↦ if n.landed then retry_reset (clear_and_reset n) else clear_and_reset n
]

-- `Number(await redis.get(key))`
abbrev pub stored : Managed ℤ
stored n = (ok (or_zero n.nonce), n)

unfoldable pub read_nonce : Managed ℤ
unfolding reset_from_chain
read_nonce n = elim n.nonce [ none ↦ (do reset_from_chain; stored) n | some z ↦ (ok z, n) ]

abbrev pub issue : ℤ → Managed ℤ
issue z n = (ok z, record n { nonce = incr n.nonce; heartbeat = true })

unfoldable pub acquire_nonce : String → Managed ℤ
unfolding acquire_lock recover_pending read_nonce elapse_from
acquire_nonce id = do
  acquire_lock id
  elapse
  recover_pending
  elapse
  z ← read_nonce
  elapse
  issue z

unfoldable pub confirm_nonce : String → Managed (Unit {0})
confirm_nonce tx_hash n = (ok tt, record n { pending_tx = some tx_hash })

abbrev pub is_held_by : String → Option String → Bool
is_held_by id none = false
is_held_by id (some other) = str_eq other id

-- the Lua script: delete the key only if it still holds the id
unfoldable pub release_lock : Managed (Unit {0})
release_lock n = elim n.lock_id [
  | none ↦ (ok tt, n)
  | some id ↦
      (ok tt, record n { lock = if is_held_by id n.lock then none else n.lock; lock_id = none })
]

abbrev pub stop_lock_heartbeat : NonceManager → NonceManager
stop_lock_heartbeat n = record n { heartbeat = false }

unfoldable pub on_tx_confirmed : Managed (Unit {0})
unfolding release_lock
on_tx_confirmed n = release_lock (record n { heartbeat = false; pending_tx = none })

abbrev pub set_nonce : (Option ℤ → Option ℤ) → Managed (Unit {0})
set_nonce f n = (ok tt, record n { nonce = f n.nonce })

-- the branch on the message
unfoldable pub nonce_action : String → Managed (Unit {0})
unfolding reset_from_chain
nonce_action m =
    if includes m "nonce too low" || includes m "nonce has already been used"
    then reset_from_chain
    else if includes m "already known"
    then pure tt
    else if includes m "replacement transaction underpriced"
    then set_nonce decr
    else set_nonce decr

unfoldable pub handle_failure : Thrown → Managed (Unit {0})
unfolding release_lock
handle_failure e n =
    (do nonce_action (message_of e); delete_pending; release_lock) (stop_lock_heartbeat n)

unfoldable pub destroy : Managed (Unit {0})
unfolding release_lock
destroy n = release_lock (stop_lock_heartbeat n)
