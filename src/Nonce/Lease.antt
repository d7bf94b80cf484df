-- ===== src/Nonce/Lease.antt =====
-- The lock of settlement/nonceManager.ts over time: the clock, the lock's key with its time to live, and
-- the managers that share the wallet, each where its calls stand. `lock_ttl` is `lockTtlMs`, and `names`
-- are the `consumerName`s of the managers.
pub mod Runs
pub mod Secured
pub mod Kept
pub mod Exclusive
pub mod Foreign
pub mod Orphan
pub mod Expiry
use settlement_engine.Prelude.{
  ℕ, zero, suc, ◌+◌, ◌/◌, ◌≤◌, ◌≡◌, refl, ◌==◌, ltb, String, Bool, true, false, ◌&&◌, Option, none,
  some, str_eq, if◌then◌else◌,
}

-- `${consumerName}:${Date.now()}`, its two parts: a time of day holds no colon
pub record LockId : Type 0 where
  pub consumer_name : String
  pub taken_at : ℕ

abbrev pub same_id : LockId → LockId → Bool
same_id a b = str_eq a.consumer_name b.consumer_name && (a.taken_at == b.taken_at)

-- what the lock's key holds, until it expires
pub record Lease : Type 0 where
  pub holder : LockId
  pub expires_at : ℕ

-- Where a manager stands: outside; in the loop of `acquireLock` up to its deadline; in `acquireNonce`
-- after it, with no heartbeat; with the heartbeat, next due at a time; and after `stopLockHeartbeat`
-- with the release to come. `since` is when it came there, `spares` how many extensions may still fail
-- in a row.
pub data Phase : Type 0 where
  idle : Phase
  acquiring : (id : LockId) (deadline : ℕ) → Phase
  starting : (id : LockId) (since : ℕ) → Phase
  sending : (id : LockId) (due spares : ℕ) → Phase
  closing : (id : LockId) (since : ℕ) → Phase

-- `this.lockId`
abbrev pub lock_id_of : Phase → Option LockId
lock_id_of idle = none
lock_id_of (acquiring id deadline) = none
lock_id_of (starting id since) = some id
lock_id_of (sending id due spares) = some id
lock_id_of (closing id since) = some id

pub record Wallet : Type 0 where
  pub now : ℕ
  pub key : Option Lease
  pub at : ℕ → Phase

abbrev pub put : ℕ → Phase → (ℕ → Phase) → ℕ → Phase
put i p at j = if i == j then p else at j

-- `GET`: a key whose time to live has passed is gone
abbrev pub live : ℕ → Option Lease → Option Lease
live now none = none
live now (some l) = if ltb now l.expires_at then some l else none

abbrev pub held_by : LockId → Option Lease → Bool
held_by id none = false
held_by id (some l) = same_id l.holder id

-- `EXTEND_LOCK_SCRIPT`: `PEXPIRE` only if the key holds the id
unfoldable pub extend_lock_script : ℕ → LockId → ℕ → Option Lease → Option Lease
extend_lock_script now id ttl key =
    if held_by id (live now key) then some (record { holder = id; expires_at = now + ttl }) else key

-- `RELEASE_LOCK_SCRIPT`: `DEL` only if the key holds the id
unfoldable pub release_lock_script : ℕ → LockId → Option Lease → Option Lease
release_lock_script now id key = if held_by id (live now key) then none else key

module _ (lock_ttl : ℕ) where
  -- `SET key id PX ttl NX`: the key is set where it does not exist
  unfoldable pub set_nx : LockId → ℕ → Wallet → Wallet
  set_nx id i w = elim (live w.now w.key) [
    | none ↦ record w {
      key = some (record { holder = id; expires_at = w.now + lock_ttl });
      at = put i (starting id w.now) w.at;
    }
    | some other ↦ w
  ]

  -- a round of the loop of `acquireLock`; past the deadline it throws
  unfoldable pub try_round : ℕ → Wallet → Phase → Wallet
  unfolding set_nx
  try_round i w (acquiring id deadline) =
      if ltb w.now deadline then set_nx id i w else record w { at = put i idle w.at }
  try_round i w other = w

  -- `startLockHeartbeat`: an interval of a third of the time to live
  unfoldable pub start_heartbeat : ℕ → ℕ → Wallet → Phase → Wallet
  start_heartbeat spares i w (starting id since) = record w {
    at = put i (sending id (w.now + lock_ttl / 3) spares) w.at;
  }
  start_heartbeat spares i w other = w

  -- the interval fires
  unfoldable pub heartbeat : ℕ → ℕ → Wallet → Phase → Wallet
  unfolding extend_lock_script
  heartbeat spares i w (sending id due left) = record w {
    key = extend_lock_script w.now id lock_ttl w.key;
    at = put i (sending id (w.now + lock_ttl / 3) spares) w.at;
  }
  heartbeat spares i w other = w

  -- the interval fires, and the script fails, which is only logged
  unfoldable pub heartbeat_failed : ℕ → Wallet → Phase → Wallet
  heartbeat_failed i w (sending id due (suc left)) = record w {
    at = put i (sending id (w.now + lock_ttl / 3) left) w.at;
  }
  heartbeat_failed i w other = w

-- `stopLockHeartbeat`, with which `onTxConfirmed`, `handleFailure` and `destroy` begin
unfoldable pub stop_heartbeat : ℕ → Wallet → Phase → Wallet
stop_heartbeat i w (starting id since) = record w { at = put i (closing id w.now) w.at }
stop_heartbeat i w (sending id due spares) = record w { at = put i (closing id w.now) w.at }
stop_heartbeat i w other = w

-- `releaseLock`, with which they end
unfoldable pub release : ℕ → Wallet → Phase → Wallet
unfolding release_lock_script
release i w (closing id since) = record w {
  key = release_lock_script w.now id w.key;
  at = put i idle w.at;
}
release i w other = w

-- `lockId` and `deadline` of `acquireLock`
unfoldable pub begin_acquire : String → ℕ → ℕ → Wallet → Phase → Wallet
begin_acquire name lock_ttl i w idle = record w {
  at =
      put i (acquiring (record { consumer_name = name; taken_at = w.now }) (w.now + lock_ttl)) w.at;
}
begin_acquire name lock_ttl i w other = w

-- the process of a manager ends, and another takes its place; the key stays
abbrev pub crash : ℕ → Wallet → Wallet
crash i w = record w { at = put i idle w.at }

abbrev pub pass : ℕ → Wallet → Wallet
pass d w = record w { now = w.now + d }
