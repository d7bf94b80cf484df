-- ===== src/Nonce/Lease/Runs.antt =====
-- Runs of the managers that share a wallet's lock, one step after the other in any order.
use settlement_engine.Prelude.{ℕ, ◌+◌, ◌≤◌, String, none}
use settlement_engine.Nonce.Lease.{
  Phase, idle, acquiring, starting, sending, closing, Wallet, try_round, start_heartbeat, heartbeat,
  heartbeat_failed, stop_heartbeat, release, begin_acquire, crash, pass,
}

-- A manager that has the lock and no heartbeat goes on within `pause`, and a heartbeat fires `late` at
-- most after it is due.
module _ (pause late : ℕ) where
  abbrev pub OnTime : ℕ → Phase → Type 0
  OnTime now idle = Unit {0}
  OnTime now (acquiring id deadline) = Unit {0}
  OnTime now (starting id since) = now ≤ since + pause
  OnTime now (sending id due spares) = now ≤ due + late
  OnTime now (closing id since) = now ≤ since + pause

abbrev pub IsDue : ℕ → Phase → Type 0
IsDue now (sending id due spares) = due ≤ now
IsDue now other = Unit {0}

-- `in_time` says how far a manager may be behind when time passes
module _ (names : ℕ → String) (lock_ttl : ℕ) (in_time : ℕ → Phase → Type 0) (spares : ℕ) where
  pub data Step : Wallet → Wallet → Type 0 where
    passes : (w : Wallet) (d : ℕ) → ((i : ℕ) → in_time (w.now + d) (w.at i)) → Step w (pass d w)
    begins : (w : Wallet) (i : ℕ) → Step w (begin_acquire (names i) lock_ttl i w (w.at i))
    tries : (w : Wallet) (i : ℕ) → Step w (try_round lock_ttl i w (w.at i))
    starts : (w : Wallet) (i : ℕ) → Step w (start_heartbeat lock_ttl spares i w (w.at i))
    beats :
        (w : Wallet) (i : ℕ)
        → IsDue w.now (w.at i)
        → Step w (heartbeat lock_ttl spares i w (w.at i))
    beat_fails :
        (w : Wallet) (i : ℕ)
        → IsDue w.now (w.at i)
        → Step w (heartbeat_failed lock_ttl i w (w.at i))
    stops : (w : Wallet) (i : ℕ) → Step w (stop_heartbeat i w (w.at i))
    releases : (w : Wallet) (i : ℕ) → Step w (release i w (w.at i))
    crashes : (w : Wallet) (i : ℕ) → Step w (crash i w)

  -- from any wallet
  pub data Steps : Wallet → Wallet → Type 0 where
    stay : (w : Wallet) → Steps w w
    step : {u v w : Wallet} → Steps u v → Step v w → Steps u w

abbrev pub first : ℕ → Wallet
first now = record { now = now; key = none; at = λ i. idle }
