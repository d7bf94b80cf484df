-- ===== src/Tests/Leases.antt =====
-- The theorems on the lock over time, at two managers.
use Prim.Native.String.{String}
use settlement_engine.Prelude.{
  ℕ, zero, suc, ◌+◌, ◌≡◌, ◌≢◌, refl, ap, sym, true, some, length, arith,
}
use settlement_engine.Prelude.Text.{codes}
use settlement_engine.Nonce.Lease.{
  LockId, Lease, Phase, lock_id_of, Wallet, live, held_by, try_round, heartbeat, release,
  begin_acquire, start_heartbeat, crash, pass,
}
use settlement_engine.Nonce.Lease.Runs.{OnTime, begins, tries, passes, Steps, stay, step, first}
use settlement_engine.Nonce.Lease.Secured.{room}
use settlement_engine.Nonce.Lease.Exclusive.{one_manager_at_a_time}
use settlement_engine.Nonce.Lease.Foreign.{others_leave_lock}
use settlement_engine.Nonce.Lease.Expiry.{crashed_lock_passes, late_heartbeat_two_managers}

-- a name for each manager
engine_name : ℕ → String
engine_name zero = "engine"
engine_name (suc n) = String.◌∷◌ "x" (engine_name n)

name_length : (n : ℕ) → length (codes (engine_name n)) ≡ length (codes (engine_name 0)) + n
unfolding engine_name codes
name_length zero = omega arith
name_length (suc n) = omega (arith, name_length n)

names_apart : (i j : ℕ) → engine_name i ≡ engine_name j → i ≡ j
names_apart i j e = omega (arith, name_length i, name_length j, ap (λ s. length (codes s)) e)

abbrev begun : Wallet
begun = begin_acquire (engine_name 0) 30000 0 (first 1000) ((first 1000).at 0)

abbrev locked : Wallet
locked = try_round 30000 0 begun (begun.at 0)

abbrev waiting : Wallet
waiting = begin_acquire (engine_name 1) 30000 1 locked (locked.at 1)

abbrev id_of : ℕ → LockId
id_of i = record { consumer_name = engine_name i; taken_at = 1000 }

abbrev lease : Lease
lease = record { holder = id_of 0; expires_at = 31000 }

module _ (in_time : ℕ → Phase → Type 0) where
  run_locked : Steps engine_name 30000 in_time 1 (first 1000) locked
  run_locked = step (step (stay (first 1000)) (begins (first 1000) 0)) (tries begun 0)

  run_waiting : Steps engine_name 30000 in_time 1 (first 1000) waiting
  run_waiting = step run_locked (begins locked 1)

one_manager_at_a_time_example :
    (◌≡◌ {A = ℕ} 0 0) × (held_by (id_of 0) (live locked.now locked.key) ≡ true)
unfolding try_round begin_acquire room
one_manager_at_a_time_example =
    one_manager_at_a_time engine_name 30000 4000 100 1 (omega arith) names_apart 1000 0 0
      (run_locked (OnTime 4000 100)) refl refl

names_differ : engine_name 0 ≢ engine_name 1
names_differ e = absurd (omega (arith, names_apart 0 1 e))

others_leave_lock_example :
    ((try_round 30000 1 waiting (waiting.at 1)).key ≡ waiting.key)
    × ((heartbeat 30000 1 1 waiting (waiting.at 1)).key ≡ waiting.key)
    × ((release 1 waiting (waiting.at 1)).key ≡ waiting.key)
unfolding try_round begin_acquire
others_leave_lock_example =
    others_leave_lock {in_time = OnTime 4000 100} {l = lease} 1000 1 (run_waiting (OnTime 4000 100))
      refl names_differ

-- its manager is gone, and five seconds pass
abbrev left : Wallet
left = pass 5000 (crash 0 locked)

abbrev next_id : LockId
next_id = record { consumer_name = engine_name 1; taken_at = 6000 }

abbrev Any : ℕ → Phase → Type 0
Any now p = Unit

run_left : Steps engine_name 30000 Any 1 (crash 0 locked) left
run_left = step (stay (crash 0 locked)) (passes (crash 0 locked) 5000 (λ i. tt))

-- another begins after the key has expired
abbrev expired : Wallet
expired = pass 35000 left

abbrev late_begun : Wallet
late_begun = begin_acquire (engine_name 1) 30000 1 expired (expired.at 1)

run_late : Steps engine_name 30000 Any 1 (crash 0 locked) late_begun
run_late = step (step run_left (passes left 35000 (λ i. tt))) (begins expired 1)

abbrev late_id : LockId
late_id = record { consumer_name = engine_name 1; taken_at = 41000 }

crashed_lock_passes_example :
    (left.key ≡ some lease)
    × (lock_id_of ((try_round 30000 1 late_begun (late_begun.at 1)).at 1) ≡ some late_id)
    × ((try_round 30000 1 late_begun (late_begun.at 1)).key
        ≡ some (record { holder = late_id; expires_at = 71000 }))
unfolding try_round begin_acquire
crashed_lock_passes_example =
    crashed_lock_passes {names = engine_name} {spares = 1} {in_time = Any} {l = lease}
      {id = late_id} {deadline = 71000} names_apart 1000 0 1 (run_locked Any) refl refl run_left
      (omega arith) run_late (omega arith) refl refl (omega arith)

-- a manager that sends, and another that begins five seconds later
abbrev beating : Wallet
beating = pass 5000 (start_heartbeat 30000 1 0 locked (locked.at 0))

abbrev contended : Wallet
contended = begin_acquire (engine_name 1) 30000 1 beating (beating.at 1)

abbrev overtaken : Wallet
overtaken = try_round 30000 1 (pass 25000 contended) (contended.at 1)

late_heartbeat_two_managers_example :
    (lock_id_of (overtaken.at 1) ≡ some next_id)
    × (lock_id_of (overtaken.at 0) ≡ some (id_of 0))
    × ((heartbeat 30000 1 0 overtaken (overtaken.at 0)).key ≡ overtaken.key)
    × (lock_id_of ((heartbeat 30000 1 0 overtaken (overtaken.at 0)).at 0) ≡ some (id_of 0))
unfolding try_round begin_acquire start_heartbeat
late_heartbeat_two_managers_example =
    late_heartbeat_two_managers contended {l = lease} {due = 11000} {left = 1} {deadline = 36000}
      30000 1 0 1 25000 (omega arith) refl (λ e. names_differ (sym e)) refl refl (omega arith) refl
      (omega arith) refl
