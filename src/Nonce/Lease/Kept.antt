-- ===== src/Nonce/Lease/Kept.antt =====
-- The steps that leave the key alone.
use settlement_engine.Prelude.{ℕ, suc, ◌+◌, ◌≡◌, refl, ◌==◌, String, false, Option, none, arith}
use settlement_engine.Nonce.Lease.{
  Lease, Phase, idle, acquiring, starting, sending, closing, lock_id_of, Wallet, put,
  start_heartbeat, heartbeat_failed, stop_heartbeat, begin_acquire, crash, pass,
}
use settlement_engine.Nonce.Lease.Runs.{OnTime}
use settlement_engine.Nonce.Lease.Secured.{
  Secured-weaken, IsNamed, put_all, room, Sure, Inv, Sure-outside,
}

module _ (names : ℕ → String) (lock_ttl pause late spares : ℕ) where
  abbrev pub Valid : Wallet → Type 0
  Valid = Inv names lock_ttl pause late spares

  abbrev pub Safe : ℕ → Option Lease → Phase → Type 0
  Safe = Sure lock_ttl pause late spares

  -- a manager changes its phase, and the key stays
  pub moved :
      {w : Wallet}
      → Valid w
      → (i : ℕ) (p : Phase) → IsNamed (names i) p
      → Safe w.now w.key p
      → Valid (record w { at = put i p w.at })
  moved {w} v i p n s = record {
    named = put_all (λ j. IsNamed (names j)) w.at i p n (λ j ne. v.named j);
    sure = put_all (λ j. Safe w.now w.key) w.at i p s (λ j ne. v.sure j);
  }

  -- a manager changes its phase and the key, and no other has the lock
  pub moved_alone :
      {w : Wallet}
      → Valid w
      → (i : ℕ) (p : Phase) (k : Option Lease) → IsNamed (names i) p
      → Safe w.now k p
      → ((j : ℕ) → (i == j) ≡ false → lock_id_of (w.at j) ≡ none)
      → Valid (record w { key = k; at = put i p w.at })
  moved_alone {w} v i p k n s out = record {
    named = put_all (λ j. IsNamed (names j)) w.at i p n (λ j ne. v.named j);
    sure =
        put_all (λ j. Safe w.now k) w.at i p s
          (λ j ne. Sure-outside lock_ttl pause late spares w.now k (w.at j) (out j ne));
  }

  passed_sure :
      (p : Phase) (now d : ℕ) (k : Option Lease)
      → Safe now k p
      → OnTime pause late (now + d) p
      → Safe (now + d) k p
  passed_sure idle now d k s t = tt
  passed_sure (acquiring id deadline) now d k s t = tt
  passed_sure (starting id since) now d k s t = (t, s.1)
  passed_sure (sending id due left) now d k s t = (t, s.1)
  passed_sure (closing id since) now d k s t = (t, s.1)

  pub pass-Inv :
      {w : Wallet}
      → Valid w
      → (d : ℕ) → ((i : ℕ) → OnTime pause late (w.now + d) (w.at i))
      → Valid (pass d w)
  pass-Inv {w} v d t = record {
    named = v.named;
    sure = λ i. passed_sure (w.at i) w.now d w.key (v.sure i) (t i);
  }

  pub begin-Inv :
      {w : Wallet} → Valid w → (i : ℕ) (p : Phase) → Valid (begin_acquire (names i) lock_ttl i w p)
  unfolding begin_acquire
  begin-Inv v i idle = moved v i _ refl tt
  begin-Inv v i p = v

  pub start-Inv :
      {w : Wallet}
      → Valid w
      → (i : ℕ) (p : Phase) → IsNamed (names i) p
      → Safe w.now w.key p
      → Valid (start_heartbeat lock_ttl spares i w p)
  unfolding start_heartbeat
  start-Inv v i (starting id since) n (le, s) =
      moved v i _ n (omega arith, Secured-weaken (omega arith) s)
  start-Inv v i p n s = v

  pub beat_fails-Inv :
      {w : Wallet}
      → Valid w
      → (i : ℕ) (p : Phase) → IsNamed (names i) p
      → Safe w.now w.key p
      → Valid (heartbeat_failed lock_ttl i w p)
  unfolding heartbeat_failed room
  beat_fails-Inv v i (sending id due (suc left)) n (le, s) =
      moved v i _ n (omega arith, Secured-weaken (omega arith) s)
  beat_fails-Inv v i p n s = v

  pub stop-Inv :
      {w : Wallet}
      → Valid w
      → (i : ℕ) (p : Phase) → IsNamed (names i) p
      → Safe w.now w.key p
      → Valid (stop_heartbeat i w p)
  unfolding stop_heartbeat
  stop-Inv v i (starting id since) n (le, s) =
      moved v i _ n (omega arith, Secured-weaken (omega arith) s)
  stop-Inv v i (sending id due left) n (le, s) =
      moved v i _ n (omega arith, Secured-weaken (omega arith) s)
  stop-Inv v i p n s = v

  pub crash-Inv : {w : Wallet} → Valid w → (i : ℕ) → Valid (crash i w)
  crash-Inv v i = moved v i idle tt tt
