-- ===== src/Nonce/Lease/Orphan.antt =====
-- A lock whose id no manager has: it stays as it is until it expires.
use settlement_engine.Prelude.{
  ℕ, suc, ◌≤◌, ◌<◌, ◌≡◌, ◌≢◌, refl, ap, sym, ◌==◌, ltb, String, true, false, some, str_eq, eq_iff,
  arith, Bool-cases, branch, inl, inr, ==_iff, and_true,
}
use settlement_engine.Nonce.Lease.{
  LockId, same_id, Lease, Phase, idle, acquiring, starting, sending, closing, lock_id_of, Wallet,
  put, live, extend_lock_script, release_lock_script, set_nx, try_round, start_heartbeat, heartbeat,
  heartbeat_failed, stop_heartbeat, release, begin_acquire,
}
use settlement_engine.Nonce.Lease.Runs.{
  Step, passes, begins, tries, starts, beats, beat_fails, stops, releases, crashes, Steps, stay,
  step,
}
use settlement_engine.Nonce.Lease.Secured.{put_all}

same_id_eq : (a b : LockId) → same_id a b ≡ true → a ≡ b
same_id_eq a b h =
    let p = and_true (str_eq a.consumer_name b.consumer_name) (a.taken_at == b.taken_at) h in
    ground
      (arith, (eq_iff a.consumer_name b.consumer_name).0 p.0, (==_iff a.taken_at b.taken_at).0 p.1)

not_held : (l : Lease) (id : LockId) → some id ≢ some l.holder → same_id l.holder id ≡ false
not_held l id ne = elim (Bool-cases (same_id l.holder id)) [
  | inl same ↦ let e = same_id_eq l.holder id same in absurd (ne (ap some (sym e)))
  | inr other ↦ other
]

pub record Orphan (l : Lease) (w : Wallet) : Type 0 where
  pub kept : w.key ≡ some l
  pub out : (j : ℕ) → lock_id_of (w.at j) ≢ some l.holder

module _ {l : Lease} where
  pub moved-Orphan :
      {w : Wallet}
      → Orphan l w
      → (i : ℕ) (p : Phase) → lock_id_of p ≢ some l.holder
      → Orphan l (record w { at = put i p w.at })
  moved-Orphan {w} o i p n = record {
    kept = o.kept;
    out = put_all (λ j q. lock_id_of q ≢ some l.holder) w.at i p n (λ j ne. o.out j);
  }

  module _ {w : Wallet} (o : Orphan l w) (early : w.now < l.expires_at) (i : ℕ) where
    is_live : live w.now w.key ≡ some l
    is_live = rw o.kept (ground (arith, early))

    begin-Orphan : (name : String) (ttl : ℕ) (p : Phase) → Orphan l (begin_acquire name ttl i w p)
    unfolding begin_acquire
    begin-Orphan name ttl idle = moved-Orphan o i _ (λ e. cc)
    begin-Orphan name ttl p = o

    try-Orphan : (ttl : ℕ) (p : Phase) → Orphan l (try_round ttl i w p)
    unfolding try_round
    try-Orphan ttl (acquiring id deadline) =
        branch (Orphan l) (ltb w.now deadline) _ _ (λ t. rw (is_live, set_nx) o)
          (λ t. moved-Orphan o i idle (λ e. cc))
    try-Orphan ttl p = o

    start-Orphan :
        (ttl spares : ℕ) (p : Phase)
        → lock_id_of p ≢ some l.holder
        → Orphan l (start_heartbeat ttl spares i w p)
    unfolding start_heartbeat
    start-Orphan ttl spares (starting id since) n = moved-Orphan o i _ n
    start-Orphan ttl spares p n = o

    beat-Orphan :
        (ttl spares : ℕ) (p : Phase)
        → lock_id_of p ≢ some l.holder
        → Orphan l (heartbeat ttl spares i w p)
    unfolding heartbeat extend_lock_script
    beat-Orphan ttl spares (sending id due left) n =
        rw (is_live, not_held l id n) (moved-Orphan o i _ n)
    beat-Orphan ttl spares p n = o

    beat_fails-Orphan :
        (ttl : ℕ) (p : Phase) → lock_id_of p ≢ some l.holder → Orphan l (heartbeat_failed ttl i w p)
    unfolding heartbeat_failed
    beat_fails-Orphan ttl (sending id due (suc left)) n = moved-Orphan o i _ n
    beat_fails-Orphan ttl p n = o

    stop-Orphan : (p : Phase) → lock_id_of p ≢ some l.holder → Orphan l (stop_heartbeat i w p)
    unfolding stop_heartbeat
    stop-Orphan (starting id since) n = moved-Orphan o i _ n
    stop-Orphan (sending id due left) n = moved-Orphan o i _ n
    stop-Orphan p n = o

    release-Orphan : (p : Phase) → lock_id_of p ≢ some l.holder → Orphan l (release i w p)
    unfolding release release_lock_script
    release-Orphan (closing id since) n =
        rw (is_live, not_held l id n) (moved-Orphan o i idle (λ e. cc))
    release-Orphan p n = o

module _ (ttl i : ℕ) (w : Wallet) where
  set_nx-now : (id : LockId) → (set_nx ttl id i w).now ≡ w.now
  unfolding set_nx
  set_nx-now id = ground arith

  pub try-now : (p : Phase) → (try_round ttl i w p).now ≡ w.now
  unfolding try_round
  try-now idle = refl
  try-now (acquiring id deadline) = ground (arith, set_nx-now id)
  try-now p = refl

  begin-now : (name : String) (p : Phase) → (begin_acquire name ttl i w p).now ≡ w.now
  unfolding begin_acquire
  begin-now name idle = refl
  begin-now name p = refl

  start-now : (spares : ℕ) (p : Phase) → (start_heartbeat ttl spares i w p).now ≡ w.now
  unfolding start_heartbeat
  start-now spares idle = refl
  start-now spares p = refl

  beat-now : (spares : ℕ) (p : Phase) → (heartbeat ttl spares i w p).now ≡ w.now
  unfolding heartbeat
  beat-now spares idle = refl
  beat-now spares p = refl

  beat_fails-now : (p : Phase) → (heartbeat_failed ttl i w p).now ≡ w.now
  unfolding heartbeat_failed
  beat_fails-now (sending id due (suc left)) = refl
  beat_fails-now p = refl

  stop-now : (p : Phase) → (stop_heartbeat i w p).now ≡ w.now
  unfolding stop_heartbeat
  stop-now idle = refl
  stop-now p = refl

  release-now : (p : Phase) → (release i w p).now ≡ w.now
  unfolding release
  release-now idle = refl
  release-now p = refl

module _ {names : ℕ → String} {lock_ttl spares : ℕ} {in_time : ℕ → Phase → Type 0} where
  Step-now : {w u : Wallet} → Step names lock_ttl in_time spares w u → w.now ≤ u.now
  Step-now (passes w d t) = omega arith
  Step-now (begins w i) = omega (arith, begin-now lock_ttl i w (names i) (w.at i))
  Step-now (tries w i) = omega (arith, try-now lock_ttl i w (w.at i))
  Step-now (starts w i) = omega (arith, start-now lock_ttl i w spares (w.at i))
  Step-now (beats w i due) = omega (arith, beat-now lock_ttl i w spares (w.at i))
  Step-now (beat_fails w i due) = omega (arith, beat_fails-now lock_ttl i w (w.at i))
  Step-now (stops w i) = omega (arith, stop-now lock_ttl i w (w.at i))
  Step-now (releases w i) = omega (arith, release-now lock_ttl i w (w.at i))
  Step-now (crashes w i) = omega arith

  Step-Orphan :
      {l : Lease} {w u : Wallet}
      → Step names lock_ttl in_time spares w u
      → Orphan l w
      → w.now < l.expires_at
      → Orphan l u
  Step-Orphan (passes w d t) o early = record { kept = o.kept; out = o.out }
  Step-Orphan (begins w i) o early = begin-Orphan o early i (names i) lock_ttl (w.at i)
  Step-Orphan (tries w i) o early = try-Orphan o early i lock_ttl (w.at i)
  Step-Orphan (starts w i) o early = start-Orphan o early i lock_ttl spares (w.at i) (o.out i)
  Step-Orphan (beats w i due) o early = beat-Orphan o early i lock_ttl spares (w.at i) (o.out i)
  Step-Orphan (beat_fails w i due) o early = beat_fails-Orphan o early i lock_ttl (w.at i) (o.out i)
  Step-Orphan (stops w i) o early = stop-Orphan o early i (w.at i) (o.out i)
  Step-Orphan (releases w i) o early = release-Orphan o early i (w.at i) (o.out i)
  Step-Orphan (crashes w i) o early = moved-Orphan o i idle (λ e. cc)

  pub Steps-Orphan :
      {l : Lease} {w u : Wallet}
      → Steps names lock_ttl in_time spares w u
      → Orphan l w
      → u.now < l.expires_at
      → Orphan l u
  Steps-Orphan (stay w) o early = o
  Steps-Orphan {l} (step {v} r s) o early =
      let before : v.now < l.expires_at = omega (arith, Step-now s) in
      Step-Orphan s (Steps-Orphan r o before) before
