-- ===== src/Nonce/Lease/Exclusive.antt =====
-- The steps of the managers, and the lock that one of them holds at a time.
use settlement_engine.Prelude.{
  ℕ, ◌+◌, ◌/◌, ◌<◌, ◌≡◌, refl, ap, ◌∙◌, sym, ◌==◌, ltb, String, true, false, Option, none, some,
  arith, branch, Option-cases, inl, inr,
}
use settlement_engine.Nonce.Lease.{
  LockId, Lease, Phase, idle, acquiring, starting, sending, closing, lock_id_of, Wallet, live,
  held_by, extend_lock_script, set_nx, try_round, heartbeat, release,
}
use settlement_engine.Nonce.Lease.Runs.{
  OnTime, Step, passes, begins, tries, starts, beats, beat_fails, stops, releases, crashes, Steps,
  stay, step, first,
}
use settlement_engine.Nonce.Lease.Secured.{
  Secured, same_id_refl, Secured-live, Secured-weaken, Secured-unique, IsNamed, id-IsNamed, room,
  Sure, Inv, Sure-Secured, one_holder, none_inside,
}
use settlement_engine.Nonce.Lease.Kept.{
  moved, moved_alone, pass-Inv, begin-Inv, start-Inv, beat_fails-Inv, stop-Inv, crash-Inv,
}

module _ (names : ℕ → String) (lock_ttl pause late spares : ℕ) where
  abbrev Valid : Wallet → Type 0
  Valid = Inv names lock_ttl pause late spares

  abbrev Safe : ℕ → Option Lease → Phase → Type 0
  Safe = Sure lock_ttl pause late spares

  module _
      (fits : pause + lock_ttl / 3 + late + room lock_ttl pause late spares spares + pause
        < lock_ttl)
      (apart : (i j : ℕ) → names i ≡ names j → i ≡ j) where
    -- the manager's own script finds its id in the key
    extended :
        (now : ℕ) (k : Option Lease) (id : LockId)
        → Secured k id now
        → extend_lock_script now id lock_ttl k
          ≡ some (record { holder = id; expires_at = now + lock_ttl })
    unfolding extend_lock_script
    extended now k id s = rw (Secured-live s, same_id_refl id)

    out_of_phase :
        {w : Wallet}
        → Valid w
        → (i : ℕ) (id : LockId) → IsNamed (names i) (starting id 0)
        → Secured w.key id w.now
        → (j : ℕ) → (i == j) ≡ false
        → lock_id_of (w.at j) ≡ none
    out_of_phase {w} v i id n s j ne = elim (Option-cases (lock_id_of (w.at j))) [
      | inl out ↦ out
      | inr (b, hb) ↦
          let same =
            Secured-unique s (Sure-Secured lock_ttl pause late spares (w.at j) (v.sure j) hb) in
          let named = id-IsNamed (names j) (w.at j) (v.named j) hb in
          let eq = apart i j (sym n ∙ ap (λ (l : LockId). l.consumer_name) same ∙ named) in
          absurd (ground (arith, eq))
    ]

    try-Inv :
        {w : Wallet}
        → Valid w
        → (i : ℕ) (p : Phase) → IsNamed (names i) p
        → Valid (try_round lock_ttl i w p)
    unfolding try_round
    try-Inv {w} v i (acquiring id deadline) n =
        branch Valid (ltb w.now deadline) _ _
          (λ in_time. elim (Option-cases (live w.now w.key)) [
            | inl dead ↦
                rw (dead, set_nx)
                  (moved_alone names lock_ttl pause late spares v i (starting id w.now) _ n
                    (omega arith, record { until = _; kept = refl; beyond = omega (arith, fits) })
                    (λ j ne. none_inside names lock_ttl pause late spares apart v dead j))
            | inr (l, e) ↦ rw (e, set_nx) v
          ])
          (λ over. moved names lock_ttl pause late spares v i idle tt tt)
    try-Inv v i p n = v

    beat-Inv :
        {w : Wallet}
        → Valid w
        → (i : ℕ) (p : Phase) → IsNamed (names i) p
        → Safe w.now w.key p
        → Valid (heartbeat lock_ttl spares i w p)
    unfolding heartbeat
    beat-Inv {w} v i (sending id due left) n (le, s) =
        let now : Secured w.key id w.now = Secured-weaken (omega arith) s in
        moved_alone names lock_ttl pause late spares v i (sending id (w.now + lock_ttl / 3) spares)
          _ n
          (
            omega arith,
            record {
              until = w.now + lock_ttl;
              kept = extended w.now w.key id now;
              beyond = omega (arith, fits);
            },
          )
          (out_of_phase v i id n now)
    beat-Inv v i p n s = v

    release-Inv :
        {w : Wallet}
        → Valid w
        → (i : ℕ) (p : Phase) → IsNamed (names i) p
        → Safe w.now w.key p
        → Valid (release i w p)
    unfolding release
    release-Inv {w} v i (closing id since) n (le, s) =
        moved_alone names lock_ttl pause late spares v i idle _ tt tt
          (out_of_phase v i id n (Secured-weaken (omega arith) s))
    release-Inv v i p n s = v

    Step-Inv :
        {w u : Wallet} → Step names lock_ttl (OnTime pause late) spares w u → Valid w → Valid u
    Step-Inv (passes w d t) v = pass-Inv names lock_ttl pause late spares v d t
    Step-Inv (begins w i) v = begin-Inv names lock_ttl pause late spares v i (w.at i)
    Step-Inv (tries w i) v = try-Inv v i (w.at i) (v.named i)
    Step-Inv (starts w i) v =
        start-Inv names lock_ttl pause late spares v i (w.at i) (v.named i) (v.sure i)
    Step-Inv (beats w i due) v = beat-Inv v i (w.at i) (v.named i) (v.sure i)
    Step-Inv (beat_fails w i due) v =
        beat_fails-Inv names lock_ttl pause late spares v i (w.at i) (v.named i) (v.sure i)
    Step-Inv (stops w i) v =
        stop-Inv names lock_ttl pause late spares v i (w.at i) (v.named i) (v.sure i)
    Step-Inv (releases w i) v = release-Inv v i (w.at i) (v.named i) (v.sure i)
    Step-Inv (crashes w i) v = crash-Inv names lock_ttl pause late spares v i

    Steps-Inv :
        {w u : Wallet} → Steps names lock_ttl (OnTime pause late) spares w u → Valid w → Valid u
    Steps-Inv (stay w) v = v
    Steps-Inv (step r s) v = Step-Inv s (Steps-Inv r v)

    first-Inv : (now : ℕ) → Valid (first now)
    first-Inv now = record { named = λ i. tt; sure = λ i. tt }

    -- Where the pauses of a manager without its heartbeat, the lateness of the heartbeat and its failures
    -- in a row fit together into the lock's time to live, and no two managers share a name: whatever the
    -- managers do, in any order and with crashes, two that have a lock id are one, and the key of the lock
    -- is live and holds that id.
    pub one_manager_at_a_time :
        {w : Wallet} {a b : LockId} (start i j : ℕ)
        → Steps names lock_ttl (OnTime pause late) spares (first start) w
        → lock_id_of (w.at i) ≡ some a
        → lock_id_of (w.at j) ≡ some b
        → (i ≡ j) × (held_by a (live w.now w.key) ≡ true)
    one_manager_at_a_time {w} {a} start i j r ha hb =
        let v = Steps-Inv r (first-Inv start) in
        let s = Sure-Secured lock_ttl pause late spares (w.at i) (v.sure i) ha in
        (
          one_holder names lock_ttl pause late spares apart v i j ha hb,
          rw (Secured-live s, same_id_refl a),
        )
