-- ===== src/Nonce/Lease/Foreign.antt =====
-- Managers whose lock has passed to another.
use settlement_engine.Prelude.{
  ℕ, suc, ◌≡◌, ◌≢◌, refl, ◌∙◌, ltb, String, false, Option, some, eq_iff, arith, branch,
  Option-cases, inl, inr,
}
use settlement_engine.Nonce.Lease.{
  LockId, Lease, Phase, idle, acquiring, starting, sending, closing, Wallet, put, live, held_by,
  extend_lock_script, release_lock_script, set_nx, try_round, start_heartbeat, heartbeat,
  heartbeat_failed, stop_heartbeat, release, begin_acquire,
}
use settlement_engine.Nonce.Lease.Runs.{
  Step, passes, begins, tries, starts, beats, beat_fails, stops, releases, crashes, Steps, stay,
  step, first,
}
use settlement_engine.Nonce.Lease.Secured.{IsNamed, put_all}

module _ (names : ℕ → String) (lock_ttl : ℕ) where
  abbrev Named : Wallet → Type 0
  Named w = (i : ℕ) → IsNamed (names i) (w.at i)

  renamed :
      (at : ℕ → Phase)
      → ((j : ℕ) → IsNamed (names j) (at j))
      → (i : ℕ) (p : Phase) → IsNamed (names i) p
      → (j : ℕ) → IsNamed (names j) (put i p at j)
  renamed at h i p n = put_all (λ j. IsNamed (names j)) at i p n (λ j ne. h j)

  set_nx-Named :
      (w : Wallet)
      → Named w
      → (i : ℕ) (id : LockId) → id.consumer_name ≡ names i
      → Named (set_nx lock_ttl id i w)
  unfolding set_nx
  set_nx-Named w h i id n = elim (Option-cases (live w.now w.key)) [
    | inl dead ↦ rw (dead, set_nx) (renamed w.at h i (starting id w.now) n)
    | inr (l, e) ↦ rw (e, set_nx) h
  ]

  try-Named :
      (w : Wallet)
      → Named w
      → (i : ℕ) (p : Phase) → IsNamed (names i) p
      → Named (try_round lock_ttl i w p)
  unfolding try_round
  try-Named w h i (acquiring id deadline) n =
      branch Named (ltb w.now deadline) _ _ (λ t. set_nx-Named w h i id n)
        (λ t. renamed w.at h i idle tt)
  try-Named w h i p n = h

  -- what the other operations make of a manager's phase, which keeps its id
  begin-Named :
      (w : Wallet) → Named w → (i : ℕ) (p : Phase) → Named (begin_acquire (names i) lock_ttl i w p)
  unfolding begin_acquire
  begin-Named w h i idle = renamed w.at h i _ refl
  begin-Named w h i p = h

  start-Named :
      (w : Wallet)
      → Named w
      → (spares i : ℕ) (p : Phase) → IsNamed (names i) p
      → Named (start_heartbeat lock_ttl spares i w p)
  unfolding start_heartbeat
  start-Named w h spares i (starting id since) n = renamed w.at h i _ n
  start-Named w h spares i p n = h

  beat-Named :
      (w : Wallet)
      → Named w
      → (spares i : ℕ) (p : Phase) → IsNamed (names i) p
      → Named (heartbeat lock_ttl spares i w p)
  unfolding heartbeat
  beat-Named w h spares i (sending id due left) n = renamed w.at h i _ n
  beat-Named w h spares i p n = h

  beat_fails-Named :
      (w : Wallet)
      → Named w
      → (i : ℕ) (p : Phase) → IsNamed (names i) p
      → Named (heartbeat_failed lock_ttl i w p)
  unfolding heartbeat_failed
  beat_fails-Named w h i (sending id due (suc left)) n = renamed w.at h i _ n
  beat_fails-Named w h i p n = h

  stop-Named :
      (w : Wallet)
      → Named w
      → (i : ℕ) (p : Phase) → IsNamed (names i) p
      → Named (stop_heartbeat i w p)
  unfolding stop_heartbeat
  stop-Named w h i (starting id since) n = renamed w.at h i _ n
  stop-Named w h i (sending id due left) n = renamed w.at h i _ n
  stop-Named w h i p n = h

  release-Named : (w : Wallet) → Named w → (i : ℕ) (p : Phase) → Named (release i w p)
  unfolding release
  release-Named w h i (closing id since) = renamed w.at h i idle tt
  release-Named w h i p = h

  module _ {in_time : ℕ → Phase → Type 0} {spares : ℕ} where
    Step-Named : {w u : Wallet} → Step names lock_ttl in_time spares w u → Named w → Named u
    Step-Named (passes w d t) h = h
    Step-Named (begins w i) h = begin-Named w h i (w.at i)
    Step-Named (tries w i) h = try-Named w h i (w.at i) (h i)
    Step-Named (starts w i) h = start-Named w h spares i (w.at i) (h i)
    Step-Named (beats w i due) h = beat-Named w h spares i (w.at i) (h i)
    Step-Named (beat_fails w i due) h = beat_fails-Named w h i (w.at i) (h i)
    Step-Named (stops w i) h = stop-Named w h i (w.at i) (h i)
    Step-Named (releases w i) h = release-Named w h i (w.at i)
    Step-Named (crashes w i) h = renamed w.at h i idle tt

    pub Steps-Named : {w u : Wallet} → Steps names lock_ttl in_time spares w u → Named w → Named u
    Steps-Named (stay w) h = h
    Steps-Named (step r s) h = Step-Named s (Steps-Named r h)

-- a script with another manager's id finds the key live under the holder's
pub foreign_scripts :
    (now ttl : ℕ) (id : LockId) (k : Option Lease) {l : Lease}
    → live now k ≡ some l
    → l.holder.consumer_name ≢ id.consumer_name
    → (extend_lock_script now id ttl k ≡ k) × (release_lock_script now id k ≡ k)
unfolding extend_lock_script release_lock_script
foreign_scripts now ttl id k {l} e ne =
    let other : held_by id (live now k) ≡ false =
      rw e (ground (arith, eq_iff l.holder.consumer_name id.consumer_name, ne)) in
    (rw other, rw other)

module _ (lock_ttl spares i : ℕ) (w : Wallet) {l : Lease} (held : live w.now w.key ≡ some l) where
  try_key : (p : Phase) → (try_round lock_ttl i w p).key ≡ w.key
  unfolding try_round
  try_key (acquiring id deadline) =
      branch (λ (u : Wallet). u.key ≡ w.key) (ltb w.now deadline) _ _ (λ t. rw (held, set_nx))
        (λ t. refl)
  try_key p = refl

  module _ {name : String} (ne : l.holder.consumer_name ≢ name) where
    beat_key : (p : Phase) → IsNamed name p → (heartbeat lock_ttl spares i w p).key ≡ w.key
    unfolding heartbeat
    beat_key (sending id due left) n =
        (foreign_scripts w.now lock_ttl id w.key held (λ e. ne (e ∙ n))).0
    beat_key p n = refl

    release_key : (p : Phase) → IsNamed name p → (release i w p).key ≡ w.key
    unfolding release
    release_key (closing id since) n =
        (foreign_scripts w.now lock_ttl id w.key held (λ e. ne (e ∙ n))).1
    release_key p n = refl

-- Whatever the managers have done before, in any order, with crashes and however late: while the lock's
-- key is live under an id that carries another manager's name, no try for the lock, no heartbeat and no
-- release of a manager changes the key.
pub others_leave_lock :
    {names : ℕ → String} {lock_ttl spares : ℕ} {in_time : ℕ → Phase → Type 0} {w : Wallet}
    {l : Lease} (start i : ℕ)
    → Steps names lock_ttl in_time spares (first start) w
    → live w.now w.key ≡ some l
    → l.holder.consumer_name ≢ names i
    → ((try_round lock_ttl i w (w.at i)).key ≡ w.key)
      × ((heartbeat lock_ttl spares i w (w.at i)).key ≡ w.key)
      × ((release i w (w.at i)).key ≡ w.key)
others_leave_lock {names} {lock_ttl} {spares} {w} start i r held ne =
    let n = Steps-Named names lock_ttl r (λ j. tt) i in
    (
      try_key lock_ttl spares i w held (w.at i),
      beat_key lock_ttl spares i w held ne (w.at i) n,
      release_key lock_ttl spares i w held ne (w.at i) n,
    )
