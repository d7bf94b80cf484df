-- ===== src/Nonce/Lease/Expiry.antt =====
-- What becomes of a lock when its manager is gone, or late.
use settlement_engine.Prelude.{
  ℕ, ◌+◌, ◌/◌, ◌≤◌, ◌<◌, ◌≡◌, ◌≢◌, refl, ap, ◌∙◌, sym, ◌==◌, ltb, String, true, false, none, some,
  arith, Option-cases, inl, inr,
}
use settlement_engine.Nonce.Lease.{
  LockId, Lease, Phase, idle, acquiring, starting, sending, lock_id_of, Wallet, put, live, set_nx,
  try_round, heartbeat, crash, pass,
}
use settlement_engine.Nonce.Lease.Runs.{Steps, first}
use settlement_engine.Nonce.Lease.Secured.{put_all, id-IsNamed}
use settlement_engine.Nonce.Lease.Foreign.{Steps-Named, foreign_scripts}
use settlement_engine.Nonce.Lease.Orphan.{Orphan, Steps-Orphan, try-now}

put_self : (i : ℕ) (p : Phase) (at : ℕ → Phase) → put i p at i ≡ p
put_self i p at = ground arith

-- where the key is free, a manager in its loop gets it
pub free_key_taken :
    (ttl i : ℕ) (w : Wallet) {id : LockId} {deadline : ℕ} (p : Phase)
    → live w.now w.key ≡ none
    → p ≡ acquiring id deadline
    → w.now < deadline
    → (lock_id_of ((try_round ttl i w p).at i) ≡ some id)
      × ((try_round ttl i w p).key ≡ some (record { holder = id; expires_at = w.now + ttl }))
unfolding try_round set_nx
free_key_taken ttl i w {id} {deadline} p dead at early =
    let in_time : ltb w.now deadline ≡ true = ground (arith, early) in
    rw (at, in_time) (rw (dead, set_nx) (ap lock_id_of (put_self i (starting id w.now) w.at), refl))

module _ {names : ℕ → String} {lock_ttl spares : ℕ} {in_time : ℕ → Phase → Type 0} where
  -- once its manager is gone, no manager has the id of the key
  crashed-Orphan :
      {w : Wallet} {l : Lease} (apart : (i j : ℕ) → names i ≡ names j → i ≡ j) (start i : ℕ)
      → Steps names lock_ttl in_time spares (first start) w
      → lock_id_of (w.at i) ≡ some l.holder
      → w.key ≡ some l
      → Orphan l (crash i w)
  crashed-Orphan {w} {l} apart start i r mine held =
      let n = Steps-Named names lock_ttl r (λ j. tt) in
      record {
        kept = held;
        out =
            put_all (λ j q. lock_id_of q ≢ some l.holder) w.at i idle (λ e. cc)
              λ j ne e.
                let same = apart i j (
                  sym (id-IsNamed (names i) (w.at i) (n i) mine)
                  ∙ id-IsNamed (names j) (w.at j) (n j) e) in
                ground (arith, same, ne);
      }

  -- A manager that has the lock crashes, and its key is left. Whatever the managers do from there, in any
  -- order and however late, the key is unchanged in each state before it expires; and in each state after
  -- it has expired in which no manager has got the key yet, a manager in its loop before its own deadline,
  -- whether it has begun before the expiry or after, gets the lock by its next try, for the full time to
  -- live.
  pub crashed_lock_passes :
      {w v u : Wallet} {l : Lease} {id : LockId} {deadline : ℕ}
      (apart : (i j : ℕ) → names i ≡ names j → i ≡ j) (start i j : ℕ)
      → Steps names lock_ttl in_time spares (first start) w
      → lock_id_of (w.at i) ≡ some l.holder
      → w.key ≡ some l
      → Steps names lock_ttl in_time spares (crash i w) v
      → v.now < l.expires_at
      → Steps names lock_ttl in_time spares (crash i w) u
      → l.expires_at ≤ u.now
      → u.key ≡ some l
      → u.at j ≡ acquiring id deadline
      → u.now < deadline
      → (v.key ≡ some l)
        × (lock_id_of ((try_round lock_ttl j u (u.at j)).at j) ≡ some id)
        × ((try_round lock_ttl j u (u.at j)).key
            ≡ some (record { holder = id; expires_at = u.now + lock_ttl }))
  crashed_lock_passes {u} {l} apart start i j r mine held before early after over left at in_time =
      let o = Steps-Orphan before (crashed-Orphan apart start i r mine held) early in
      let dead : live u.now u.key ≡ none = rw left (ground (arith, over)) in
      let taken = free_key_taken lock_ttl j u (u.at j) dead at in_time in (o.kept, taken.0, taken.1)

-- the phase of another manager
try_other :
    (ttl i j : ℕ) (w : Wallet) (p : Phase) → (j == i) ≡ false → (try_round ttl j w p).at i ≡ w.at i
unfolding try_round set_nx
try_other ttl i j w (acquiring id deadline) ne = elim (Option-cases (live w.now w.key)) [
  | inl dead ↦ ground (arith, dead, ne)
  | inr (l, e) ↦ ground (arith, e, ne)
]
try_other ttl i j w p ne = refl

sending_beats :
    (ttl spares i : ℕ) (v : Wallet) (p : Phase) {a : LockId} {l : Lease} {due left : ℕ}
    → p ≡ sending a due left
    → live v.now v.key ≡ some l
    → l.holder.consumer_name ≢ a.consumer_name
    → ((heartbeat ttl spares i v p).key ≡ v.key)
      × (lock_id_of ((heartbeat ttl spares i v p).at i) ≡ some a)
unfolding heartbeat
sending_beats ttl spares i v p {a} {due} {left} at held ne = rw at (
  (foreign_scripts v.now ttl a v.key held ne).0,
  ap lock_id_of (put_self i (sending a (v.now + ttl / 3) spares) v.at),
)

-- While a manager sends and its heartbeat stays out until its key has expired, another manager that is in
-- its loop before its deadline gets the lock; the first still has its lock id, also after its next
-- heartbeat, which leaves the key to the other.
pub late_heartbeat_two_managers :
    (w : Wallet) {v : Wallet} {l : Lease} {a b : LockId} {due left deadline : ℕ}
    (lock_ttl spares i j d : ℕ)
    → 0 < lock_ttl
    → (j == i) ≡ false
    → b.consumer_name ≢ a.consumer_name
    → w.at i ≡ sending a due left
    → w.key ≡ some l
    → l.expires_at ≤ w.now + d
    → w.at j ≡ acquiring b deadline
    → w.now + d < deadline
    → v ≡ try_round lock_ttl j (pass d w) (w.at j)
    → (lock_id_of (v.at j) ≡ some b)
      × (lock_id_of (v.at i) ≡ some a)
      × ((heartbeat lock_ttl spares i v (v.at i)).key ≡ v.key)
      × (lock_id_of ((heartbeat lock_ttl spares i v (v.at i)).at i) ≡ some a)
late_heartbeat_two_managers w {v} {l} {a} {b} lock_ttl spares i j d pos ne other at held over waits
      early made =
    let u : Wallet = try_round lock_ttl j (pass d w) (w.at j) in
    let dead : live (w.now + d) w.key ≡ none = rw held (ground (arith, over)) in
    let (mine, key) = free_key_taken lock_ttl j (pass d w) (w.at j) dead waits early in
    let still = try_other lock_ttl i j (pass d w) (w.at j) ne ∙ at in
    let live_b : live u.now u.key
        ≡ some (record { holder = b; expires_at = w.now + d + lock_ttl }) =
      rw (key, try-now lock_ttl j (pass d w) (w.at j)) (ground (arith, pos)) in
    let beats = sending_beats lock_ttl spares i u (u.at i) still live_b other in
    rw made (mine, ap lock_id_of still, beats.0, beats.1)
