-- ===== src/Nonce/Lease/Secured.antt =====
-- What keeps the lock with its holder, and so with one manager at a time.
use settlement_engine.Prelude.{
  ℕ, zero, suc, ◌+◌, ◌/◌, ◌≤◌, ◌<◌, ◌≡◌, ap, ◌∙◌, sym, ◌==◌, String, true, false, Option, none,
  some, eq_iff, arith, ==_iff, branch, Option-cases, inl, inr,
}
use settlement_engine.Nonce.Lease.{
  LockId, same_id, Lease, Phase, idle, acquiring, starting, sending, closing, lock_id_of, Wallet,
  put, live,
}

-- the key holds the id beyond a time
pub record Secured (key : Option Lease) (id : LockId) (t : ℕ) : Type 0 where
  pub until : ℕ
  pub kept : key ≡ some (record { holder = id; expires_at = until })
  pub beyond : t < until

pub same_id_refl : (id : LockId) → same_id id id ≡ true
same_id_refl id = ground (arith, eq_iff id.consumer_name id.consumer_name)

pub Secured-live :
    {key : Option Lease} {id : LockId} {now : ℕ} (s : Secured key id now)
    → live now key ≡ some (record { holder = id; expires_at = s.until })
Secured-live {now} s = rw s.kept (ground (arith, s.beyond))

pub Secured-weaken :
    {key : Option Lease} {id : LockId} {t u : ℕ} → u ≤ t → Secured key id t → Secured key id u
Secured-weaken le s = record { until = s.until; kept = s.kept; beyond = omega (arith, s.beyond) }

-- the key holds one id
pub Secured-unique :
    {key : Option Lease} {a b : LockId} {t u : ℕ} → Secured key a t → Secured key b u → a ≡ b
Secured-unique s r = cc (s.kept, r.kept)

module _ (name : String) where
  -- ids carry the name of their manager
  abbrev pub IsNamed : Phase → Type 0
  IsNamed idle = Unit {0}
  IsNamed (acquiring id deadline) = id.consumer_name ≡ name
  IsNamed (starting id since) = id.consumer_name ≡ name
  IsNamed (sending id due spares) = id.consumer_name ≡ name
  IsNamed (closing id since) = id.consumer_name ≡ name

  pub id-IsNamed :
      (p : Phase) {id : LockId} → IsNamed p → lock_id_of p ≡ some id → id.consumer_name ≡ name
  id-IsNamed idle n e = cc
  id-IsNamed (acquiring a d) n e = cc
  id-IsNamed (starting a s) {id} n e = let same : a ≡ id = cc in rw (← same) n
  id-IsNamed (sending a d s) {id} n e = let same : a ≡ id = cc in rw (← same) n
  id-IsNamed (closing a s) {id} n e = let same : a ≡ id = cc in rw (← same) n

pub put_all :
    (P : ℕ → Phase → Type 0) (at : ℕ → Phase) (i : ℕ) (p : Phase)
    → P i p
    → ((j : ℕ) → (i == j) ≡ false → P j (at j))
    → (j : ℕ) → P j (put i p at j)
put_all P at i p own rest j =
    branch (P j) (i == j) p (at j) (λ e. rw (← (==_iff i j).0 e) own) (rest j)

module _ (lock_ttl pause late spares : ℕ) where
  -- how long failing extensions may keep a heartbeat from its next success
  unfoldable pub room : ℕ → ℕ
  room zero = 0
  room (suc left) = lock_ttl / 3 + late + room left

  -- a manager with the lock is in time, and its key outlives all that it may still wait for
  abbrev pub Sure : ℕ → Option Lease → Phase → Type 0
  Sure now key idle = Unit {0}
  Sure now key (acquiring id deadline) = Unit {0}
  Sure now key (starting id since) =
      (now ≤ since + pause)
      × Secured key id (since + pause + lock_ttl / 3 + late + room spares + pause)
  Sure now key (sending id due left) =
      (now ≤ due + late) × Secured key id (due + late + room left + pause)
  Sure now key (closing id since) = (now ≤ since + pause) × Secured key id (since + pause)

  pub Sure-outside :
      (now : ℕ) (key : Option Lease) (p : Phase) → lock_id_of p ≡ none → Sure now key p
  Sure-outside now key idle e = tt
  Sure-outside now key (acquiring id deadline) e = tt
  Sure-outside now key (starting id since) e = cc
  Sure-outside now key (sending id due left) e = cc
  Sure-outside now key (closing id since) e = cc

  pub Sure-Secured :
      {now : ℕ} {key : Option Lease} {id : LockId} (p : Phase)
      → Sure now key p
      → lock_id_of p ≡ some id
      → Secured key id now
  Sure-Secured idle s e = cc
  Sure-Secured (acquiring a deadline) s e = cc
  Sure-Secured {key} {id} (starting a since) (le, s) e =
      let same : a ≡ id = cc in rw (← same) (Secured-weaken (omega arith) s)
  Sure-Secured {key} {id} (sending a due left) (le, s) e =
      let same : a ≡ id = cc in rw (← same) (Secured-weaken (omega arith) s)
  Sure-Secured {key} {id} (closing a since) (le, s) e =
      let same : a ≡ id = cc in rw (← same) (Secured-weaken (omega arith) s)

module _ (names : ℕ → String) (lock_ttl pause late spares : ℕ) where
  pub record Inv (w : Wallet) : Type 0 where
    pub named : (i : ℕ) → IsNamed (names i) (w.at i)
    pub sure : (i : ℕ) → Sure lock_ttl pause late spares w.now w.key (w.at i)

  module _ (apart : (i j : ℕ) → names i ≡ names j → i ≡ j) where
    -- two managers with the lock are one
    pub one_holder :
        {w : Wallet} {a b : LockId} (inv : Inv w) (i j : ℕ)
        → lock_id_of (w.at i) ≡ some a
        → lock_id_of (w.at j) ≡ some b
        → i ≡ j
    one_holder {w} {a} {b} inv i j ha hb =
        let same =
          Secured-unique (Sure-Secured lock_ttl pause late spares (w.at i) (inv.sure i) ha)
            (Sure-Secured lock_ttl pause late spares (w.at j) (inv.sure j) hb) in
        apart i j (
          sym (id-IsNamed (names i) (w.at i) (inv.named i) ha)
          ∙ ap (λ (l : LockId). l.consumer_name) same
          ∙ id-IsNamed (names j) (w.at j) (inv.named j) hb)

    pub others_outside :
        {w : Wallet} {a : LockId} (inv : Inv w) (i : ℕ)
        → lock_id_of (w.at i) ≡ some a
        → (j : ℕ) → (i == j) ≡ false
        → lock_id_of (w.at j) ≡ none
    others_outside {w} inv i ha j ne = elim (Option-cases (lock_id_of (w.at j))) [
      | inl out ↦ out
      | inr (b, hb) ↦ absurd (ground (arith, one_holder inv i j ha hb))
    ]

    -- where no key is live, no manager has the lock
    pub none_inside :
        {w : Wallet} (inv : Inv w) → live w.now w.key ≡ none → (j : ℕ) → lock_id_of (w.at j) ≡ none
    none_inside {w} inv dead j = elim (Option-cases (lock_id_of (w.at j))) [
      | inl out ↦ out
      | inr (b, hb) ↦
          let s = Sure-Secured lock_ttl pause late spares (w.at j) (inv.sure j) hb in
          absurd (cc (Secured-live s, dead))
    ]
