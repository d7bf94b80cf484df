-- ===== src/Nonce/Issue.antt =====
-- What the manager guarantees about the nonce that it issues.
use mathlib.Core.Path.{subst}
use settlement_engine.Prelude.{
  ℕ, zero, suc, take, ◌≡◌, refl, sym, ap, String, Bool, true, false, Option, none, some, List, [],
  ◌∷◌, ◌⊎◌, any, inl, inr,
}
use settlement_engine.Prelude.Int.{ℤ, succ_ℤ}
use settlement_engine.Exec.{Result, ok, err, continue, ◌>>=◌, ◌>>◌}
use settlement_engine.Contract.Errors.{Thrown}
use settlement_engine.Nonce.{
  NonceManager, Managed, or_zero, reset_from, reset_from_chain, try_lock, acquire_lock,
  clear_and_reset, retry_reset, recover_pending, read_nonce, issue, acquire_nonce, Lapse, lasts,
  expires, passes, elapse_from, elapse,
}

abbrev pub is_lapse : Lapse → Bool
is_lapse lasts = false
is_lapse expires = true
is_lapse (passes _ _ _) = true

abbrev OnOk : {A : Type 0} → (A → NonceManager → Type 0) → Result Thrown A × NonceManager → Type 0
OnOk P (ok a, n) = P a n
OnOk P (err e, n) = Unit

module _ {A B : Type 0} where
  OnOk-bind :
      (P : A → NonceManager → Type 0) (Q : B → NonceManager → Type 0) (f : A → Managed B)
      → ((a : A) (n : NonceManager) → P a n → OnOk Q (f a n))
      → (r : Result Thrown A × NonceManager) → OnOk P r
      → OnOk Q (continue r.0 f r.1)
  OnOk-bind P Q f step (ok a, n) h = step a n h
  OnOk-bind P Q f step (err e, n) h = tt

no_lapse : (k : ℕ) → any is_lapse (take k []) ≡ false
no_lapse zero = refl
no_lapse (suc k) = refl

-- `Gone` says that the lock has lapsed.
module _ (id : String) (Gone : Type 0) where
  -- The state between `acquireLock` and the issue: the manager has its id, and the key holds it or is gone.
  -- `rounds` awaits are to come.
  record Holds (rounds : ℕ) (n : NonceManager) : Type 0 where
    key : (n.lock ≡ some id) ⊎ Gone
    own : n.lock_id ≡ some id
    more : any is_lapse (take rounds n.lapses) ≡ true → Gone

  try_lock-Holds :
      (k : ℕ) (tries : List (Option String)) (n : NonceManager)
      → (any is_lapse (take k n.lapses) ≡ true → Gone)
      → OnOk (λ _. Holds k) (try_lock id tries n)
  unfolding try_lock
  try_lock-Holds k [] n m = tt
  try_lock-Holds k (none ∷ rest) n m = record { key = inl refl; own = refl; more = m }
  try_lock-Holds k (some other ∷ rest) n m =
      try_lock-Holds k rest (record n { lock = some other }) m

  -- the nonce that was read is the stored one, or the lock is gone
  record Read (rounds : ℕ) (z : ℤ) (n : NonceManager) : Type 0 where
    held : Holds rounds n
    same : (z ≡ or_zero n.nonce) ⊎ Gone

  elapse-Holds :
      (k : ℕ) (l : List Lapse) (n : NonceManager)
      → Holds (suc k) (record n { lapses = l })
      → OnOk (λ _. Holds k) (elapse_from l (record n { lapses = l }))
  unfolding elapse_from
  elapse-Holds k [] n h = record {
    key = h.key;
    own = h.own;
    more = λ e. absurd (cc (no_lapse k, e));
  }
  elapse-Holds k (lasts ∷ rest) n h = record { key = h.key; own = h.own; more = h.more }
  elapse-Holds k (expires ∷ rest) n h = record {
    key = inr (h.more refl);
    own = h.own;
    more = λ _. h.more refl;
  }
  elapse-Holds k (passes o z p ∷ rest) n h = record {
    key = inr (h.more refl);
    own = h.own;
    more = λ _. h.more refl;
  }

  elapse-Read :
      (k : ℕ) (z : ℤ) (l : List Lapse) (n : NonceManager)
      → Read (suc k) z (record n { lapses = l })
      → OnOk (λ _. Read k z) (elapse_from l (record n { lapses = l }))
  unfolding elapse_from
  elapse-Read k z [] n h = record { held = elapse-Holds k [] n h.held; same = h.same }
  elapse-Read k z (lasts ∷ rest) n h = record {
    held = elapse-Holds k (lasts ∷ rest) n h.held;
    same = h.same;
  }
  elapse-Read k z (expires ∷ rest) n h = record {
    held = elapse-Holds k (expires ∷ rest) n h.held;
    same = h.same;
  }
  elapse-Read k z (passes o y p ∷ rest) n h = record {
    held = elapse-Holds k (passes o y p ∷ rest) n h.held;
    same = inr (h.held.more refl);
  }

  module _ {k : ℕ} where
    reset-Holds :
        (counts : List (Option ℕ)) (n : NonceManager) → Holds k n → Holds k (reset_from counts n).1
    unfolding reset_from
    reset-Holds [] n h = record { key = h.key; own = h.own; more = h.more }
    reset-Holds (none ∷ rest) n h = record { key = h.key; own = h.own; more = h.more }
    reset-Holds (some c ∷ rest) n h = record { key = h.key; own = h.own; more = h.more }

    clear-Holds : (n : NonceManager) → Holds k n → Holds k (clear_and_reset n).1
    unfolding reset_from_chain
    clear-Holds n h =
        reset-Holds n.counts (record n { pending_tx = none })
          (record { key = h.key; own = h.own; more = h.more })

    retry-Holds :
        (r : Result Thrown (Unit {0}) × NonceManager) → Holds k r.1 → Holds k (retry_reset r).1
    retry-Holds (ok _, n) h = h
    retry-Holds (err e, n) h = clear-Holds n h

    module _ (n : NonceManager) (h : Holds k n) where
      abbrev recovering : Option String → Bool → NonceManager
      recovering p l = record n { pending_tx = p; landed = l }

      held_recovering : (p : Option String) (l : Bool) → Holds k (recovering p l)
      held_recovering p l = record { key = h.key; own = h.own; more = h.more }

      recover_from-Holds :
          (p : Option String) (l : Bool) → Holds k (recover_pending (recovering p l)).1
      unfolding recover_pending
      recover_from-Holds none l = held_recovering none l
      recover_from-Holds (some x) false =
          clear-Holds (recovering (some x) false) (held_recovering (some x) false)
      recover_from-Holds (some x) true =
          retry-Holds (clear_and_reset (recovering (some x) true))
            (clear-Holds (recovering (some x) true) (held_recovering (some x) true))

      fetched-Read :
          (o : Option ℤ) (c : List (Option ℕ))
          → OnOk (Read k) (read_nonce (record n { nonce = o; counts = c }))
      unfolding read_nonce reset_from
      fetched-Read (some z) c = record {
        held = record { key = h.key; own = h.own; more = h.more };
        same = inl refl;
      }
      fetched-Read none [] = tt
      fetched-Read none (none ∷ c) = tt
      fetched-Read none (some k ∷ c) = record {
        held = record { key = h.key; own = h.own; more = h.more };
        same = inl refl;
      }

  -- What holds when a nonce has been issued.
  pub record Issued (z : ℤ) (n : NonceManager) : Type 0 where
    pub own : n.lock_id ≡ some id
    pub beats : n.heartbeat ≡ true
    pub key : (n.lock ≡ some id) ⊎ Gone
    pub next : (n.nonce ≡ some (succ_ℤ z)) ⊎ Gone

  stored_next :
      (z : ℤ) (n : NonceManager)
      → (z ≡ or_zero n.nonce) ⊎ Gone
      → (some (succ_ℤ (or_zero n.nonce)) ≡ some (succ_ℤ z)) ⊎ Gone
  stored_next z n (inl e) = inl (ap (λ x. some (succ_ℤ x)) (sym e))
  stored_next z n (inr g) = inr g

  issue-Issued : (z : ℤ) (n : NonceManager) → Read 0 z n → Issued z (issue z n).1
  issue-Issued z n h = record {
    own = h.held.own;
    beats = refl;
    key = h.held.key;
    next = stored_next z n h.same;
  }

  weaken :
      (k : ℕ) (r : Result Thrown (Unit {0}) × NonceManager) → Holds k r.1 → OnOk (λ _. Holds k) r
  weaken k (ok a, s) h = h
  weaken k (err e, s) h = tt

  read-Issued :
      (s : NonceManager) → Holds 1 s → OnOk Issued ((do z ← read_nonce; elapse; issue z) s)
  read-Issued s h =
      OnOk-bind (Read 1) Issued (λ z u. (do elapse; issue z) u)
        (λ z u r.
          OnOk-bind (λ _. Read 0 z) Issued (λ _ v. issue z v) (λ _ v q. issue-Issued z v q)
            (elapse u) (elapse-Read 0 z u.lapses u r))
        (read_nonce s) (fetched-Read s h s.nonce s.counts)

  elapsed-Issued :
      (s : NonceManager) → Holds 2 s → OnOk Issued ((do elapse; z ← read_nonce; elapse; issue z) s)
  elapsed-Issued s h =
      OnOk-bind (λ _. Holds 1) Issued (λ _ u. (do z ← read_nonce; elapse; issue z) u)
        (λ _ u k. read-Issued u k) (elapse s) (elapse-Holds 1 s.lapses s h)

  recovered-Issued :
      (s : NonceManager)
      → Holds 2 s
      → OnOk Issued ((do recover_pending; elapse; z ← read_nonce; elapse; issue z) s)
  recovered-Issued s h =
      OnOk-bind (λ _. Holds 2) Issued (λ _ u. (do elapse; z ← read_nonce; elapse; issue z) u)
        (λ _ u k. elapsed-Issued u k) (recover_pending s)
        (weaken 2 (recover_pending s) (recover_from-Holds s h s.pending_tx s.landed))

  acquire-Issued :
      (n : NonceManager)
      → (any is_lapse (take 3 n.lapses) ≡ true → Gone)
      → OnOk Issued (acquire_nonce id n)
  unfolding acquire_nonce
  acquire-Issued n m =
      OnOk-bind (λ _. Holds 3) Issued
        (λ _ s. (do elapse; recover_pending; elapse; z ← read_nonce; elapse; issue z) s)
        (λ _ s h.
          OnOk-bind (λ _. Holds 2) Issued
            (λ _ u. (do recover_pending; elapse; z ← read_nonce; elapse; issue z) u)
            (λ _ u k. recovered-Issued u k) (elapse s) (elapse-Holds 2 s.lapses s h))
        (acquire_lock id n) (try_lock-Holds 3 n.tries n m)

ok_of :
    {A : Type 0} (P : A → NonceManager → Type 0) (r : Result Thrown A × NonceManager) (a : A)
    → OnOk P r
    → r.0 ≡ ok a
    → P a r.1
ok_of P (ok b, n) a h e = let same : b ≡ a = cc e in subst (λ x. P x n) same h
ok_of P (err x, n) a h e = cc e

-- Whenever a nonce is issued, whatever a crashed run or the chain has left, the manager has its lock id and
-- its heartbeat runs; and the key holds that id and the stored nonce is the next one, or the key has
-- lapsed while `acquireNonce` awaited something, before the heartbeat runs.
pub acquire_nonce-issues :
    (id : String) (n : NonceManager) (z : ℤ)
    → (acquire_nonce id n).0 ≡ ok z
    → Issued id (any is_lapse (take 3 n.lapses) ≡ true) z (acquire_nonce id n).1
acquire_nonce-issues id n z =
    ok_of (Issued id (any is_lapse (take 3 n.lapses) ≡ true)) (acquire_nonce id n) z
      (acquire-Issued id (any is_lapse (take 3 n.lapses) ≡ true) n (λ e. e))
