-- ===== src/Nonce/Lost.antt =====
-- What a manager whose lock has passed to another instance does to it.
use settlement_engine.Prelude.{
  ℕ, ◌≡◌, String, false, Option, none, some, List, [], ◌∷◌, arith, str_eq, inl, inr, Bool-cases,
  includes, ◌||◌,
}
use settlement_engine.Exec.{Result, ok, err, continue, ◌>>◌}
use settlement_engine.Contract.Errors.{Thrown, message_of}
use settlement_engine.Nonce.{
  NonceManager, reset_from, release_lock, on_tx_confirmed, handle_failure, destroy, nonce_action,
  delete_pending, stop_lock_heartbeat,
}

module _ (id other : String) (ne : str_eq other id ≡ false) where
  record Lost (n : NonceManager) : Type 0 where
    own : n.lock_id ≡ some id
    key : n.lock ≡ some other

  release-Lost : (n : NonceManager) → Lost n → (release_lock n).1.lock ≡ some other
  unfolding release_lock
  release-Lost n h = ground arith

  reset-Lost : (counts : List (Option ℕ)) (n : NonceManager) → Lost n → Lost (reset_from counts n).1
  unfolding reset_from
  reset-Lost [] n h = record { own = h.own; key = h.key }
  reset-Lost (none ∷ rest) n h = record { own = h.own; key = h.key }
  reset-Lost (some c ∷ rest) n h = record { own = h.own; key = h.key }

  action-Lost : (m : String) (n : NonceManager) → Lost n → Lost (nonce_action m n).1
  unfolding nonce_action
  action-Lost m n h =
      elim (Bool-cases (includes m "nonce too low" || includes m "nonce has already been used")) [
        | inl a ↦ rw a (reset-Lost n.counts n h)
        | inr a ↦ rw a (elim (Bool-cases (includes m "already known")) [
          | inl b ↦ rw b h
          | inr b ↦ rw b (elim (Bool-cases (includes m "replacement transaction underpriced")) [
            | inl c ↦ rw c (record { own = h.own; key = h.key })
            | inr c ↦ rw c (record { own = h.own; key = h.key })
          ])
        ])
      ]

  released-Lost :
      (r : Result Thrown (Unit {0}) × NonceManager)
      → Lost r.1
      → (continue r.0 (λ _. do delete_pending; release_lock) r.1).1.lock ≡ some other
  released-Lost (ok _, n) h =
      release-Lost (record n { pending_tx = none }) (record { own = h.own; key = h.key })
  released-Lost (err e, n) h = h.key

-- A manager whose lock has passed to another instance, after its TTL ran out, leaves that instance's
-- lock alone: on a confirmation, on a failure and on shutdown.
pub foreign_lock_kept :
    (n : NonceManager) (id other : String) (e : Thrown)
    → n.lock_id ≡ some id
    → n.lock ≡ some other
    → str_eq other id ≡ false
    → ((on_tx_confirmed n).1.lock ≡ some other)
      × ((handle_failure e n).1.lock ≡ some other)
      × ((destroy n).1.lock ≡ some other)
unfolding on_tx_confirmed handle_failure destroy
foreign_lock_kept n id other e own key ne = (
  release-Lost id other ne (record n { heartbeat = false; pending_tx = none })
      (record { own = own; key = key }),
  released-Lost id other ne (nonce_action (message_of e) (stop_lock_heartbeat n)) (
      action-Lost id other ne (message_of e) (stop_lock_heartbeat n)
        (record { own = own; key = key })),
  release-Lost id other ne (stop_lock_heartbeat n) (record { own = own; key = key }),
)
