-- ===== src/Database/Backing.antt =====
-- The locks on `in_orders` over a sequence of resolutions: what the pending matches hold of each row.
use mathlib.Core.Path.{subst}
use settlement_engine.Prelude.{
  ℕ, ◌+◌, ◌≡◌, refl, sym, ap, inl, inr, Bool-cases, String, Codes, str_eq, eq_iff, Bool, true,
  false, List, [], ◌∷◌, map, arith, any, All, update_where,
}
use settlement_engine.Schemas.{Match}
use settlement_engine.Database.Tables.{Db, MatchRow, BalanceRow, is_pending_id}
use settlement_engine.Database.OrderFailure.{lender_unlock, borrower_unlock}
use settlement_engine.Database.Locks.{unlocked}
use settlement_engine.Database.Gate.{flipped, any-update_where}
use settlement_engine.Database.Resolution.{
  Resolution, resolved, resolution_work, resolution_effect, resolution_keeps, resolve-keeps,
  resolved_ends,
}
use settlement_engine.Database.Book.{sum_of, Unrepeated, Among, sum_of-ended}
use settlement_engine.Database.Conservation.{held, work-balances}
use settlement_engine.Database.Refinement.{Attempt, attempt, run_all}

abbrev pub is_waiting : Db → String → Bool
is_waiting d i = any (is_pending_id i) d.matches

abbrev pub RowsBacked :
    List Match → (Codes → Codes → ℕ) → (String → Bool) → List BalanceRow → Type 0
RowsBacked book other waits =
    All (λ r. r.in_orders ≡ sum_of held waits book r + other r.user_address r.asset)

-- each row has exactly what the pending matches of the book hold of it, with `other` held for the rest
abbrev pub Backed : List Match → (Codes → Codes → ℕ) → Db → Type 0
Backed book other d = RowsBacked book other (is_waiting d) d.user_balance

-- one match of the book has ceased to wait
module _ (before after : String → Bool) (m : Match)
    (agree : (j : String) → str_eq m.match_id j ≡ false → after j ≡ before j)
    (waited : before m.match_id ≡ true) (ended : after m.match_id ≡ false) where
  held_by-unlocked :
      (r : BalanceRow) (book : List Match)
      → sum_of held after book (unlocked (lender_unlock m) (borrower_unlock m) r)
        ≡ sum_of held after book r
  held_by-unlocked r [] = refl
  held_by-unlocked r (x ∷ book) = rw (held_by-unlocked r book) refl

  unlocked-RowsBacked :
      (book : List Match) (other : Codes → Codes → ℕ)
      → Unrepeated book
      → Among book m
      → (rows : List BalanceRow) → RowsBacked book other before rows
      → RowsBacked book other after (map (unlocked (lender_unlock m) (borrower_unlock m)) rows)
  unlocked-RowsBacked book other u n [] h = tt
  unlocked-RowsBacked book other u n (r ∷ rows) h = (
    rw (held_by-unlocked r book)
        (omega (arith, sum_of-ended held before after m agree waited ended r book u n, h.0)),
    unlocked-RowsBacked book other u n rows h.1,
  )

resolved-waiting :
    (res : Resolution) (i j : String) (x : MatchRow)
    → str_eq i j ≡ false
    → str_eq x.id i ≡ true
    → (is_pending_id j (resolved res x) ≡ false) × (is_pending_id j x ≡ false)
resolved-waiting res i j x ne e =
    (resolved_ends res j x, rw (ap (λ k. str_eq k j) ((eq_iff x.id i).0 e), ne) refl)

others-waiting :
    (res : Resolution) (i j : String) (rows : List MatchRow)
    → str_eq i j ≡ false
    → any (is_pending_id j) (update_where (is_pending_id i) (resolved res) rows)
      ≡ any (is_pending_id j) rows
others-waiting res i j [] ne = refl
others-waiting res i j (x ∷ rows) ne = elim (Bool-cases (str_eq x.id i)) [
  | inl e ↦
      let p = resolved-waiting res i j x ne e in
      ground (arith, p.0, p.1, others-waiting res i j rows ne)
  | inr e ↦ ground (arith, e, others-waiting res i j rows ne)
]

module _ (book : List Match) (other : Codes → Codes → ℕ) (unrepeated : Unrepeated book) where
  effect-Backed :
      (res : Resolution) (m : Match) (d : Db)
      → Among book m
      → Backed book other d
      → Backed book other (resolution_effect res m d).1
  effect-Backed res m d n h = elim (Bool-cases (is_waiting d m.match_id)) [
    | inl e ↦
        let gone =
          any-update_where (is_pending_id m.match_id) (resolved res) d.matches
            (resolved_ends res m.match_id) in
        let left = flipped (is_pending_id m.match_id) (resolved res) d in
        let work = resolution_work res m left in
        rw e (
          subst (λ l. RowsBacked book other (λ i. any (is_pending_id i) l) work.user_balance)
            (sym (resolution_keeps res m left))
            (subst (RowsBacked book other (is_waiting left)) (sym (work-balances res m left)) (
              unlocked-RowsBacked (is_waiting d) (is_waiting left) m
                (λ j ne. others-waiting res m.match_id j d.matches ne) e gone book other unrepeated
                n d.user_balance h)))
    | inr e ↦ rw e h
  ]

  -- Where every row holds what the pending matches of a book without repeated ids hold of it, next to what
  -- is held for the rest, it does so after any resolutions of matches of the book, in any order and
  -- whatever queries fail.
  pub run_all-Backed :
      (attempts : List Attempt) (d : Db)
      → All (λ a. Among book a.match) attempts
      → Backed book other d
      → Backed book other (run_all attempts d).1
  run_all-Backed [] d among h = h
  run_all-Backed (a ∷ rest) d among h = run_all-Backed rest (attempt a d).1.db among.1 (
      resolve-keeps (Backed book other) a.resolution a.match (record { db = d; faults = a.faults })
        h (effect-Backed a.resolution a.match d among.0 h))
