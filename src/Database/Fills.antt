-- ===== src/Database/Fills.antt =====
-- The filled quantity of the orders over a sequence of resolutions: what the matches that have not failed
-- fill of each order.
use mathlib.Core.Path.{subst, fun_ext}
use settlement_engine.Prelude.{
  ℕ, ◌+◌, ◌-◌, ◌≡◌, refl, sym, ap, inl, inr, Bool-cases, String, str_eq, Bool, true, false, List,
  [], ◌∷◌, map, arith, any, All, update_where, if◌then◌else◌,
}
use settlement_engine.Schemas.{Match}
use settlement_engine.Database.Tables.{
  Db, OrderRow, is_pending_id, order_has_id, restored, to_failed,
}
use settlement_engine.Database.Book.{sum_of, Unrepeated, Among, sum_of-ended}
use settlement_engine.Database.PendingSweep.{sweeper_failure_reason}
use settlement_engine.Database.Failure.{failure_work}
use settlement_engine.Database.Gate.{flipped}
use settlement_engine.Database.Live.{
  is_live_id, Keyed, flip-Keyed, pending-live, settled-live, failed-others, failed-ended,
}
use settlement_engine.Database.Resolution.{
  Resolution, write_back, quarantine, remediate, resolved, resolution_work, resolution_effect,
  resolve-keeps,
}
use settlement_engine.Database.Refinement.{Attempt, attempt, run_all}

-- what a match fills of the order with an id, as the lender's order and as the borrower's
abbrev pub fill : Match → String → ℕ
fill m i =
    (if str_eq i m.lend_order_id then m.matched_amount else 0)
    + (if str_eq i m.borrow_order_id then m.matched_amount else 0)

abbrev pub is_live : Db → String → Bool
is_live d i = any (is_live_id i) d.matches

abbrev pub RowsFilled : List Match → (String → ℕ) → (String → Bool) → List OrderRow → Type 0
RowsFilled book other lives =
    All (λ r. r.filled_quantity ≡ sum_of fill lives book r.id + other r.id)

-- each order is filled by exactly what the matches of the book that have not failed fill of it, with
-- `other` filled by the rest; no two rows have one id
abbrev pub Filled : List Match → (String → ℕ) → Db → Type 0
Filled book other d = Keyed d.matches × RowsFilled book other (is_live d) d.orders

-- a row after both restores
abbrev both_restored : Match → OrderRow → OrderRow
both_restored m r =
    let s =
      if order_has_id m.lend_order_id r
      then restored m.matched_amount m.lender_settlement_fee_amount r
      else r in
    if order_has_id m.borrow_order_id s
    then restored m.matched_amount m.borrower_settlement_fee_amount s
    else s

restored-map :
    (m : Match) (rows : List OrderRow)
    → update_where
        (order_has_id m.borrow_order_id)
        (restored m.matched_amount m.borrower_settlement_fee_amount)
        (update_where
          (order_has_id m.lend_order_id)
          (restored m.matched_amount m.lender_settlement_fee_amount)
          rows)
      ≡ map (both_restored m) rows
restored-map m [] = refl
restored-map m (r ∷ rows) = ap (λ l. both_restored m r ∷ l) (restored-map m rows)

both_restored-row :
    (m : Match) (r : OrderRow)
    → ((both_restored m r).id ≡ r.id)
      × ((both_restored m r).filled_quantity ≡ r.filled_quantity - fill m r.id)
both_restored-row m r = elim (Bool-cases (str_eq r.id m.lend_order_id)) [
  | inl e ↦ elim (Bool-cases (str_eq r.id m.borrow_order_id)) [
    | inl f ↦ (rw (e, f) refl, rw (e, f) (omega arith))
    | inr f ↦ (rw (e, f) refl, rw (e, f) (omega arith))
  ]
  | inr e ↦ elim (Bool-cases (str_eq r.id m.borrow_order_id)) [
    | inl f ↦ (rw (e, f) refl, rw (e, f) (omega arith))
    | inr f ↦ (rw (e, f) refl, rw (e, f) (omega arith))
  ]
]

-- one match of the book has failed
module _ (before after : String → Bool) (m : Match)
    (agree : (j : String) → str_eq m.match_id j ≡ false → after j ≡ before j)
    (lived : before m.match_id ≡ true) (ended : after m.match_id ≡ false) (book : List Match)
    (other : String → ℕ) (unrepeated : Unrepeated book) (n : Among book m) where
  restored-RowsFilled :
      (rows : List OrderRow)
      → RowsFilled book other before rows
      → RowsFilled book other after (map (both_restored m) rows)
  restored-RowsFilled [] h = tt
  restored-RowsFilled (r ∷ rows) h =
      let p = both_restored-row m r in
      let e = sum_of-ended fill before after m agree lived ended r.id book unrepeated n in
      (rw (p.0, p.1) (omega (arith, e, h.0)), restored-RowsFilled rows h.1)

module _ (book : List Match) (other : String → ℕ) (unrepeated : Unrepeated book) where
  failed-Filled :
      (reason : String) (m : Match) (d : Db)
      → Among book m
      → any (is_pending_id m.match_id) d.matches ≡ true
      → Filled book other d
      → Filled book other (failure_work m (flipped (is_pending_id m.match_id) (to_failed reason) d))
  failed-Filled reason m d n e h =
      let left = flipped (is_pending_id m.match_id) (to_failed reason) d in
      (
        flip-Keyed (quarantine reason) m.match_id d.matches h.0,
        subst (RowsFilled book other (is_live left)) (sym (restored-map m d.orders)) (
            restored-RowsFilled (is_live d) (is_live left) m
              (λ j ne. failed-others reason m.match_id j d.matches ne)
              (pending-live m.match_id d.matches e) (failed-ended reason m.match_id d.matches h.0 e)
              book other unrepeated n d.orders h.1),
      )

  work-Filled :
      (res : Resolution) (m : Match) (d : Db)
      → Among book m
      → any (is_pending_id m.match_id) d.matches ≡ true
      → Filled book other d
      → Filled book other
          (resolution_work res m (flipped (is_pending_id m.match_id) (resolved res) d))
  work-Filled (write_back t) m d n e h = (
    flip-Keyed (write_back t) m.match_id d.matches h.0,
    subst (λ lives. RowsFilled book other lives d.orders)
        (sym (fun_ext (λ j. settled-live t m.match_id j d.matches))) h.1,
  )
  work-Filled (quarantine reason) m d n e h = failed-Filled reason m d n e h
  work-Filled remediate m d n e h = failed-Filled sweeper_failure_reason m d n e h

  effect-Filled :
      (res : Resolution) (m : Match) (d : Db)
      → Among book m
      → Filled book other d
      → Filled book other (resolution_effect res m d).1
  effect-Filled res m d n h = elim (Bool-cases (any (is_pending_id m.match_id) d.matches)) [
    | inl e ↦ rw e (work-Filled res m d n e h)
    | inr e ↦ rw e h
  ]

  -- Where the ids of the matches are a key and every order is filled by exactly what those matches of a
  -- book that have not failed fill of it, next to what the rest fills, this is so after any resolutions of
  -- matches of the book, in any order and whatever queries fail. The book repeats no id.
  pub run_all-Filled :
      (attempts : List Attempt) (d : Db)
      → All (λ a. Among book a.match) attempts
      → Filled book other d
      → Filled book other (run_all attempts d).1
  run_all-Filled [] d among h = h
  run_all-Filled (a ∷ rest) d among h = run_all-Filled rest (attempt a d).1.db among.1 (
      resolve-keeps (Filled book other) a.resolution a.match (record { db = d; faults = a.faults })
        h (effect-Filled a.resolution a.match d among.0 h))
