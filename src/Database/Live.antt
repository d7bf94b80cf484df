-- ===== src/Database/Live.antt =====
-- The rows of `matches` that have not failed, under the flips of the resolutions.
use mathlib.Core.Path.{subst}
use settlement_engine.Prelude.{
  ◌≡◌, refl, sym, ap, ◌∙◌, inl, inr, Bool-cases, String, str_eq, eq_iff, Bool, true, false, ◌&&◌,
  List, [], ◌∷◌, arith, any, All, update_where, if◌then◌else◌,
}
use settlement_engine.Database.Tables.{
  MatchRow, SettlementStatus, pending, settled, failed, is_pending, is_pending_id, to_failed,
  to_settled,
}
use settlement_engine.Database.Resolution.{Resolution, write_back, quarantine, remediate, resolved}

abbrev pub not_failed : SettlementStatus → Bool
not_failed pending = true
not_failed settled = true
not_failed failed = false

abbrev pub is_live_id : String → MatchRow → Bool
is_live_id i r = str_eq r.id i && not_failed r.settlement_status

-- the primary key of `matches`
abbrev pub Keyed : List MatchRow → Type 0
Keyed [] = Unit {0}
Keyed (x ∷ rows) = All (λ (y : MatchRow). str_eq y.id x.id ≡ false) rows × Keyed rows

not_failed-pending : (s : SettlementStatus) → is_pending s ≡ true → not_failed s ≡ true
not_failed-pending pending h = refl
not_failed-pending settled h = refl
not_failed-pending failed h = cc

-- a row as the flip of a resolution leaves it
abbrev flip_row : Resolution → String → MatchRow → MatchRow
flip_row res i x = if is_pending_id i x then resolved res x else x

flip_row-id : (res : Resolution) (i : String) (x : MatchRow) → (flip_row res i x).id ≡ x.id
flip_row-id (write_back t) i x = ground arith
flip_row-id (quarantine t) i x = ground arith
flip_row-id remediate i x = ground arith

flip-fresh :
    (res : Resolution) (i k : String) (rows : List MatchRow)
    → All (λ (y : MatchRow). str_eq y.id k ≡ false) rows
    → All
        (λ (y : MatchRow). str_eq y.id k ≡ false)
        (update_where (is_pending_id i) (resolved res) rows)
flip-fresh res i k [] h = tt
flip-fresh res i k (x ∷ rows) h =
    (ap (λ j. str_eq j k) (flip_row-id res i x) ∙ h.0, flip-fresh res i k rows h.1)

pub flip-Keyed :
    (res : Resolution) (i : String) (rows : List MatchRow)
    → Keyed rows
    → Keyed (update_where (is_pending_id i) (resolved res) rows)
flip-Keyed res i [] h = tt
flip-Keyed res i (x ∷ rows) h = (
  subst
      (λ k.
        All (λ (y : MatchRow). str_eq y.id k ≡ false)
          (update_where (is_pending_id i) (resolved res) rows))
      (sym (flip_row-id res i x)) (flip-fresh res i x.id rows h.0),
  flip-Keyed res i rows h.1,
)

pub pending-live :
    (i : String) (rows : List MatchRow)
    → any (is_pending_id i) rows ≡ true
    → any (is_live_id i) rows ≡ true
pending-live i [] h = cc
pending-live i (x ∷ rows) h = elim (Bool-cases (is_pending x.settlement_status)) [
  | inl e ↦ ground (arith, e, h, not_failed-pending x.settlement_status e, pending-live i rows)
  | inr e ↦ ground (arith, e, h, pending-live i rows)
]

-- a row that is settled has not failed
pub settled-live :
    (t i j : String) (rows : List MatchRow)
    → any (is_live_id j) (update_where (is_pending_id i) (to_settled t) rows)
      ≡ any (is_live_id j) rows
settled-live t i j [] = refl
settled-live t i j (x ∷ rows) = elim (Bool-cases (is_pending x.settlement_status)) [
  | inl e ↦ ground (arith, e, not_failed-pending x.settlement_status e, settled-live t i j rows)
  | inr e ↦ ground (arith, e, settled-live t i j rows)
]

-- of the rows of other ids, those that live still do after a match has failed
pub failed-others :
    (reason i j : String) (rows : List MatchRow)
    → str_eq i j ≡ false
    → any (is_live_id j) (update_where (is_pending_id i) (to_failed reason) rows)
      ≡ any (is_live_id j) rows
failed-others reason i j [] ne = refl
failed-others reason i j (x ∷ rows) ne = elim (Bool-cases (str_eq x.id i)) [
  | inl e ↦
      let other : str_eq x.id j ≡ false =
        rw (ap (λ k. str_eq k j) ((eq_iff x.id i).0 e), ne) refl in
      ground (arith, other, failed-others reason i j rows ne)
  | inr e ↦ ground (arith, e, failed-others reason i j rows ne)
]

fresh-ended :
    (reason i : String) (rows : List MatchRow)
    → All (λ (y : MatchRow). str_eq y.id i ≡ false) rows
    → (any (is_pending_id i) rows ≡ false)
      × (any (is_live_id i) (update_where (is_pending_id i) (to_failed reason) rows) ≡ false)
fresh-ended reason i [] h = (refl, refl)
fresh-ended reason i (x ∷ rows) h =
    let r = fresh-ended reason i rows h.1 in (ground (arith, h.0, r.0), ground (arith, h.0, r.1))

pub failed-ended :
    (reason i : String) (rows : List MatchRow)
    → Keyed rows
    → any (is_pending_id i) rows ≡ true
    → any (is_live_id i) (update_where (is_pending_id i) (to_failed reason) rows) ≡ false
failed-ended reason i [] k h = refl
failed-ended reason i (x ∷ rows) k h = elim (Bool-cases (str_eq x.id i)) [
  | inl e ↦
      let r = fresh-ended reason i rows (
        subst (λ j. All (λ (y : MatchRow). str_eq y.id j ≡ false) rows) ((eq_iff x.id i).0 e)
          k.0) in
      ground (arith, e, h, r.0, r.1)
  | inr e ↦ ground (arith, e, h, failed-ended reason i rows k.1)
]
