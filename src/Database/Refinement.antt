-- ===== src/Database/Refinement.antt =====
-- Any sequence of resolutions, of any matches and with any failing queries, against a machine that knows
-- only the status of each match.
use mathlib.Core.Path.{subst}
use settlement_engine.Prelude.{
  ◌≤◌, ◌≡◌, refl, sym, ap, ◌∙◌, inl, inr, Bool-cases, branch, String, str_eq, eq_iff, Bool, true,
  false, ◌&&◌, ◌||◌, Option, List, [], ◌∷◌, map, arith, any, update_where, count_where,
  if◌then◌else◌,
}
use settlement_engine.Exec.{Result, ok, err}
use settlement_engine.Schemas.{Match}
use settlement_engine.Database.Tables.{
  Db, MatchRow, SettlementStatus, settled, failed, is_pending, is_pending_id,
}
use settlement_engine.Database.Connection.{PgError, Session}
use settlement_engine.Database.Effect.{AllOrNothing}
use settlement_engine.Database.Gate.{flipped, any-update_where}
use settlement_engine.Database.Resolution.{
  Resolution, write_back, quarantine, remediate, resolve, resolved, resolution_work,
  resolution_effect, resolution_keeps, resolve-AllOrNothing,
}

-- the abstract state: the id and the status of each match
abbrev pub Ledger : Type 0
Ledger = List (String × SettlementStatus)

abbrev pub waits : String → String × SettlementStatus → Bool
waits i (j, status) = str_eq j i && is_pending status

pub data Final : Type 0 where
  for_good for_bad : Final

abbrev pub status_of : Final → SettlementStatus
status_of for_good = settled
status_of for_bad = failed

-- a resolution as the machine sees it
pub data Event : Type 0 where
  becomes : Final → String → Event
  idle : Event

abbrev pub ends_as : Final → String × SettlementStatus → String × SettlementStatus
ends_as f (i, _) = (i, status_of f)

-- What the machine may do: a match that is pending becomes settled or failed, or nothing happens.
pub data Run : Ledger → List Event → Ledger → Type 0 where
  over : (l : Ledger) → Run l [] l
  rests : (l l' : Ledger) (es : List Event) → Run l es l' → Run l (idle ∷ es) l'
  moves :
      (f : Final) (i : String) (l l' : Ledger) (es : List Event)
      → any (waits i) l ≡ true
      → Run (update_where (waits i) (ends_as f) l) es l'
      → Run l (becomes f i ∷ es) l'

abbrev pub view : Db → Ledger
view d = map (λ r. (r.id, r.settlement_status)) d.matches

-- a call of one of the three, with the faults of its queries
pub record Attempt : Type 0 where
  pub resolution : Resolution
  pub match : Match
  pub faults : List (Option PgError)

abbrev pub final : Resolution → Final
final (write_back _) = for_good
final (quarantine _) = for_bad
final remediate = for_bad

abbrev pub reported : Resolution → String → Result PgError Bool → Event
reported res i (ok true) = becomes (final res) i
reported res i (ok false) = idle
reported res i (err e) = idle

abbrev pub attempt : Attempt → Db → Result PgError Bool × Session
attempt a d = resolve a.resolution a.match (record { db = d; faults = a.faults })

-- the calls one after the other, and what each reports
abbrev pub run_all : List Attempt → Db → List Event × Db
run_all [] d = ([], d)
run_all (a ∷ rest) d =
    let (r, s) = attempt a d in
    let (es, d') = run_all rest s.db in (reported a.resolution a.match.match_id r ∷ es, d')

abbrev row_view : MatchRow → String × SettlementStatus
row_view r = (r.id, r.settlement_status)

any-view :
    (i : String) (rows : List MatchRow)
    → any (waits i) (map row_view rows) ≡ any (is_pending_id i) rows
any-view i [] = refl
any-view i (r ∷ rows) =
    ap (λ b. (str_eq r.id i && is_pending r.settlement_status) || b) (any-view i rows)

view-resolved :
    (res : Resolution) (r : MatchRow) → row_view (resolved res r) ≡ ends_as (final res) (row_view r)
view-resolved (write_back t) r = refl
view-resolved (quarantine t) r = refl
view-resolved remediate r = refl

map-update :
    (res : Resolution) (i : String) (rows : List MatchRow)
    → map row_view (update_where (is_pending_id i) (resolved res) rows)
      ≡ update_where (waits i) (ends_as (final res)) (map row_view rows)
map-update res i [] = refl
map-update res i (r ∷ rows) =
    head (is_pending_id i r)
    ∙ ap (λ l. (if is_pending_id i r then ends_as (final res) (row_view r) else row_view r) ∷ l)
        (map-update res i rows)
  where
    head :
        (b : Bool)
        → row_view (if b then resolved res r else r)
            ∷ map row_view (update_where (is_pending_id i) (resolved res) rows)
          ≡ (if b then ends_as (final res) (row_view r) else row_view r)
            ∷ map row_view (update_where (is_pending_id i) (resolved res) rows)
    head true =
        ap (λ x. x ∷ map row_view (update_where (is_pending_id i) (resolved res) rows))
          (view-resolved res r)
    head false = refl

one_event :
    (res : Resolution) (m : Match) (d : Db) (o : Result PgError Bool × Session) (es : List Event)
    (l : Ledger)
    → AllOrNothing (resolution_effect res m) d o
    → Run (view o.1.db) es l
    → Run (view d) (reported res m.match_id o.0 ∷ es) l
one_event res m d (err e, s) es l h run = rests (view d) l es (subst (λ x. Run (view x) es l) h run)
one_event res m d (ok b, s) es l h run =
    subst Event_of (sym h)
      (branch Event_of (any (is_pending_id m.match_id) d.matches) _ _ acted left) run
  where
    work : Db
    work = resolution_work res m (flipped (is_pending_id m.match_id) (resolved res) d)

    Event_of : Bool × Db → Type 0
    Event_of (a, x) = Run (view x) es l → Run (view d) (reported res m.match_id (ok a) ∷ es) l

    acted : any (is_pending_id m.match_id) d.matches ≡ true → Event_of (true, work)
    acted e r = moves (final res) m.match_id (view d) l es (any-view m.match_id d.matches ∙ e) (
        subst (λ x. Run x es l)
          (ap (map row_view)
              (resolution_keeps res m (flipped (is_pending_id m.match_id) (resolved res) d))
            ∙ map-update res m.match_id d.matches)
          r)

    left : any (is_pending_id m.match_id) d.matches ≡ false → Event_of (false, d)
    left e r = rests (view d) l es r

-- Whatever resolutions are tried, of whatever matches, in whatever order and with whatever failing
-- queries: what they report, one after the other, is a run of the machine from the statuses before to
-- the statuses after.
pub resolutions_refine :
    (attempts : List Attempt) (d : Db)
    → Run (view d) (run_all attempts d).0 (view (run_all attempts d).1)
resolutions_refine [] d = over (view d)
resolutions_refine (a ∷ rest) d =
    one_event a.resolution a.match d (attempt a d) (run_all rest (attempt a d).1.db).0
      (view (run_all rest (attempt a d).1.db).1)
      (resolve-AllOrNothing a.resolution a.match (record { db = d; faults = a.faults }))
      (resolutions_refine rest (attempt a d).1.db)

abbrev pub concerns : String → Event → Bool
concerns i (becomes f j) = str_eq j i
concerns i idle = false

moved-none :
    (f : Final) (i : String) (l : Ledger)
    → any (waits i) (update_where (waits i) (ends_as f) l) ≡ false
moved-none f i l = any-update_where (waits i) (ends_as f) l (ended f)
  where
    ended : (f : Final) (x : String × SettlementStatus) → waits i (ends_as f x) ≡ false
    ended for_good (j, s) = ground arith
    ended for_bad (j, s) = ground arith

moved-fewer :
    (f : Final) (i j : String) (l : Ledger)
    → any (waits i) l ≡ false
    → any (waits i) (update_where (waits j) (ends_as f) l) ≡ false
moved-fewer f i j [] h = refl
moved-fewer for_good i j ((k, s) ∷ l) h = ground (arith, moved-fewer for_good i j l, h)
moved-fewer for_bad i j ((k, s) ∷ l) h = ground (arith, moved-fewer for_bad i j l, h)

-- a run has no event of a match that does not wait, and one at most of any match
none_left :
    (i : String) (l l' : Ledger) (es : List Event)
    → Run l es l'
    → any (waits i) l ≡ false
    → count_where (concerns i) es ≡ 0
none_left i _ _ _ (over l) h = refl
none_left i _ _ _ (rests l l' es r) h = omega (arith, none_left i l l' es r h)
none_left i _ _ _ (moves f j l l' es w r) h = elim (Bool-cases (str_eq j i)) [
  | inl e ↦
      let waiting : any (waits i) l ≡ true =
        subst (λ k. any (waits k) l ≡ true) ((eq_iff j i).0 e) w in
      absurd (ground (arith, waiting, h))
  | inr e ↦ rw e (
      omega
        (arith, none_left i (update_where (waits j) (ends_as f) l) l' es r (moved-fewer f i j l h)))
]

once_at_most :
    (i : String) (l l' : Ledger) (es : List Event) → Run l es l' → count_where (concerns i) es ≤ 1
once_at_most i _ _ _ (over l) = omega arith
once_at_most i _ _ _ (rests l l' es r) = omega (arith, once_at_most i l l' es r)
once_at_most i _ _ _ (moves f j l l' es w r) = elim (Bool-cases (str_eq j i)) [
  | inl e ↦
      let gone : any (waits i) (update_where (waits j) (ends_as f) l) ≡ false =
        subst (λ k. any (waits k) (update_where (waits j) (ends_as f) l) ≡ false) ((eq_iff j i).0 e)
          (moved-none f j l) in
      rw e (omega (arith, none_left i (update_where (waits j) (ends_as f) l) l' es r gone))
  | inr e ↦ rw e (omega (arith, once_at_most i (update_where (waits j) (ends_as f) l) l' es r))
]

-- Among any number of resolutions, of any matches and with any failing queries, one at most reports that
-- it has acted on a match.
pub resolved_once_ever :
    (i : String) (attempts : List Attempt) (d : Db)
    → count_where (concerns i) (run_all attempts d).0 ≤ 1
resolved_once_ever i attempts d =
    once_at_most i (view d) (view (run_all attempts d).1) (run_all attempts d).0
      (resolutions_refine attempts d)
