-- ===== src/Database/Gate.antt =====
-- The idempotency gate that the transactions share: a conditional flip of the match's rows, and the
-- work that is done only where the flip has reported a row.
use settlement_engine.Prelude.{
  ◌≡◌, refl, Bool, true, false, List, [], ◌∷◌, arith, update_where, count_where, any, not, ◌==◌,
  if◌then◌else◌, inl, inr, Bool-cases,
}
use settlement_engine.Exec.{pure, ◌>>=◌}
use settlement_engine.Database.Tables.{Db, MatchRow}
use settlement_engine.Database.Connection.{Pg, query}
use settlement_engine.Database.Effect.{Does, Does-query, Does-pure, Does-bind}
use settlement_engine.Database.Locks.{Does-if, Does-as}

module _ {R : Type 0} (p : R → Bool) where
  pub count-eq-zero : (l : List R) → (count_where p l == 0) ≡ not (any p l)
  count-eq-zero [] = refl
  count-eq-zero (x ∷ xs) = ground (arith, count-eq-zero xs)

  pub update_where-none : (f : R → R) (l : List R) → any p l ≡ false → update_where p f l ≡ l
  update_where-none f [] h = refl
  update_where-none f (x ∷ xs) h = ground (arith, update_where-none f xs)

  -- after an update that ends the condition, no row meets it
  pub any-update_where :
      (f : R → R) (l : List R) → ((x : R) → p (f x) ≡ false) → any p (update_where p f l) ≡ false
  any-update_where f [] h = refl
  any-update_where f (x ∷ xs) h = ground (arith, any-update_where f xs h, h x)

module _ (p : MatchRow → Bool) (f : MatchRow → MatchRow) where
  abbrev pub flipped : Db → Db
  flipped d = record d { matches = update_where p f d.matches }

  -- `work` on the flipped table where a row meets the condition, and else nothing
  abbrev pub gated_effect : (Db → Db) → Db → Bool × Db
  gated_effect work d = if any p d.matches then (true, work (flipped d)) else (false, d)

  pub Does-gated :
      {m : Pg Bool} (work : Db → Db)
      → Does m (λ d. (true, work d))
      → Does
          (query (λ d. (count_where p d.matches, flipped d)) >>= λ n.
            if n == 0 then pure false else m)
          (gated_effect work)
  Does-gated work h =
      Does-as (Does-bind (Does-query _) λ n. Does-if (n == 0) (Does-pure false) h) same
    where
      same :
          (d : Db)
          → (if count_where p d.matches == 0 then (false, flipped d) else (true, work (flipped d)))
            ≡ gated_effect work d
      same d = elim (Bool-cases (any p d.matches)) [
        | inl e ↦ rw (count-eq-zero p d.matches, e)
        | inr e ↦ rw (count-eq-zero p d.matches, e, update_where-none p f d.matches e)
      ]

  pub gated_done :
      (work : Db → Db) (d d' : Db) → (true, d') ≡ gated_effect work d → d' ≡ work (flipped d)
  gated_done work d d' h = elim (Bool-cases (any p d.matches)) [
    | inl e ↦ cc (e, h)
    | inr e ↦ cc (e, h)
  ]

-- A gated transaction that has done its work does nothing the next time, whatever fails.
module _ (p : MatchRow → Bool) (f : MatchRow → MatchRow)
    (ends : (x : MatchRow) → p (f x) ≡ false) where
  pub gated_once :
      (work : Db → Db)
      → ((d : Db) → (work d).matches ≡ d.matches)
      → (d d' : Db) → (true, d') ≡ gated_effect p f work d
      → any p d'.matches ≡ false
  gated_once work keeps d d' h = elim (Bool-cases (any p d.matches)) [
    | inl e ↦
        (let moved : d' ≡ work (flipped p f d) = cc (e, h) in
          rw (moved, keeps (flipped p f d)) (any-update_where p f d.matches ends))
    | inr e ↦ cc (e, h)
  ]
