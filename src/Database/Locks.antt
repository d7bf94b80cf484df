-- ===== src/Database/Locks.antt =====
-- The lock of a match on `user_balance.in_orders`: the two ordered updates of a release, as one pass
-- over the table.
use mathlib.Core.Path.{fun_ext, subst}
use settlement_engine.Prelude.{
  ℕ, ◌+◌, ◌-◌, ◌≡◌, refl, ap, Bool, true, false, List, [], ◌∷◌, map, arith, update_where,
  if◌then◌else◌, inl, inr, Bool-cases, codes_lt, to_lower_case,
}
use settlement_engine.Database.Tables.{
  Db, BalanceRow, decode_address, is_balance_of, released, release_in_orders,
}
use settlement_engine.Database.Connection.{Pg}
use settlement_engine.Database.Effect.{Does, Does-query, Does-pure, Does-bind}
use settlement_engine.Database.LockRelease.{Release, run_releases, ordered}

-- what a release takes from a row
abbrev pub share_of : Release → BalanceRow → ℕ
share_of x r =
    if is_balance_of (decode_address x.wallet) (decode_address x.asset) r then x.amount else 0

-- a row after both releases
abbrev pub unlocked : Release → Release → BalanceRow → BalanceRow
unlocked l b r = record r { in_orders = r.in_orders - (share_of l r + share_of b r) }

abbrev pub unlock_both : Release → Release → Db → Db
unlock_both l b d = record d { user_balance = map (unlocked l b) d.user_balance }

abbrev release_all : List Release → Db → Db
release_all [] d = d
release_all (r ∷ rest) d = release_all rest (release_in_orders r.wallet r.asset r.amount d)

Does-run_releases : (rs : List Release) → Does (run_releases rs) (λ d. (tt, release_all rs d))
Does-run_releases [] = Does-pure tt
Does-run_releases (r ∷ rest) = Does-bind (Does-query _) (λ _. Does-run_releases rest)

abbrev balance_pass : Release → List BalanceRow → List BalanceRow
balance_pass x =
    update_where (is_balance_of (decode_address x.wallet) (decode_address x.asset))
      (released x.amount)

two_passes :
    (l b : Release) (rows : List BalanceRow)
    → balance_pass b (balance_pass l rows) ≡ map (unlocked l b) rows
two_passes l b [] = refl
two_passes l b (r ∷ rows) = ground (arith, two_passes l b rows)

two_passes_flipped :
    (l b : Release) (rows : List BalanceRow)
    → balance_pass l (balance_pass b rows) ≡ map (unlocked l b) rows
two_passes_flipped l b [] = refl
two_passes_flipped l b (r ∷ rows) = ground (arith, two_passes_flipped l b rows)

-- The order of the two updates does not show in the result.
release_ordered : (l b : Release) (d : Db) → release_all (ordered l b) d ≡ unlock_both l b d
release_ordered l b d =
    elim (Bool-cases (codes_lt (to_lower_case l.wallet) (to_lower_case b.wallet))) [
      | inl e ↦ rw e (rw (two_passes l b d.user_balance))
      | inr e ↦ rw e (rw (two_passes_flipped l b d.user_balance))
    ]

pub Does-ordered :
    (l b : Release) → Does (run_releases (ordered l b)) (λ d. (tt, unlock_both l b d))
Does-ordered l b =
    subst (λ f. Does (run_releases (ordered l b)) f)
      (fun_ext (λ d. ap (λ (x : Db). (tt, x)) (release_ordered l b d)))
      (Does-run_releases (ordered l b))

module _ {A : Type 0} where
  pub Does-if :
      (b : Bool) {m n : Pg A} {f g : Db → A × Db}
      → Does m f
      → Does n g
      → Does (if b then m else n) (λ d. if b then f d else g d)
  Does-if true hm hn = hm
  Does-if false hm hn = hn

  -- a chain whose effect is known under another description
  pub Does-as : {m : Pg A} {f g : Db → A × Db} → Does m f → ((d : Db) → f d ≡ g d) → Does m g
  Does-as {m} h e = subst (λ x. Does m x) (fun_ext e) h
