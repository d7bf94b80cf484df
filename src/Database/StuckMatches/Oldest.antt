-- ===== src/Database/StuckMatches/Oldest.antt =====
-- What the candidate query returns.
use mathlib.Core.Logic.{◌∨₁◌, ∥∥₁_elim, ∥∥₁_map, ∥∥₁_prop}
use mathlib.Core.List.{Mem, Perm, Pairwise, exists_of_mem-map, mem-map_of_mem}
use mathlib.Core.List.Perm
use settlement_engine.Prelude.{
  ℕ, ◌+◌, ◌≤◌, ◌<◌, ◌≡◌, ◌↔◌, true, List, [], ◌∷◌, take, keep, length, All, eq_iff, ltb, arith,
  and_true,
}
use settlement_engine.Prelude.Members.{
  All-of_mem, length-take-le, mem-keep, keep-mem, take-mem, take-Pairwise, take-left_out,
  mem-flat_map, flat_map-mem,
}
use settlement_engine.Database.Tables.{SettlementStatus, pending, is_pending}
use settlement_engine.Database.PendingSweep.{StuckMatch}
use settlement_engine.Database.StuckMatches.{
  MatchColumns, Account, Asset, Sources, stuck_match, is_stuck, joined, stuck_rows,
  find_stuck_pending_matches,
}

abbrev pub Older : StuckMatch → StuckMatch → Type 0
Older a b = a.created_at ≤ b.created_at

-- what is documented of `ORDER BY created_at ASC`
pub record OrdersByAge (order_by : List StuckMatch → List StuckMatch) : Type 0 where
  pub same : (l : List StuckMatch) → Perm (order_by l) l
  pub ascending : (l : List StuckMatch) → Pairwise Older (order_by l)

-- the row of a match that is PENDING for longer than the threshold, with its two accounts and its asset
pub record IsStuck (now stuck_threshold_ms : ℕ) (t : Sources) (s : StuckMatch) : Type 0 where
  pub row : MatchColumns
  pub lender : Account
  pub borrower : Account
  pub asset : Asset
  pub stored : Mem row t.matches
  pub unresolved : row.settlement_status ≡ pending
  pub overdue : row.created_at + stuck_threshold_ms < now
  pub lender_stored : Mem lender t.accounts
  pub lends : lender.id ≡ row.lender_account_id
  pub borrower_stored : Mem borrower t.accounts
  pub borrows : borrower.id ≡ row.borrower_account_id
  pub asset_stored : Mem asset t.assets
  pub lent : asset.id ≡ row.asset_id
  pub read : stuck_match row lender borrower asset ≡ s

pending_iff : (x : SettlementStatus) → (is_pending x ≡ true) ↔ (x ≡ pending)
pending_iff x = ground arith

is_stuck_iff :
    (now threshold : ℕ) (m : MatchColumns)
    → (is_stuck now threshold m ≡ true)
      ↔ ((m.settlement_status ≡ pending) × (m.created_at + threshold < now))
is_stuck_iff now threshold m = (
  λ h.
      let p = and_true (is_pending m.settlement_status) (ltb (m.created_at + threshold) now) h in
      ((pending_iff m.settlement_status).0 p.0, ground (arith, p.1)),
  λ h. ground (arith, (pending_iff m.settlement_status).1 h.0, h.1),
)

module _ (now threshold : ℕ) (t : Sources) (s : StuckMatch) where
  joined-of :
      (m : MatchColumns)
      → Mem m t.matches
      → is_stuck now threshold m ≡ true
      → Mem s (joined t m)
      → ∥ IsStuck now threshold t s ∥₁
  unfolding joined
  joined-of m k e h = ∥∥₁_elim (flat_map-mem _ _ h) ∥∥₁_prop (λ (la, kl, hl).
      ∥∥₁_elim (flat_map-mem _ _ hl) ∥∥₁_prop (λ (ba, kb, hb).
        ∥∥₁_map (exists_of_mem-map hb) (λ (a, ka, ha).
          let l = keep-mem _ _ kl in
          let b = keep-mem _ _ kb in
          let c = keep-mem _ _ ka in
          let w = (is_stuck_iff now threshold m).0 e in
          record {
            row = m;
            lender = la;
            borrower = ba;
            asset = a;
            stored = k;
            unresolved = w.0;
            overdue = w.1;
            lender_stored = l.0;
            lends = (eq_iff _ _).0 l.1;
            borrower_stored = b.0;
            borrows = (eq_iff _ _).0 b.1;
            asset_stored = c.0;
            lent = (eq_iff _ _).0 c.1;
            read = ha;
          })))

  of-joined : IsStuck now threshold t s → Mem s (stuck_rows now threshold t)
  unfolding stuck_rows joined
  of-joined q =
      mem-flat_map (joined t) (keep (is_stuck now threshold) t.matches)
        (mem-keep _ t.matches q.stored
          ((is_stuck_iff now threshold q.row).1 (q.unresolved, q.overdue)))
        (mem-flat_map _ _ (mem-keep _ t.accounts q.lender_stored ((eq_iff _ _).1 q.lends)) (
          mem-flat_map _ _ (mem-keep _ t.accounts q.borrower_stored ((eq_iff _ _).1 q.borrows)) (
            rw (← q.read)
              (mem-map_of_mem _ (mem-keep _ t.assets q.asset_stored ((eq_iff _ _).1 q.lent))))))

  stuck_rows-mem : Mem s (stuck_rows now threshold t) → ∥ IsStuck now threshold t s ∥₁
  unfolding stuck_rows
  stuck_rows-mem h =
      ∥∥₁_elim (flat_map-mem (joined t) (keep (is_stuck now threshold) t.matches) h) ∥∥₁_prop
        (λ (m, k, h'). let r = keep-mem _ t.matches k in joined-of m r.0 r.1 h')

module _ {order_by : List StuckMatch → List StuckMatch} (sorts : OrdersByAge order_by)
    (now threshold limit : ℕ) (t : Sources) where
  abbrev found : List StuckMatch
  found = find_stuck_pending_matches order_by now threshold limit t

  -- the match is among the candidates, or they are as many as the limit and none is younger
  abbrev pub IsReached : StuckMatch → Type 0
  IsReached s = Mem s found ∨₁ ((length found ≡ limit) × All (λ c. Older c s) found)

  pub stuck-IsReached : (s : StuckMatch) → IsStuck now threshold t s → IsReached s
  unfolding find_stuck_pending_matches
  stuck-IsReached s q =
      let all = stuck_rows now threshold t in
      take-left_out Older limit (order_by all) (sorts.ascending all)
        ((Perm.mem_iff (sorts.same all)).1 (of-joined now threshold t s q))

  All-IsReached : (ss : List StuckMatch) → All (IsStuck now threshold t) ss → All IsReached ss
  All-IsReached [] q = tt
  All-IsReached (s ∷ ss) q = (stuck-IsReached s q.0, All-IsReached ss q.1)

  -- Where the database orders by age, the candidates come oldest first, at most as many as the limit; each
  -- is a match that has been PENDING for longer than the threshold, with the wallets of its accounts and
  -- the address of its asset. Of any such matches, of which there may be none, each is among the
  -- candidates, or the limit is reached and no candidate is younger than it.
  pub finds_oldest :
      (stuck : List StuckMatch)
      → All (IsStuck now threshold t) stuck
      → Pairwise Older (find_stuck_pending_matches order_by now threshold limit t)
        × (length (find_stuck_pending_matches order_by now threshold limit t) ≤ limit)
        × All
            (λ c. ∥ IsStuck now threshold t c ∥₁)
            (find_stuck_pending_matches order_by now threshold limit t)
        × All IsReached stuck
  unfolding find_stuck_pending_matches
  finds_oldest stuck q =
      let all = stuck_rows now threshold t in
      (
        take-Pairwise Older limit (order_by all) (sorts.ascending all),
        length-take-le limit (order_by all),
        All-of_mem (take limit (order_by all)) (λ c m.
            stuck_rows-mem now threshold t c
              ((Perm.mem_iff (sorts.same all)).0 (take-mem limit (order_by all) m))),
        All-IsReached stuck q,
      )
