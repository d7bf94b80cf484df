-- ===== src/Tests/Sweeps.antt =====
-- The theorems on the candidate query and on a sweep with its query, with rows ordered by insertion.
use mathlib.Core.Logic.{◌∨₁◌}
use mathlib.Core.List.{
  flat_map, Mem, Perm, Pairwise, Pairwise-singleton, mem-cons_self, mem-cons_of_mem,
  forall_mem-cons,
}
use mathlib.Core.List.Perm
use native.Mathlib.Bridge.{le_prop}
use settlement_engine.Prelude.{
  ℕ, ◌≤◌, ◌≡◌, refl, String, true, false, List, [], ◌∷◌, length, All, any, leb, arith, Bool-cases,
  inl, inr, if◌then◌else◌,
}
use settlement_engine.Database.Tables.{pending, is_pending_id}
use settlement_engine.Database.Effect.{calm}
use settlement_engine.Database.PendingSweep.{StuckMatch}
use settlement_engine.Database.StuckMatches.{
  MatchColumns, Account, Asset, Sources, stuck_match, find_stuck_pending_matches,
}
use settlement_engine.Database.StuckMatches.Oldest.{Older, OrdersByAge, IsStuck, finds_oldest}
use settlement_engine.Contract.Settled.{CallResult, success}
use settlement_engine.Sweeper.{sweep_overdue}
use settlement_engine.Sweeper.Overdue.{overdue_match_resolved}
use settlement_engine.Tests.Samples.{sample_db}

insert_older : StuckMatch → List StuckMatch → List StuckMatch
insert_older x [] = x ∷ []
insert_older x (y ∷ l) =
    let rest = insert_older x l in if leb x.created_at y.created_at then x ∷ y ∷ l else y ∷ rest

sort : List StuckMatch → List StuckMatch
sort [] = []
sort (x ∷ l) = insert_older x (sort l)

insert_older-perm : (x : StuckMatch) (l : List StuckMatch) → Perm (insert_older x l) (x ∷ l)
unfolding insert_older
insert_older-perm x [] = Perm.rfl
insert_older-perm x (y ∷ l) = elim (Bool-cases (leb x.created_at y.created_at)) [
  | inl e ↦ simp e Perm.rfl
  | inr e ↦ simp e (Perm.trans (Perm.cons y (insert_older-perm x l)) (Perm.swap x y l))
]

sort-perm : (l : List StuckMatch) → Perm (sort l) l
unfolding sort
sort-perm [] = Perm.rfl
sort-perm (x ∷ l) = Perm.trans (insert_older-perm x (sort l)) (Perm.cons x (sort-perm l))

insert_older-ascending :
    (x : StuckMatch) (l : List StuckMatch) → Pairwise Older l → Pairwise Older (insert_older x l)
unfolding insert_older
insert_older-ascending x [] h = Pairwise-singleton Older x
insert_older-ascending x (y ∷ l) (Pairwise.cons below h) =
    elim (Bool-cases (leb x.created_at y.created_at)) [
      | inl e ↦
          let le : Older x y = ground (arith, e) in
          simp e (
            Pairwise.cons
              ((forall_mem-cons (λ z. le_prop)).1
                (le, λ z m. let k : Older y z = below z m in omega (arith, le, k)))
              (Pairwise.cons below h))
      | inr e ↦
          let le : Older y x = ground (arith, e) in
          simp e (
            Pairwise.cons
              (λ z m.
                (forall_mem-cons (λ w. le_prop)).1 (le, below) z
                  ((Perm.mem_iff (insert_older-perm x l)).0 m))
              (insert_older-ascending x l h))
    ]

sort-ascending : (l : List StuckMatch) → Pairwise Older (sort l)
unfolding sort
sort-ascending [] = Pairwise.nil
sort-ascending (x ∷ l) = insert_older-ascending x (sort l) (sort-ascending l)

sorts : OrdersByAge sort
sorts = record { same = sort-perm; ascending = sort-ascending }

abbrev column : String → ℕ → MatchColumns
column i at = record {
  id = i;
  settlement_status = pending;
  created_at = at;
  lend_order_market_id = "lend";
  borrow_order_market_id = "borrow";
  lender_account_id = "lender";
  borrower_account_id = "borrower";
  asset_id = "usdc";
  match_amount = 100;
  lender_settlement_fee = 2;
  borrower_settlement_fee = 3;
  maker_fee = 4;
  taker_fee = 5;
  is_borrower_taker = true;
}

abbrev account : String → String → Account
account i w = record { id = i; user_wallet = w }

abbrev usdc : Asset
usdc = record { id = "usdc"; token_address = "0xcc" }

-- of the two matches, one has been PENDING for long enough
abbrev sources : Sources
sources = record {
  matches = column "m2" 9000 ∷ column "m1" 1000 ∷ [];
  accounts = account "lender" "0xaa" ∷ account "borrower" "0xbb" ∷ [];
  assets = usdc ∷ [];
}

abbrev overdue : StuckMatch
overdue = stuck_match (column "m1" 1000) (account "lender" "0xaa") (account "borrower" "0xbb") usdc

overdue-IsStuck : IsStuck 10000 5000 sources overdue
overdue-IsStuck = record {
  row = column "m1" 1000;
  lender = account "lender" "0xaa";
  borrower = account "borrower" "0xbb";
  asset = usdc;
  stored = mem-cons_of_mem (column "m2" 9000) mem-cons_self;
  unresolved = refl;
  overdue = omega arith;
  lender_stored = mem-cons_self;
  lends = refl;
  borrower_stored = mem-cons_of_mem (account "lender" "0xaa") mem-cons_self;
  borrows = refl;
  asset_stored = mem-cons_self;
  lent = refl;
  read = refl;
}

finds_oldest_example :
    let found = find_stuck_pending_matches sort 10000 5000 5 sources in
    Pairwise Older found
    × (length found ≤ 5)
    × All (λ c. ∥ IsStuck 10000 5000 sources c ∥₁) found
    × All (λ s. Mem s found ∨₁ ((length found ≡ 5) × All (λ c. Older c s) found)) (overdue ∷ [])
finds_oldest_example = finds_oldest sorts 10000 5000 5 sources (overdue ∷ []) (overdue-IsStuck, tt)

abbrev unsettled : String → CallResult
unsettled i = success false

overdue_match_resolved_example :
    let found = find_stuck_pending_matches sort 10000 5000 5 sources in
    (any
        (is_pending_id "m1")
        (sweep_overdue sort
          (λ s. s)
          unsettled
          10000
          5000
          5
          sources
          (calm (sample_db pending))).1.db.matches
      ≡ false)
    ∨₁ ((length found ≡ 5) × All (λ c. Older c overdue) found)
unfolding stuck_match
overdue_match_resolved_example =
    overdue_match_resolved sorts (λ s. s) unsettled 10000 5000 5 sources (sample_db pending) overdue
      overdue-IsStuck refl

-- the query finds the one match, and the sweep resolves it
found_one : find_stuck_pending_matches sort 10000 5000 5 sources ≡ overdue ∷ []
unfolding find_stuck_pending_matches sort insert_older stuck_match flat_map
found_one = refl
