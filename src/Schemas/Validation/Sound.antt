-- ===== src/Schemas/Validation/Sound.antt =====
-- What a match satisfies that the schema has accepted.
use Prim.Native.Nat.{◌/◌}
use mathlib.Core.Path.{subst}
use mathlib.Core.Option.{some-injective, none-ne-some}
use settlement_engine.Prelude.{
  ℕ, ◌≤◌, ◌<◌, ◌≡◌, refl, sym, ◌∙◌, inl, inr, Option-cases, String, Codes, Bool, true, false,
  Option, none, some, arith, leb, ltb,
}
use settlement_engine.Prelude.Text.{codes}
use settlement_engine.Schemas.{Match}
use settlement_engine.Schemas.Amount.{
  uint256_max, value_of, positive_uint256_string, non_negative_uint256_string,
}
use settlement_engine.Schemas.Amount.RoundTrip.{positive_bounds, non_negative_bounds}
use settlement_engine.Schemas.Value.{
  natural, other_number, Value, text, number, boolean, null_value, composite, Object, get,
}
use settlement_engine.Schemas.Validation.{
  is_ethereum_address, is_market_id, ◌>>=◌, guarded, text_field, amount_field, natural_field,
  boolean_field, is_future, match_schema,
}

pub record IsWellFormed (is_uuid : String → Bool) (now_ms : ℕ) (m : Match) : Type 0 where
  pub match_id : is_uuid m.match_id ≡ true
  pub market_id : is_market_id m.market_id ≡ true
  pub lend_order_id : is_uuid m.lend_order_id ≡ true
  pub borrow_order_id : is_uuid m.borrow_order_id ≡ true
  pub lender_wallet : is_ethereum_address m.lender_wallet ≡ true
  pub borrower_wallet : is_ethereum_address m.borrower_wallet ≡ true
  pub loan_token : is_ethereum_address m.loan_token ≡ true
  pub amount_positive : 0 < m.matched_amount
  pub amount_fits : m.matched_amount ≤ uint256_max
  pub rate_bound : m.rate ≤ 10000
  pub in_future : now_ms / 1000 < m.maturity
  pub timestamp_positive : 0 < m.timestamp
  pub maker_fee_fits : m.maker_fee_amount ≤ uint256_max
  pub taker_fee_fits : m.taker_fee_amount ≤ uint256_max
  pub lender_fee_fits : m.lender_settlement_fee_amount ≤ uint256_max
  pub borrower_fee_fits : m.borrower_settlement_fee_amount ≤ uint256_max

-- a result, if there is one, has the property
abbrev Meets : {A : Type 0} → (A → Type 0) → Option A → Type 0
Meets P none = Unit
Meets P (some a) = P a

text-Meets : (p : String → Bool) (v : Option Value) → Meets (λ s. p s ≡ true) (text_field p v)
text-Meets p none = tt
text-Meets p (some (text s)) = go (p s) refl
  where
    go : (b : Bool) → p s ≡ b → Meets (λ t. p t ≡ true) (guarded b s)
    go true e = e
    go false e = tt
text-Meets p (some (number n)) = tt
text-Meets p (some (boolean b)) = tt
text-Meets p (some null_value) = tt
text-Meets p (some (composite s)) = tt

amount-Meets :
    (p : Codes → Bool) (P : ℕ → Type 0)
    → ((s : Codes) → p s ≡ true → P (value_of s))
    → (v : Option Value) → Meets P (amount_field p v)
amount-Meets p P h none = tt
amount-Meets p P h (some (text s)) = go (p (codes s)) refl
  where
    go : (b : Bool) → p (codes s) ≡ b → Meets P (guarded b (value_of (codes s)))
    go true e = h (codes s) e
    go false e = tt
amount-Meets p P h (some (number n)) = tt
amount-Meets p P h (some (boolean b)) = tt
amount-Meets p P h (some null_value) = tt
amount-Meets p P h (some (composite s)) = tt

natural-Meets :
    (p : ℕ → Bool) (P : ℕ → Type 0)
    → ((n : ℕ) → p n ≡ true → P n)
    → (v : Option Value) → Meets P (natural_field p v)
natural-Meets p P h none = tt
natural-Meets p P h (some (text s)) = tt
natural-Meets p P h (some (number (natural n))) = go (p n) refl
  where
    go : (b : Bool) → p n ≡ b → Meets P (guarded b n)
    go true e = h n e
    go false e = tt
natural-Meets p P h (some (number other_number)) = tt
natural-Meets p P h (some (boolean b)) = tt
natural-Meets p P h (some null_value) = tt
natural-Meets p P h (some (composite s)) = tt

boolean-Meets : (v : Option Value) → Meets (λ _. Unit) (boolean_field v)
boolean-Meets none = tt
boolean-Meets (some (text s)) = tt
boolean-Meets (some (number n)) = tt
boolean-Meets (some (boolean b)) = tt
boolean-Meets (some null_value) = tt
boolean-Meets (some (composite s)) = tt

-- a chain that gives a result had one at its first step
bind_some :
    {A B : Type 0} {R : Type 0} (P : A → Type 0) (o : Option A) (k : A → Option B) (b : B)
    → o >>= k ≡ some b
    → Meets P o
    → ((a : A) → P a → k a ≡ some b → R)
    → R
bind_some P (some a) k b e h use_it = use_it a h e
bind_some P none k b e h use_it = elim (none-ne-some b e) [ ]

module _ {B : Type 0} {R : Type 0} (b : B) where
  text_some :
      (p : String → Bool) (v : Option Value) (k : String → Option B)
      → text_field p v >>= k ≡ some b
      → ((s : String) → p s ≡ true → k s ≡ some b → R)
      → R
  text_some p v k e = bind_some (λ s. p s ≡ true) (text_field p v) k b e (text-Meets p v)

  natural_some :
      (p : ℕ → Bool) (v : Option Value) (k : ℕ → Option B)
      → natural_field p v >>= k ≡ some b
      → ((n : ℕ) → p n ≡ true → k n ≡ some b → R)
      → R
  natural_some p v k e =
      bind_some (λ n. p n ≡ true) (natural_field p v) k b e
        (natural-Meets p (λ n. p n ≡ true) (λ n h. h) v)

  positive_some :
      (v : Option Value) (k : ℕ → Option B)
      → amount_field positive_uint256_string v >>= k ≡ some b
      → ((n : ℕ) → (0 < n) × (n ≤ uint256_max) → k n ≡ some b → R)
      → R
  positive_some v k e =
      bind_some (λ n. (0 < n) × (n ≤ uint256_max)) (amount_field positive_uint256_string v) k b e
        (amount-Meets positive_uint256_string (λ n. (0 < n) × (n ≤ uint256_max)) positive_bounds v)

  fee_some :
      (v : Option Value) (k : ℕ → Option B)
      → amount_field non_negative_uint256_string v >>= k ≡ some b
      → ((n : ℕ) → n ≤ uint256_max → k n ≡ some b → R)
      → R
  fee_some v k e =
      bind_some (λ n. n ≤ uint256_max) (amount_field non_negative_uint256_string v) k b e
        (amount-Meets non_negative_uint256_string (λ n. n ≤ uint256_max) non_negative_bounds v)

  boolean_some :
      (v : Option Value) (k : Bool → Option B)
      → boolean_field v >>= k ≡ some b
      → ((t : Bool) → Unit {0} → k t ≡ some b → R)
      → R
  boolean_some v k e = bind_some (λ t. Unit) (boolean_field v) k b e (boolean-Meets v)

stuck_step : {A B : Type 0} {o : Option A} (k : A → Option B) → o ≡ none → o >>= k ≡ none
stuck_step k e = rw e refl

-- there is no match without a rate that is a number
pub rate_needed :
    (is_uuid : String → Bool) (now_ms : ℕ) (o : Object)
    → natural_field (λ n. leb n 10000) (get "rate" o) ≡ none
    → match_schema is_uuid now_ms o ≡ none
unfolding match_schema
rate_needed is_uuid now_ms o h = elim (Option-cases (match_schema is_uuid now_ms o)) [
  | inl e ↦ e
  | inr (m, e) ↦ text_some m is_uuid (get "matchId" o) _ e λ i hi ei.
      text_some m is_market_id (get "marketId" o) _ ei λ g hg eg.
        text_some m is_uuid (get "lendOrderId" o) _ eg λ l hl el.
          text_some m is_uuid (get "borrowOrderId" o) _ el λ b hb eb.
            text_some m is_ethereum_address (get "lenderWallet" o) _ eb λ lw hlw elw.
              text_some m is_ethereum_address (get "borrowerWallet" o) _ elw λ bw hbw ebw.
                positive_some m (get "matchedAmount" o) _ ebw
                  λ a ha ea. absurd (none-ne-some m (sym (stuck_step _ h) ∙ ea))
]

-- A match that the schema accepts has: ids that are UUIDs, a market id of 64 hexadecimal digits, wallets
-- and loan token of 40, an amount from 1 to 2^256 - 1, fees up to 2^256 - 1, a rate up to 10000, a
-- maturity after the second that now is in, and a positive timestamp.
pub match_schema-IsWellFormed :
    (is_uuid : String → Bool) (now_ms : ℕ) (o : Object) (m : Match)
    → match_schema is_uuid now_ms o ≡ some m
    → IsWellFormed is_uuid now_ms m
unfolding match_schema
match_schema-IsWellFormed is_uuid now_ms o m e =
    text_some m is_uuid (get "matchId" o) _ e λ i hi ei.
      text_some m is_market_id (get "marketId" o) _ ei λ g hg eg.
        text_some m is_uuid (get "lendOrderId" o) _ eg λ l hl el.
          text_some m is_uuid (get "borrowOrderId" o) _ el λ b hb eb.
            text_some m is_ethereum_address (get "lenderWallet" o) _ eb λ lw hlw elw.
              text_some m is_ethereum_address (get "borrowerWallet" o) _ elw λ bw hbw ebw.
                positive_some m (get "matchedAmount" o) _ ebw λ a ha ea.
                  natural_some m (λ n. leb n 10000) (get "rate" o) _ ea
                    λ r hr er. text_some m is_ethereum_address (get "loanToken" o) _ er λ t ht et.
                      natural_some m (is_future now_ms) (get "maturity" o) _ et λ y hy ey.
                        natural_some m (ltb 0) (get "timestamp" o) _ ey λ ts hts ets.
                          boolean_some m (get "borrowerIsTaker" o) _ ets λ k hk ek.
                            fee_some m (get "makerFeeAmount" o) _ ek λ mf hmf emf.
                              fee_some m (get "takerFeeAmount" o) _ emf λ tf htf etf.
                                fee_some m (get "lenderSettlementFeeAmount" o) _ etf λ lf hlf elf.
                                  fee_some m (get "borrowerSettlementFeeAmount" o) _ elf
                                    λ bf hbf ebf.
                                      subst (IsWellFormed is_uuid now_ms) (some-injective _ _ ebf)
                                        (record {
                                          match_id = hi;
                                          market_id = hg;
                                          lend_order_id = hl;
                                          borrow_order_id = hb;
                                          lender_wallet = hlw;
                                          borrower_wallet = hbw;
                                          loan_token = ht;
                                          amount_positive = ha.0;
                                          amount_fits = ha.1;
                                          rate_bound = ground (arith, hr);
                                          in_future = ground (arith, hy);
                                          timestamp_positive = ground (arith, hts);
                                          maker_fee_fits = hmf;
                                          taker_fee_fits = htf;
                                          lender_fee_fits = hlf;
                                          borrower_fee_fits = hbf;
                                        })
