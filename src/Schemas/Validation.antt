-- ===== src/Schemas/Validation.antt =====
-- `matchSchema.safeParse` of schemas/match.ts. `is_uuid` is Zod's test, a parameter.
pub mod Sound
use Prim.Native.Nat.{◌/◌}
use settlement_engine.Prelude.{
  ℕ, zero, suc, String, Codes, Bool, true, false, ◌&&◌, ◌||◌, Option, none, some, [], ◌∷◌, leb, ltb,
  ◌==◌, if◌then◌else◌, length,
}
use settlement_engine.Prelude.Text.{codes}
use settlement_engine.Schemas.{Match}
use settlement_engine.Schemas.Amount.{
  value_of, positive_uint256_string, non_negative_uint256_string,
}
use settlement_engine.Schemas.Value.{
  JsNumber, natural, other_number, Value, text, number, boolean, null_value, composite, Object, get,
}

-- `[a-fA-F0-9]`
abbrev pub is_hex_digit : ℕ → Bool
is_hex_digit c =
    (leb b'a' c && leb c b'f') || (leb b'A' c && leb c b'F') || (leb b'0' c && leb c b'9')

abbrev pub all_hex : Codes → Bool
all_hex [] = true
all_hex (c ∷ s) = is_hex_digit c && all_hex s

-- `^0x[a-fA-F0-9]{n}$`
abbrev pub is_hex_of : ℕ → Codes → Bool
is_hex_of n (z ∷ x ∷ s) = z == b'0' && x == b'x' && length s == n && all_hex s
is_hex_of n _ = false

unfoldable pub is_ethereum_address : String → Bool
unfolding codes
is_ethereum_address s = is_hex_of 40 (codes s)

unfoldable pub is_market_id : String → Bool
unfolding codes
is_market_id s = is_hex_of 64 (codes s)

infixl 10 ◌>>=◌
abbrev pub ◌>>=◌ : {A B : Type 0} → Option A → (A → Option B) → Option B
none >>= f = none
some a >>= f = f a

abbrev pub guarded : {A : Type 0} → Bool → A → Option A
guarded true a = some a
guarded false a = none

-- a key with a text that passes the test
abbrev pub text_field : (String → Bool) → Option Value → Option String
text_field p (some (text s)) = guarded (p s) s
text_field p _ = none

abbrev pub amount_field : (Codes → Bool) → Option Value → Option ℕ
amount_field p (some (text s)) = guarded (p (codes s)) (value_of (codes s))
amount_field p _ = none

-- `z.number().int()` with bounds from 0 on
abbrev pub natural_field : (ℕ → Bool) → Option Value → Option ℕ
natural_field p (some (number (natural n))) = guarded (p n) n
natural_field p _ = none

abbrev pub boolean_field : Option Value → Option Bool
boolean_field (some (boolean b)) = some b
boolean_field _ = none

-- `m > Math.floor(Date.now() / 1000)`, and positive
abbrev pub is_future : ℕ → ℕ → Bool
is_future now_ms m = ltb 0 m && ltb (now_ms / 1000) m

unfoldable pub match_schema : (String → Bool) → ℕ → Object → Option Match
unfolding codes get is_ethereum_address is_market_id positive_uint256_string
    non_negative_uint256_string
match_schema is_uuid now_ms o = do
  match_id ← text_field is_uuid (get "matchId" o)
  market_id ← text_field is_market_id (get "marketId" o)
  lend_order_id ← text_field is_uuid (get "lendOrderId" o)
  borrow_order_id ← text_field is_uuid (get "borrowOrderId" o)
  lender_wallet ← text_field is_ethereum_address (get "lenderWallet" o)
  borrower_wallet ← text_field is_ethereum_address (get "borrowerWallet" o)
  matched_amount ← amount_field positive_uint256_string (get "matchedAmount" o)
  rate ← natural_field (λ n. leb n 10000) (get "rate" o)
  loan_token ← text_field is_ethereum_address (get "loanToken" o)
  maturity ← natural_field (is_future now_ms) (get "maturity" o)
  timestamp ← natural_field (ltb 0) (get "timestamp" o)
  borrower_is_taker ← boolean_field (get "borrowerIsTaker" o)
  maker_fee_amount ← amount_field non_negative_uint256_string (get "makerFeeAmount" o)
  taker_fee_amount ← amount_field non_negative_uint256_string (get "takerFeeAmount" o)
  lender_fee ← amount_field non_negative_uint256_string (get "lenderSettlementFeeAmount" o)
  borrower_fee ← amount_field non_negative_uint256_string (get "borrowerSettlementFeeAmount" o)
  some (record {
    match_id = match_id;
    market_id = market_id;
    lend_order_id = lend_order_id;
    borrow_order_id = borrow_order_id;
    lender_wallet = lender_wallet;
    borrower_wallet = borrower_wallet;
    matched_amount = matched_amount;
    rate = rate;
    loan_token = loan_token;
    maturity = maturity;
    timestamp = timestamp;
    borrower_is_taker = borrower_is_taker;
    maker_fee_amount = maker_fee_amount;
    taker_fee_amount = taker_fee_amount;
    lender_settlement_fee_amount = lender_fee;
    borrower_settlement_fee_amount = borrower_fee;
  })
