-- ===== src/Consumer/Parse.antt =====
-- The two forms of a stream entry, the fields of the match one by one and all of them in `data`: what each
-- is parsed into.
use Prim.Native.Nat.{◌/◌}
use settlement_engine.Prelude.{
  ℕ, ◌≤◌, ◌<◌, ◌≡◌, refl, sym, ap, ◌∙◌, String, str_eq, Bool, true, false, not, ◌&&◌, Bool-cases,
  inl, inr, Option, none, some, All, List, [], ◌∷◌, leb, arith,
}
use settlement_engine.Prelude.Text.{codes}
use settlement_engine.Schemas.{Match}
use settlement_engine.Schemas.Amount.{
  positive_uint256_string, non_negative_uint256_string, uint256_max,
}
use settlement_engine.Schemas.Amount.RoundTrip.{decimal, amount_strings}
use settlement_engine.Schemas.Value.{
  JavaScript, natural, text, number, Object, get, put, is_true_text,
}
use settlement_engine.Schemas.Validation.{
  match_schema, ◌>>=◌, guarded, amount_field, natural_field, is_future,
}
use settlement_engine.Schemas.Validation.Sound.{IsWellFormed, rate_needed}
use settlement_engine.Consumer.{
  has_key, fields_from, fields_array_to_object, stream_field_keys, convert_field,
  convert_fields_to_match, candidate, with_id, parse_match_entry,
}

-- the texts by which the publisher writes what is not a text in a match
pub record Texts : Type 0 where
  pub matched_amount : String
  pub rate : String
  pub maturity : String
  pub timestamp : String
  pub borrower_is_taker : String
  pub maker_fee_amount : String
  pub taker_fee_amount : String
  pub lender_settlement_fee_amount : String
  pub borrower_settlement_fee_amount : String

pub record Renders (js : JavaScript) (m : Match) (t : Texts) : Type 0 where
  pub matched_amount : codes t.matched_amount ≡ decimal m.matched_amount
  pub rate : js.number_of t.rate ≡ natural m.rate
  pub maturity : js.number_of t.maturity ≡ natural m.maturity
  pub timestamp : js.number_of t.timestamp ≡ natural m.timestamp
  pub borrower_is_taker : is_true_text t.borrower_is_taker ≡ m.borrower_is_taker
  pub maker_fee_amount : codes t.maker_fee_amount ≡ decimal m.maker_fee_amount
  pub taker_fee_amount : codes t.taker_fee_amount ≡ decimal m.taker_fee_amount
  pub lender_settlement_fee_amount :
      codes t.lender_settlement_fee_amount ≡ decimal m.lender_settlement_fee_amount
  pub borrower_settlement_fee_amount :
      codes t.borrower_settlement_fee_amount ≡ decimal m.borrower_settlement_fee_amount

-- the fields that a publisher of the flat form adds
abbrev pub published_fields : Match → Texts → List String
published_fields m t =
    "matchId" ∷ m.match_id ∷ "marketId" ∷ m.market_id ∷ "lendOrderId" ∷ m.lend_order_id
    ∷ "borrowOrderId" ∷ m.borrow_order_id ∷ "lenderWallet" ∷ m.lender_wallet ∷ "borrowerWallet"
    ∷ m.borrower_wallet ∷ "matchedAmount" ∷ t.matched_amount ∷ "rate" ∷ t.rate ∷ "loanToken"
    ∷ m.loan_token ∷ "maturity" ∷ t.maturity ∷ "timestamp" ∷ t.timestamp ∷ "borrowerIsTaker"
    ∷ t.borrower_is_taker ∷ "makerFeeAmount" ∷ t.maker_fee_amount ∷ "takerFeeAmount"
    ∷ t.taker_fee_amount ∷ "lenderSettlementFeeAmount" ∷ t.lender_settlement_fee_amount
    ∷ "borrowerSettlementFeeAmount" ∷ t.borrower_settlement_fee_amount ∷ []

guarded-true : {A : Type 0} (b : Bool) (a : A) → b ≡ true → guarded b a ≡ some a
guarded-true b a h = rw h refl

fee_read :
    (s : String) (n : ℕ)
    → codes s ≡ decimal n
    → n ≤ uint256_max
    → amount_field non_negative_uint256_string (some (text s)) ≡ some n
unfolding non_negative_uint256_string
fee_read s n e h =
    let (accepted, _, value, _, _) = amount_strings n (b'0' ∷ []) h refl in
    rw e (guarded-true _ _ accepted ∙ ap some value)

amount_read :
    (s : String) (n : ℕ)
    → codes s ≡ decimal n
    → 0 < n
    → n ≤ uint256_max
    → amount_field positive_uint256_string (some (text s)) ≡ some n
unfolding non_negative_uint256_string
amount_read s n e p h =
    let (_, accepted, value, _, _) = amount_strings n (b'0' ∷ []) h refl in
    rw e (guarded-true _ _ (accepted ∙ ground arith) ∙ ap some value)

number_read :
    (js : JavaScript) (p : ℕ → Bool) (s : String) (n : ℕ)
    → js.number_of s ≡ natural n
    → p n ≡ true
    → natural_field p (some (number (js.number_of s))) ≡ some n
number_read js p s n e h = rw e (guarded-true (p n) n h)

future : (now_ms n : ℕ) → now_ms / 1000 < n → is_future now_ms n ≡ true
future now_ms n h = ground (arith, h)

step :
    {A B : Type 0} {o : Option A} {a : A} {b : B} (k : A → Option B)
    → o ≡ some a
    → k a ≡ some b
    → o >>= k ≡ some b
step k e h = rw e h

-- A match within the limits of the schema, published field by field, is parsed back to itself: where each
-- amount is written in decimal digits, `Number` reads the other numbers back, and the Boolean is written
-- as a text that says it.
pub parse_round_trip :
    (js : JavaScript) (now_ms : ℕ) (id : String) (m : Match) (t : Texts)
    → IsWellFormed js.is_uuid now_ms m
    → Renders js m t
    → parse_match_entry js now_ms (id, published_fields m t) ≡ some (id, m)
unfolding parse_match_entry fields_from has_key put get candidate convert_fields_to_match
    convert_field match_schema
parse_round_trip js now_ms id m t w r = ap (with_id id) (
    step _ (guarded-true _ _ w.match_id) (
      step _ (guarded-true _ _ w.market_id) (
        step _ (guarded-true _ _ w.lend_order_id) (
          step _ (guarded-true _ _ w.borrow_order_id) (
            step _ (guarded-true _ _ w.lender_wallet) (
              step _ (guarded-true _ _ w.borrower_wallet) (
                step _
                  (amount_read t.matched_amount _ r.matched_amount w.amount_positive w.amount_fits)
                  (step _ (number_read js _ t.rate _ r.rate (ground (arith, w.rate_bound))) (
                    step _ (guarded-true _ _ w.loan_token) (
                      step _
                        (number_read js _ t.maturity _ r.maturity (future now_ms _ w.in_future))
                        (step _
                          (number_read js _ t.timestamp _ r.timestamp
                            (ground (arith, w.timestamp_positive)))
                          (rw r.borrower_is_taker (
                            step _
                              (fee_read t.maker_fee_amount _ r.maker_fee_amount w.maker_fee_fits)
                              (step _
                                (fee_read t.taker_fee_amount _ r.taker_fee_amount w.taker_fee_fits)
                                (step _
                                  (fee_read t.lender_settlement_fee_amount _
                                    r.lender_settlement_fee_amount w.lender_fee_fits)
                                  (step _
                                    (fee_read t.borrower_settlement_fee_amount _
                                      r.borrower_settlement_fee_amount w.borrower_fee_fits)
                                    refl))))))))))))))))

of_fields :
    (js : JavaScript) (o : Object)
    → get "data" o ≡ none
    → candidate js o ≡ convert_fields_to_match js o
unfolding candidate
of_fields js o e = rw (candidate, e) refl

abbrev of_json : JavaScript → Object → Option Object → Object
of_json js o parsed = elim parsed [ none ↦ o | some p ↦ convert_fields_to_match js p ]

of_payload :
    (js : JavaScript) (o : Object) (payload : String)
    → get "data" o ≡ some (text payload)
    → str_eq payload "" ≡ false
    → candidate js o ≡ of_json js o (js.json_parse payload)
unfolding candidate
of_payload js o payload e filled = rw (candidate, e, filled) refl

-- Two entries are parsed alike, whatever their fields: one with the fields themselves, none of which is
-- `data`, and one with a JSON text of the same fields in `data`.
pub data_form_agrees :
    (js : JavaScript) (now_ms : ℕ) (id payload : String) (fields : List String)
    → get "data" (fields_array_to_object fields) ≡ none
    → str_eq payload "" ≡ false
    → js.json_parse payload ≡ some (fields_array_to_object fields)
    → parse_match_entry js now_ms (id, "data" ∷ payload ∷ [])
      ≡ parse_match_entry js now_ms (id, fields)
unfolding parse_match_entry fields_from has_key put get
data_form_agrees js now_ms id payload fields no_data filled json =
    ap (λ c. with_id id (match_schema js.is_uuid now_ms c))
      (of_payload js (fields_array_to_object ("data" ∷ payload ∷ [])) payload refl filled
        ∙ ap (of_json js _) json
        ∙ (sym (of_fields js (fields_array_to_object fields) no_data)))

-- the object of an entry's fields has texts only
abbrev HasTexts : Object → Type 0
HasTexts = All (λ field. (s : String) × (field.1 ≡ text s))

put-HasTexts : (k s : String) (o : Object) → HasTexts o → HasTexts (put k (text s) o)
unfolding put
put-HasTexts k s [] h = ((s, refl), tt)
put-HasTexts k s ((l, v) ∷ o) h = elim (Bool-cases (str_eq l k)) [
  | inl e ↦ rw e ((s, refl), h.1)
  | inr e ↦ rw e (h.0, put-HasTexts k s o h.1)
]

fields_from-HasTexts :
    (o : Object) (fields : List String) → HasTexts o → HasTexts (fields_from o fields)
unfolding fields_from
fields_from-HasTexts o [] h = h
fields_from-HasTexts o (k ∷ []) h = h
fields_from-HasTexts o (k ∷ v ∷ rest) h =
    elim (Bool-cases (not (str_eq k "") && has_key k stream_field_keys)) [
      | inl e ↦ rw e (fields_from-HasTexts (put k (text v) o) rest (put-HasTexts k v o h))
      | inr e ↦ rw e (fields_from-HasTexts o rest h)
    ]

text_no_number :
    (p : ℕ → Bool) (key : String) (o : Object) → HasTexts o → natural_field p (get key o) ≡ none
unfolding get
text_no_number p key [] h = refl
text_no_number p key ((k, v) ∷ o) ((s, at), h) = elim (Bool-cases (str_eq k key)) [
  | inl e ↦ rw (e, at) refl
  | inr e ↦ rw e (text_no_number p key o h)
]

schema_wants_number :
    (is_uuid : String → Bool) (now_ms : ℕ) (o : Object)
    → HasTexts o
    → match_schema is_uuid now_ms o ≡ none
schema_wants_number is_uuid now_ms o h =
    rate_needed is_uuid now_ms o (text_no_number (λ n. leb n 10000) "rate" o h)

-- An entry whose `data` is not JSON is rejected, also where its other fields are those of a match: the
-- fields are passed to the schema as texts, and it wants numbers.
pub unreadable_data_rejected :
    (js : JavaScript) (now_ms : ℕ) (id payload : String) (fields : List String)
    → get "data" (fields_array_to_object fields) ≡ some (text payload)
    → str_eq payload "" ≡ false
    → js.json_parse payload ≡ none
    → parse_match_entry js now_ms (id, fields) ≡ none
unfolding parse_match_entry
unreadable_data_rejected js now_ms id payload fields found filled json =
    ap (λ c. with_id id (match_schema js.is_uuid now_ms c))
      (of_payload js (fields_array_to_object fields) payload found filled ∙ ap (of_json js _) json)
    ∙ ap (with_id id) (schema_wants_number js.is_uuid now_ms _ (fields_from-HasTexts [] fields tt))
