-- ===== src/Tests/Entries.antt =====
-- The theorems on the entries of the stream, at sample entries.
use mathlib.Core.Path.{subst}
use mathlib.Core.Option.{some-injective}
use settlement_engine.Prelude.{
  suc, ◌+◌, ◌-◌, ◌≤◌, ◌<◌, ◌≡◌, refl, sym, ap, ◌⊎◌, inl, inr, String, str_eq, true, false, not,
  none, some, List, [], ◌∷◌, length, All, arith, if◌then◌else◌,
}
use settlement_engine.Prelude.Text.{codes}
use settlement_engine.Schemas.{Match}
use settlement_engine.Schemas.Amount.RoundTrip.{decimal}
use settlement_engine.Schemas.Value.{
  is_true_text, JavaScript, JsNumber, natural, other_number, Object,
}
use settlement_engine.Schemas.Validation.{is_ethereum_address, is_market_id, match_schema}
use settlement_engine.Schemas.Validation.Sound.{IsWellFormed, match_schema-IsWellFormed}
use settlement_engine.Redis.{Redis}
use settlement_engine.Consumer.{
  fields_from, Arrival, fields_array_to_object, convert_fields_to_match, parse_match_entry,
  create_invalid_entry_handler,
}
use settlement_engine.Consumer.Parse.{Texts, Renders, published_fields, parse_round_trip}
use settlement_engine.Consumer.Read.{
  streams, read_matches, flat, valid, rejected, cleared, read_matches_accounts,
}
use settlement_engine.Consumer.Faults.{handler_of, faulty_read_acks}
use settlement_engine.Consumer.Startup.{
  Options, cap, Loading, ClaimReplies, process_pending_entries,
}
use settlement_engine.Consumer.Startup.Bounds.{FitsClaim, pending_load_bounded}
use settlement_engine.Consumer.Startup.Endings.{FruitfulClaim, reclaim_ends, reclaim_spins}
use settlement_engine.Tests.Samples.{first_match}

abbrev wallet_text : String
wallet_text = "0x00112233445566778899aAbBcCdDeEfF00112233"

abbrev published : Match
published = record first_match {
  market_id = "0x00112233445566778899aabbccddeeff00112233445566778899aabbccddeeff";
  lender_wallet = wallet_text;
  borrower_wallet = wallet_text;
  loan_token = wallet_text;
}

abbrev texts : Texts
texts = record {
  matched_amount = "100";
  rate = "5";
  maturity = "9000";
  timestamp = "10";
  borrower_is_taker = "TRUE";
  maker_fee_amount = "3";
  taker_fee_amount = "4";
  lender_settlement_fee_amount = "1";
  borrower_settlement_fee_amount = "2";
}

abbrev fields : List String
fields = published_fields published texts

abbrev sample_number : String → JsNumber
sample_number s =
    if str_eq s "5"
    then natural 5
    else if str_eq s "9000"
    then natural 9000
    else if str_eq s "10"
    then natural 10
    else other_number

abbrev js : JavaScript
js = record {
  json_parse = λ s. if str_eq s "{...}" then some (fields_array_to_object fields) else none;
  number_of = sample_number;
  is_uuid = λ s. not (str_eq s "");
}

published-IsWellFormed : IsWellFormed js.is_uuid 5000 published
unfolding is_ethereum_address is_market_id
published-IsWellFormed = record {
  match_id = refl;
  market_id = refl;
  lend_order_id = refl;
  borrow_order_id = refl;
  lender_wallet = refl;
  borrower_wallet = refl;
  loan_token = refl;
  amount_positive = omega arith;
  amount_fits = omega arith;
  rate_bound = omega arith;
  in_future = omega arith;
  timestamp_positive = omega arith;
  maker_fee_fits = omega arith;
  taker_fee_fits = omega arith;
  lender_fee_fits = omega arith;
  borrower_fee_fits = omega arith;
}

published-Renders : Renders js published texts
unfolding decimal codes is_true_text
published-Renders = record {
  matched_amount = refl;
  rate = refl;
  maturity = refl;
  timestamp = refl;
  borrower_is_taker = refl;
  maker_fee_amount = refl;
  taker_fee_amount = refl;
  lender_settlement_fee_amount = refl;
  borrower_settlement_fee_amount = refl;
}

parse_round_trip_example : parse_match_entry js 5000 ("1-0", fields) ≡ some ("1-0", published)
parse_round_trip_example =
    parse_round_trip js 5000 "1-0" published texts published-IsWellFormed published-Renders

abbrev accepted_object : Object
accepted_object = convert_fields_to_match js (fields_array_to_object fields)

accepted : match_schema js.is_uuid 5000 accepted_object ≡ some published
unfolding match_schema convert_fields_to_match fields_from is_true_text
accepted = refl

match_schema-IsWellFormed_example : IsWellFormed js.is_uuid 5000 published
match_schema-IsWellFormed_example =
    match_schema-IsWellFormed js.is_uuid 5000 accepted_object published accepted

-- a match, an entry without fields, and one whose `data` is not JSON
abbrev reply : List (String × List Arrival)
reply =
    (
      "matches",
      (5000, ("1-0", fields)) ∷ (5001, ("2-0", [])) ∷ (5002, ("3-0", "data" ∷ "{.." ∷ [])) ∷ [],
    )
    ∷ []

abbrev calm_redis : Redis
calm_redis = record { acked = []; deleted = []; trims = 0; dead_letters = []; faults = [] }

-- the second command throws, and the third
abbrev faulty_redis : Redis
faulty_redis = record calm_redis { faults = false ∷ true ∷ true ∷ [] }

read_matches_accounts_example :
    (read_matches js (some create_invalid_entry_handler) (streams reply) calm_redis
      ≡ (valid js (flat reply), cleared js (flat reply) calm_redis))
    × (length (valid js (flat reply)) + length (rejected js (flat reply)) ≡ length (flat reply))
read_matches_accounts_example = read_matches_accounts js reply calm_redis refl

abbrev Rejected : String × String → Type 0
Rejected (stream, id) = (str_eq id "2-0" ≡ true) ⊎ (str_eq id "3-0" ≡ true)

faulty_read_acks_example :
    All Rejected (read_matches js (handler_of true) (streams reply) faulty_redis).1.acked
    × (((read_matches js (handler_of true) (streams reply) faulty_redis).0 ≡ valid js (flat reply))
        ⊎ ((read_matches js (handler_of true) (streams reply) faulty_redis).0 ≡ []))
unfolding parse_match_entry
faulty_read_acks_example =
    faulty_read_acks Rejected js true reply faulty_redis (inl refl, (inr refl, tt)) tt

-- two pending matches, with a cap of one
abbrev page : List (String × List Arrival)
page = ("matches", (5000, ("1-0", fields)) ∷ (5000, ("4-0", fields)) ∷ []) ∷ []

abbrev opts : Options
opts = record {
  js = js;
  on_invalid = some create_invalid_entry_handler;
  read_count = 2;
  max_entries = some 1;
}

abbrev loaded : Loading
loaded = (valid js (flat page), calm_redis)

abbrev no_claims : ClaimReplies
no_claims = record { summary = some none; details = some []; claimed = some [] }

no_claims-FitsClaim : FitsClaim 2 no_claims
no_claims-FitsClaim = (
  λ ids e. subst (λ l. length l ≤ 2) (some-injective [] ids e) (omega arith),
  λ ids es e e'. subst (λ l. length l ≤ length ids) (some-injective [] es e') (omega arith),
)

reclaimed :
    process_pending_entries opts "matches" (λ i. streams page) (λ i. no_claims) 3 calm_redis
    ≡ some loaded
unfolding process_pending_entries
reclaimed = refl

pending_load_bounded_example : length loaded.0 ≤ cap opts + (opts.read_count - 1)
pending_load_bounded_example =
    pending_load_bounded opts "matches" (λ i. streams page) (λ i. no_claims) 3 calm_redis loaded
      (λ i. omega arith) (λ i. no_claims-FitsClaim) reclaimed

page_fruitful : opts.read_count ≤ 2 → 0 < length (valid js (flat page))
unfolding parse_match_entry
page_fruitful h = omega arith

no_claims-FruitfulClaim : FruitfulClaim opts "matches" no_claims
no_claims-FruitfulClaim ids es e e' many =
    let none_asked : length ids ≡ 0 = ap length (sym (some-injective [] ids e)) in
    absurd (omega (arith, none_asked, many))

reclaim_ends_example :
    (e : Loading) × (process_pending_entries opts "matches"
        (λ i. streams page)
        (λ i. no_claims)
        (suc (cap opts))
        calm_redis
      ≡ some e)
reclaim_ends_example =
    reclaim_ends opts "matches" (λ i. streams page) (λ i. no_claims) calm_redis (λ i. page_fruitful)
      (λ i. no_claims-FruitfulClaim)

-- two entries of another consumer that have not been idle long enough
abbrev busy : ClaimReplies
busy = record { summary = some (some 2); details = some ("5-0" ∷ "6-0" ∷ []); claimed = some [] }

reclaim_spins_example :
    process_pending_entries opts "matches"
      (λ i. streams (("matches", []) ∷ []))
      (λ i. busy)
      1000
      calm_redis
    ≡ none
reclaim_spins_example =
    reclaim_spins opts "matches" (λ i. streams (("matches", []) ∷ [])) (λ i. busy) calm_redis 1
      "5-0" ("6-0" ∷ []) (omega arith) (omega arith) refl (λ k. refl) 1000
