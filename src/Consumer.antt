-- ===== src/Consumer.antt =====
-- redis/settlementMatchConsumer.ts: an entry of the stream is parsed into a match, or rejected,
-- dead-lettered and acknowledged. redis/deadLetter.ts is the handler of rejected entries. The reads of
-- the stream are in Consumer/Read and Consumer/Startup.
pub mod Parse
pub mod Read
pub mod Faults
pub mod Startup
use settlement_engine.Prelude.{
  ℕ, String, str_eq, Bool, true, false, not, ◌&&◌, ◌||◌, Option, none, some, List, [], ◌∷◌, ◌++◌,
  if◌then◌else◌,
}
use settlement_engine.Exec.{Exec, Result, ok, err, pure, ◌>>=◌, ◌>>◌}
use settlement_engine.Schemas.{Match, MatchWithMeta}
use settlement_engine.Schemas.Value.{
  Value, text, number, boolean, Object, get, put, JavaScript, to_number, says_true,
}
use settlement_engine.Schemas.Validation.{match_schema}
use settlement_engine.Redis.{Redis, RedisError, Command, DeadLetter, command, xack, xadd_dead}

-- `[id, fields]`, the fields as keys and values in turn
abbrev pub StreamEntry : Type 0
StreamEntry = String × List String

abbrev pub stream_field_keys : List String
stream_field_keys =
    "data" ∷ "matchId" ∷ "marketId" ∷ "lendOrderId" ∷ "borrowOrderId" ∷ "lenderWallet"
    ∷ "borrowerWallet" ∷ "matchedAmount" ∷ "rate" ∷ "loanToken" ∷ "maturity" ∷ "timestamp"
    ∷ "borrowerIsTaker" ∷ "makerFeeAmount" ∷ "takerFeeAmount" ∷ "lenderSettlementFeeAmount"
    ∷ "borrowerSettlementFeeAmount" ∷ []

unfoldable pub has_key : String → List String → Bool
has_key key [] = false
has_key key (k ∷ rest) = str_eq k key || has_key key rest

unfoldable pub fields_from : Object → List String → Object
unfolding has_key put
fields_from result (key ∷ value ∷ rest) =
    fields_from
      (if not (str_eq key "") && has_key key stream_field_keys
        then put key (text value) result
        else result)
      rest
fields_from result _ = result

abbrev pub fields_array_to_object : List String → Object
fields_array_to_object fields = fields_from [] fields

-- `if (o[key] !== undefined) o[key] = convert(o[key])`
unfoldable pub convert_field : String → (Value → Value) → Object → Object
unfolding get put
convert_field key convert o = elim (get key o) [ none ↦ o | some v ↦ put key (convert v) o ]

unfoldable pub convert_fields_to_match : JavaScript → Object → Object
unfolding convert_field
convert_fields_to_match js fields =
    let converted = convert_field "rate" (λ v. number (to_number js v)) fields in
    let converted' = convert_field "maturity" (λ v. number (to_number js v)) converted in
    let converted'' = convert_field "timestamp" (λ v. number (to_number js v)) converted' in
    convert_field "borrowerIsTaker" (λ v. boolean (says_true v)) converted''

-- a text that is there and not empty
abbrev pub truthy_text : Option Value → Option String
truthy_text (some (text s)) = if str_eq s "" then none else some s
truthy_text _ = none

-- what the schema gets to see
unfoldable pub candidate : JavaScript → Object → Object
unfolding convert_fields_to_match get
candidate js fields = elim (truthy_text (get "data" fields)) [
  | none ↦ convert_fields_to_match js fields
  | some payload ↦ elim (js.json_parse payload) [
    | none ↦ fields
    | some o ↦ convert_fields_to_match js o
  ]
]

abbrev pub with_id : String → Option Match → Option (String × Match)
with_id id none = none
with_id id (some m) = some (id, m)

unfoldable pub parse_match_entry : JavaScript → ℕ → StreamEntry → Option (String × Match)
unfolding candidate match_schema fields_from
parse_match_entry js now_ms (id, fields) =
    with_id id (match_schema js.is_uuid now_ms (candidate js (fields_array_to_object fields)))

-- `onInvalid`, which may be missing
abbrev pub OnInvalid : Type 0
OnInvalid = Option (DeadLetter → Command)

-- the command may throw, the handler never does
abbrev pub absorb : Command → Command
absorb m r = (ok tt, (m r).1)

unfoldable pub create_invalid_entry_handler : DeadLetter → Command
create_invalid_entry_handler letter = absorb (xadd_dead letter)

abbrev pub report : OnInvalid → DeadLetter → Command
report none letter = pure tt
report (some handler) letter = handler letter

-- an entry of a reply, after the value of `Date.now()` when it is parsed
abbrev pub Arrival : Type 0
Arrival = ℕ × StreamEntry

abbrev pub push : Option MatchWithMeta → List MatchWithMeta → List MatchWithMeta
push none matches = matches
push (some m) matches = matches ++ m ∷ []

unfoldable pub process_parsed :
    OnInvalid
    → String
    → String
    → Object
    → Option (String × Match)
    → Exec Redis RedisError (Option MatchWithMeta)
process_parsed on_invalid stream id raw none = do
  report on_invalid
      (record { id = id; stream = stream; raw = raw; error = "Validation failed for match entry" })
  xack stream id
  pure none
process_parsed on_invalid stream id raw (some parsed) =
    pure (some (record { id = parsed.0; stream = stream; payload = parsed.1 }))

module _ (js : JavaScript) (on_invalid : OnInvalid) where
  unfoldable pub process_entry : String → Arrival → Exec Redis RedisError (Option MatchWithMeta)
  unfolding parse_match_entry fields_from process_parsed
  process_entry stream (now_ms, (id, fields)) =
      process_parsed on_invalid stream id (fields_array_to_object fields)
        (parse_match_entry js now_ms (id, fields))

  unfoldable pub process_entries :
      String → List Arrival → List MatchWithMeta → Exec Redis RedisError (List MatchWithMeta)
  unfolding process_entry
  process_entries stream [] matches = pure matches
  process_entries stream (e ∷ rest) matches =
      process_entry stream e >>= λ m. process_entries stream rest (push m matches)

  unfoldable pub process_streams :
      List (String × List Arrival) → List MatchWithMeta → Exec Redis RedisError (List MatchWithMeta)
  unfolding process_entries
  process_streams [] matches = pure matches
  process_streams ((stream, entries) ∷ rest) matches =
      process_entries stream entries matches >>= λ more. process_streams rest more
