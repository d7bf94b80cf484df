-- ===== src/Consumer/Read.antt =====
-- `readMatches`: the new entries of the stream, the reply of XREADGROUP an argument.
use settlement_engine.Prelude.{
  suc, ◌+◌, length, arith, ◌≡◌, refl, sym, ap, ◌∙◌, String, Option, none, some, List, [], ◌∷◌, ◌++◌,
  map,
}
use mathlib.Core.List.{append-nil, append_assoc}
use settlement_engine.Exec.{Result, ok, err}
use settlement_engine.Schemas.{Match, MatchWithMeta}
use settlement_engine.Schemas.Value.{JavaScript}
use settlement_engine.Redis.{Redis, RedisError, DeadLetter, command}
use settlement_engine.Consumer.{
  StreamEntry, Arrival, OnInvalid, fields_array_to_object, parse_match_entry,
  create_invalid_entry_handler, push, process_parsed, process_entry, process_entries,
  process_streams,
}

-- what XREADGROUP answers: it throws, or there is nothing, or the entries of each stream
pub data Reply : Type 0 where
  failed : Reply
  nothing : Reply
  streams : List (String × List Arrival) → Reply

-- the `catch` gives up the matches read so far
abbrev pub matches_or_none :
    Result RedisError (List MatchWithMeta) × Redis → List MatchWithMeta × Redis
matches_or_none (ok matches, r) = (matches, r)
matches_or_none (err e, r) = ([], r)

unfoldable pub read_matches : JavaScript → OnInvalid → Reply → Redis → List MatchWithMeta × Redis
unfolding process_streams
read_matches js on_invalid failed r = ([], r)
read_matches js on_invalid nothing r = ([], r)
read_matches js on_invalid (streams l) r = matches_or_none (process_streams js on_invalid l [] r)

abbrev pub gather {ℓ κ} : {A : Type ℓ} {B : Type κ} → (A → List B) → List A → List B
gather f [] = []
gather f (x ∷ xs) = f x ++ gather f xs

pub gather_append {ℓ κ} :
    {A : Type ℓ} {B : Type κ} (f : A → List B) (xs ys : List A)
    → gather f (xs ++ ys) ≡ gather f xs ++ gather f ys
gather_append f [] ys = refl
gather_append f (x ∷ xs) ys =
    ap (λ l. f x ++ l) (gather_append f xs ys)
    ∙ sym (append_assoc (f x) (gather f xs) (gather f ys))

-- the entries of a reply, each with its stream
abbrev pub flat : List (String × List Arrival) → List (String × Arrival)
flat [] = []
flat ((stream, entries) ∷ rest) = map (λ e. (stream, e)) entries ++ flat rest

abbrev pub match_of : String → Option (String × Match) → Option MatchWithMeta
match_of stream none = none
match_of stream (some (id, m)) = some (record { id = id; stream = stream; payload = m })

abbrev pub if_rejected {ℓ} : {A : Type ℓ} → A → Option (String × Match) → List A
if_rejected a none = a ∷ []
if_rejected a (some parsed) = []

module _ (js : JavaScript) where
  abbrev pub valid_one : String × Arrival → Option MatchWithMeta
  valid_one (stream, (now_ms, e)) = match_of stream (parse_match_entry js now_ms e)

  -- the matches among the entries
  abbrev pub valid : List (String × Arrival) → List MatchWithMeta
  valid = gather (λ e. push (valid_one e) [])

  abbrev pub rejected_one : String × Arrival → List (String × String)
  rejected_one (stream, (now_ms, e)) = if_rejected (stream, e.0) (parse_match_entry js now_ms e)

  -- the streams and ids of the others
  abbrev pub rejected : List (String × Arrival) → List (String × String)
  rejected = gather (λ e. rejected_one e)

  abbrev pub letter : String → StreamEntry → DeadLetter
  letter stream (id, fields) = record {
    id = id;
    stream = stream;
    raw = fields_array_to_object fields;
    error = "Validation failed for match entry";
  }

  abbrev pub letter_one : String × Arrival → List DeadLetter
  letter_one (stream, (now_ms, e)) = if_rejected (letter stream e) (parse_match_entry js now_ms e)

  -- their dead letters
  abbrev pub letters : List (String × Arrival) → List DeadLetter
  letters = gather (λ e. letter_one e)

  -- Redis with what the invalid entries add
  abbrev pub cleared : List (String × Arrival) → Redis → Redis
  cleared l r = record r {
    acked = r.acked ++ rejected l;
    dead_letters = r.dead_letters ++ letters l;
  }

abbrev handler : OnInvalid
handler = some create_invalid_entry_handler

parsed_calm :
    (stream id : String) (fields : List String) (o : Option (String × Match)) (r : Redis)
    → r.faults ≡ []
    → process_parsed handler stream id (fields_array_to_object fields) o r ≡ (
      ok (match_of stream o),
      record r {
        acked = r.acked ++ if_rejected (stream, id) o;
        dead_letters =
            r.dead_letters
            ++ if_rejected
                (record {
                  id = id;
                  stream = stream;
                  raw = fields_array_to_object fields;
                  error = "Validation failed for match entry";
                })
                o;
      },
    )
unfolding process_parsed create_invalid_entry_handler command
parsed_calm stream id fields none r calm = rw calm refl
parsed_calm stream id fields (some parsed) r calm =
    rw (append-nil r.acked, append-nil r.dead_letters) refl

abbrev pub of_stream : String → List Arrival → List (String × Arrival)
of_stream stream = map (λ e. (stream, e))

pub push_append :
    (m : Option MatchWithMeta) (ms rest : List MatchWithMeta)
    → push m ms ++ rest ≡ ms ++ (push m [] ++ rest)
push_append none ms rest = refl
push_append (some m) ms rest = append_assoc ms (m ∷ []) rest

module _ (js : JavaScript) where
  cleared_one :
      (stream : String) (e : Arrival) (l : List (String × Arrival)) (r : Redis)
      → cleared js l (record r {
        acked = r.acked ++ rejected_one js (stream, e);
        dead_letters = r.dead_letters ++ letter_one js (stream, e);
      })
        ≡ cleared js ((stream, e) ∷ l) r
  cleared_one stream e l r =
      rw
        (
          append_assoc r.acked (rejected_one js (stream, e)) (rejected js l),
          append_assoc r.dead_letters (letter_one js (stream, e)) (letters js l),
        )
        refl

  entries_calm :
      (stream : String) (es : List Arrival) (ms : List MatchWithMeta) (r : Redis)
      → r.faults ≡ []
      → process_entries js handler stream es ms r
        ≡ (ok (ms ++ valid js (of_stream stream es)), cleared js (of_stream stream es) r)
  unfolding process_entries process_entry
  entries_calm stream [] ms r calm =
      rw (append-nil ms, append-nil r.acked, append-nil r.dead_letters) refl
  entries_calm stream ((now_ms, (id, fields)) ∷ rest) ms r calm =
      let o = parse_match_entry js now_ms (id, fields) in
      rw (parsed_calm stream id fields o r calm) (
        entries_calm stream rest (push (match_of stream o) ms) _ calm
        ∙ rw
            (
              push_append (match_of stream o) ms (valid js (of_stream stream rest)),
              cleared_one stream (now_ms, (id, fields)) (of_stream stream rest) r,
            )
            refl)

  streams_calm :
      (l : List (String × List Arrival)) (ms : List MatchWithMeta) (r : Redis)
      → r.faults ≡ []
      → process_streams js handler l ms r ≡ (ok (ms ++ valid js (flat l)), cleared js (flat l) r)
  unfolding process_streams
  streams_calm [] ms r calm = rw (append-nil ms, append-nil r.acked, append-nil r.dead_letters) refl
  streams_calm ((stream, es) ∷ l) ms r calm =
      let first = of_stream stream es in
      rw (entries_calm stream es ms r calm) (
        streams_calm l (ms ++ valid js first) (cleared js first r) calm
        ∙ rw
            (
              append_assoc ms (valid js first) (valid js (flat l)),
              append_assoc r.acked (rejected js first) (rejected js (flat l)),
              append_assoc r.dead_letters (letters js first) (letters js (flat l)),
              gather_append (λ e. push (valid_one js e) []) first (flat l),
              gather_append (rejected_one js) first (flat l),
              gather_append (letter_one js) first (flat l),
            )
            refl)

one_of_two :
    (x : String × String) (stream : String) (o : Option (String × Match)) (a : List MatchWithMeta)
    (b : List (String × String))
    → length (push (match_of stream o) [] ++ a) + length (if_rejected x o ++ b)
      ≡ suc (length a + length b)
one_of_two x stream none a b = omega arith
one_of_two x stream (some (i, m)) a b = omega arith

split_lengths :
    (js : JavaScript) (l : List (String × Arrival))
    → length (valid js l) + length (rejected js l) ≡ length l
split_lengths js [] = refl
split_lengths js ((stream, (now_ms, e)) ∷ l) =
    one_of_two (stream, e.0) stream (parse_match_entry js now_ms e) (valid js l) (rejected js l)
    ∙ ap suc (split_lengths js l)

-- While Redis answers, a read returns exactly the matches among the entries of the reply, in its order,
-- and acknowledges the others, which it also adds to the dead-letter stream; the two groups together
-- have as many entries as the reply.
pub read_matches_accounts :
    (js : JavaScript) (l : List (String × List Arrival)) (r : Redis)
    → r.faults ≡ []
    → (read_matches js (some create_invalid_entry_handler) (streams l) r
        ≡ (valid js (flat l), cleared js (flat l) r))
      × (length (valid js (flat l)) + length (rejected js (flat l)) ≡ length (flat l))
unfolding read_matches
read_matches_accounts js l r calm =
    (rw (streams_calm js l [] r calm) refl, split_lengths js (flat l))
