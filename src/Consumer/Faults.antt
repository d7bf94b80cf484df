-- ===== src/Consumer/Faults.antt =====
-- A read while Redis may fail at any command: which entries are acknowledged, and what is returned.
use settlement_engine.Prelude.{
  ◌≡◌, refl, sym, ◌⊎◌, inl, inr, String, Bool, true, false, Option, none, some, List, [], ◌∷◌, ◌++◌,
  All,
}
use mathlib.Core.List.{append-nil, append_assoc}
use settlement_engine.Exec.{Exec, Result, ok, err, continue}
use settlement_engine.Schemas.{Match, MatchWithMeta}
use settlement_engine.Schemas.Value.{JavaScript}
use settlement_engine.Redis.{Redis, RedisError, command, xack, DeadLetter}
use settlement_engine.Consumer.{
  Arrival, OnInvalid, fields_array_to_object, parse_match_entry, create_invalid_entry_handler, push,
  process_parsed, process_entry, process_entries, process_streams, report,
}
use settlement_engine.Consumer.Read.{
  matches_or_none, streams, read_matches, flat, gather_append, match_of, if_rejected, valid,
  rejected, rejected_one, valid_one, of_stream, push_append,
}

abbrev pub handler_of : Bool → OnInvalid
handler_of true = some create_invalid_entry_handler
handler_of false = none

All-append : {A : Type 0} (P : A → Type 0) (xs ys : List A) → All P xs → All P ys → All P (xs ++ ys)
All-append P [] ys h k = k
All-append P (x ∷ xs) ys h k = (h.0, All-append P xs ys h.1 k)

All-append_right : {A : Type 0} (P : A → Type 0) (xs ys : List A) → All P (xs ++ ys) → All P ys
All-append_right P [] ys h = h
All-append_right P (x ∷ xs) ys h = All-append_right P xs ys h.1

All-append_left : {A : Type 0} (P : A → Type 0) (xs ys : List A) → All P (xs ++ ys) → All P xs
All-append_left P [] ys h = tt
All-append_left P (x ∷ xs) ys h = (h.0, All-append_left P xs ys h.1)

module _ (P : String × String → Type 0) where
  -- the result that is expected, or an error, and the acknowledged entries have the property
  abbrev Ends : {A : Type 0} → A → Result RedisError A × Redis → Type 0
  Ends a (ok x, r) = (x ≡ a) × All P r.acked
  Ends a (err e, r) = All P r.acked

  Ends-continue :
      {A B : Type 0} (a : A) (b : B) (o : Result RedisError A × Redis)
      (k : A → Exec Redis RedisError B)
      → Ends a o
      → ((r : Redis) → All P r.acked → Ends b (k a r))
      → Ends b (continue o.0 k o.1)
  Ends-continue a b (ok x, r) k h step = rw h.0 (step r h.1)
  Ends-continue a b (err e, r) k h step = h

  xack-Ends :
      (stream id : String) (r : Redis) → P (stream, id) → All P r.acked → Ends tt (xack stream id r)
  unfolding command
  xack-Ends stream id r p h =
      elim r.faults as (λ l. Ends tt (xack stream id (record r { faults = l }))) [
        | [] ↦ (refl, All-append P r.acked ((stream, id) ∷ []) h (p, tt))
        | true ∷ l ↦ h
        | false ∷ l ↦ (refl, All-append P r.acked ((stream, id) ∷ []) h (p, tt))
      ]

  report-Ends :
      (dead : Bool) (letter : DeadLetter) (r : Redis)
      → All P r.acked
      → Ends tt (report (handler_of dead) letter r)
  unfolding command create_invalid_entry_handler
  report-Ends false letter r h = (refl, h)
  report-Ends true letter r h =
      elim r.faults
        as (λ l. Ends tt (create_invalid_entry_handler letter (record r { faults = l }))) [
          | [] ↦ (refl, h)
          | true ∷ l ↦ (refl, h)
          | false ∷ l ↦ (refl, h)
        ]

  parsed-Ends :
      (dead : Bool) (stream id : String) (fields : List String) (o : Option (String × Match))
      (r : Redis)
      → All P (if_rejected (stream, id) o)
      → All P r.acked
      → Ends
          (match_of stream o)
          (process_parsed (handler_of dead) stream id (fields_array_to_object fields) o r)
  unfolding process_parsed
  parsed-Ends dead stream id fields none r p h =
      Ends-continue tt none (report (handler_of dead) _ r) _ (report-Ends dead _ r h) λ r' h'.
        Ends-continue tt none (xack stream id r') _ (xack-Ends stream id r' p.0 h')
          λ r'' h''. (refl, h'')
  parsed-Ends dead stream id fields (some parsed) r p h = (refl, h)

  entries-Ends :
      (js : JavaScript) (dead : Bool) (stream : String) (es : List Arrival)
      (ms : List MatchWithMeta) (r : Redis)
      → All P (rejected js (of_stream stream es))
      → All P r.acked
      → Ends
          (ms ++ valid js (of_stream stream es))
          (process_entries js (handler_of dead) stream es ms r)
  unfolding process_entries process_entry
  entries-Ends js dead stream [] ms r p h = (sym (append-nil ms), h)
  entries-Ends js dead stream ((now_ms, (id, fields)) ∷ rest) ms r p h =
      let o = parse_match_entry js now_ms (id, fields) in
      let later = valid js (of_stream stream rest) in
      Ends-continue (match_of stream o) (ms ++ (push (match_of stream o) [] ++ later))
        (process_parsed (handler_of dead) stream id (fields_array_to_object fields) o r)
        (λ m. process_entries js (handler_of dead) stream rest (push m ms))
        (parsed-Ends dead stream id fields o r (All-append_left P (if_rejected (stream, id) o) _ p)
          h)
        λ r' h'. rw (sym (push_append (match_of stream o) ms later)) (
          entries-Ends js dead stream rest (push (match_of stream o) ms) r'
            (All-append_right P (if_rejected (stream, id) o) _ p) h')

  streams-Ends :
      (js : JavaScript) (dead : Bool) (l : List (String × List Arrival)) (ms : List MatchWithMeta)
      (r : Redis)
      → All P (rejected js (flat l))
      → All P r.acked
      → Ends (ms ++ valid js (flat l)) (process_streams js (handler_of dead) l ms r)
  unfolding process_streams
  streams-Ends js dead [] ms r p h = (sym (append-nil ms), h)
  streams-Ends js dead ((stream, es) ∷ l) ms r p h =
      let first = of_stream stream es in
      let q : All P (rejected js first ++ rejected js (flat l)) =
        rw (sym (gather_append (rejected_one js) first (flat l))) p in
      Ends-continue (ms ++ valid js first) (ms ++ valid js (first ++ flat l))
        (process_entries js (handler_of dead) stream es ms r)
        (process_streams js (handler_of dead) l)
        (entries-Ends js dead stream es ms r (All-append_left P (rejected js first) _ q) h)
        λ r' h'.
          rw
            (
              gather_append (λ e. push (valid_one js e) []) first (flat l),
              sym (append_assoc ms (valid js first) (valid js (flat l))),
            )
            (streams-Ends js dead l (ms ++ valid js first) r'
              (All-append_right P (rejected js first) _ q) h')

end_of_read :
    (P : String × String → Type 0) (ms : List MatchWithMeta)
    (o : Result RedisError (List MatchWithMeta) × Redis)
    → Ends P ms o
    → All P (matches_or_none o).1.acked
      × (((matches_or_none o).0 ≡ ms) ⊎ ((matches_or_none o).0 ≡ []))
end_of_read P ms (ok x, r) h = (h.1, inl h.0)
end_of_read P ms (err e, r) h = (h, inr refl)

-- Whichever commands fail, with the dead-letter handler or without: a read returns all the matches of the
-- reply or none, and what it has acknowledged besides the entries that were acknowledged before is among
-- the rejected ones, so that every property of the former and of the latter is one of all of them.
pub faulty_read_acks :
    (P : String × String → Type 0) (js : JavaScript) (dead : Bool)
    (l : List (String × List Arrival)) (r : Redis)
    → All P (rejected js (flat l))
    → All P r.acked
    → All P (read_matches js (handler_of dead) (streams l) r).1.acked
      × (((read_matches js (handler_of dead) (streams l) r).0 ≡ valid js (flat l))
          ⊎ ((read_matches js (handler_of dead) (streams l) r).0 ≡ []))
unfolding read_matches
faulty_read_acks P js dead l r p h =
    end_of_read P (valid js (flat l)) (process_streams js (handler_of dead) l [] r)
      (streams-Ends P js dead l [] r p h)
