-- ===== src/Consumer/Startup/Counting.antt =====
-- What a page adds to the matches, and what it counts.
use mathlib.Core.Path.{subst}
use settlement_engine.Prelude.{
  ℕ, ◌+◌, ◌≡◌, String, Bool, true, Option, none, some, List, [], ◌∷◌, length, length-append, arith,
}
use settlement_engine.Exec.{Exec, Result, ok, err, pure, continue, ◌>>=◌}
use settlement_engine.Schemas.{Match, MatchWithMeta}
use settlement_engine.Schemas.Value.{Object}
use settlement_engine.Redis.{Redis, RedisError, xack}
use settlement_engine.Consumer.{
  Arrival, OnInvalid, push, parse_match_entry, fields_array_to_object, process_parsed,
  process_entry, report,
}
use settlement_engine.Consumer.Read.{flat, match_of, valid, of_stream, gather_append, valid_one}
use settlement_engine.Consumer.Startup.Bounds.{size}
use settlement_engine.Consumer.Startup.{Loading, kept, Options, load_entries, load_streams}

-- `n` more matches, unless it throws
abbrev pub Counts : {A : Type 0} → ℕ → Loading → Result RedisError A × Loading → Type 0
Counts n s (ok x, s') = length s'.0 ≡ length s.0 + n
Counts n s (err e, s') = Unit

Counts-shift :
    {B : Type 0} (a b : ℕ) (s s' : Loading) (o : Result RedisError B × Loading)
    → length s'.0 ≡ length s.0 + a
    → Counts b s' o
    → Counts (a + b) s o
Counts-shift a b s s' (ok y, t) h d = omega (arith, d, h)
Counts-shift a b s s' (err e, t) h d = tt

continue-Counts :
    {A B : Type 0} (a b : ℕ) (s : Loading) (o : Result RedisError A × Loading)
    (k : A → Exec Loading RedisError B)
    → Counts a s o
    → ((x : A) (t : Loading) → Counts b t (k x t))
    → Counts (a + b) s (continue o.0 k o.1)
continue-Counts a b s (ok x, s') k h step = Counts-shift a b s s' (k x s') h (step x s')
continue-Counts a b s (err e, s') k h step = tt

-- the entry is a match, or it adds nothing
parsed-Counts :
    (handler : OnInvalid) (stream id : String) (raw : Object) (o : Option (String × Match))
    (ms : List MatchWithMeta) (r : Redis)
    → Counts
        (length (push (match_of stream o) []))
        (ms, r)
        (kept ms (process_parsed handler stream id raw o r))
unfolding process_parsed
parsed-Counts handler stream id raw (some m) ms r = omega (arith, length-append ms (_ ∷ []))
parsed-Counts handler stream id raw none ms r = reported (report handler _ r)
  where
    acknowledged :
        (o : Result RedisError (Unit {0}) × Redis)
        → Counts 0 (ms, r) (kept ms (continue o.0 (λ u. pure none) o.1))
    acknowledged (ok u, r') = omega arith
    acknowledged (err e, r') = tt

    reported :
        (o : Result RedisError (Unit {0}) × Redis)
        → Counts 0 (ms, r) (kept ms (continue o.0 (λ u. xack stream id >>= λ v. pure none) o.1))
    reported (ok u, r') = acknowledged (xack stream id r')
    reported (err e, r') = tt

pub load_entries-Counts :
    (opts : Options) (stream : String) (es : List Arrival) (s : Loading)
    → Counts (length (valid opts.js (of_stream stream es))) s (load_entries opts stream es s)
unfolding load_entries process_entry
load_entries-Counts opts stream [] s = omega arith
load_entries-Counts opts stream ((now_ms, (id, fields)) ∷ rest) s =
    let o = parse_match_entry opts.js now_ms (id, fields) in
    let later = valid opts.js (of_stream stream rest) in
    rw (length-append (push (match_of stream o) []) later) (
      continue-Counts (length (push (match_of stream o) [])) (length later) s
        (kept s.0 (process_parsed opts.on_invalid stream id (fields_array_to_object fields) o s.1))
        (λ u. load_entries opts stream rest)
        (parsed-Counts opts.on_invalid stream id (fields_array_to_object fields) o s.0 s.1)
        (λ u t. load_entries-Counts opts stream rest t))

pub load_streams-Counts :
    (opts : Options) (l : List (String × List Arrival)) (any : Bool) (total : ℕ) (s : Loading)
    → Counts (length (valid opts.js (flat l))) s (load_streams opts l (any, total) s)
unfolding load_streams
load_streams-Counts opts [] any total s = omega arith
load_streams-Counts opts ((stream, []) ∷ rest) any total s =
    load_streams-Counts opts rest any total s
load_streams-Counts opts ((stream, e ∷ es) ∷ rest) any total s =
    let first = of_stream stream (e ∷ es) in
    rw
      (
        gather_append (λ x. push (valid_one opts.js x) []) first (flat rest),
        length-append (valid opts.js first) (valid opts.js (flat rest)),
      )
      (continue-Counts (length (valid opts.js first)) (length (valid opts.js (flat rest))) s
        (load_entries opts stream (e ∷ es) s)
        (λ u. load_streams opts rest (true, total + length (e ∷ es)))
        (load_entries-Counts opts stream (e ∷ es) s)
        (λ u t. load_streams-Counts opts rest true (total + length (e ∷ es)) t))

-- the total at the end counts every entry, unless something is thrown
abbrev pub HasTotal : ℕ → Result RedisError (Bool × ℕ) × Loading → Type 0
HasTotal n (ok (any, total), s) = total ≡ n
HasTotal n (err e, s) = Unit

continue-HasTotal :
    (n : ℕ) (o : Result RedisError (Unit {0}) × Loading) (k : Exec Loading RedisError (Bool × ℕ))
    → ((t : Loading) → HasTotal n (k t))
    → HasTotal n (continue o.0 (λ u. k) o.1)
continue-HasTotal n (ok u, s) k h = h s
continue-HasTotal n (err e, s) k h = tt

pub load_streams-HasTotal :
    (opts : Options) (l : List (String × List Arrival)) (any : Bool) (total : ℕ) (s : Loading)
    → HasTotal (total + size l) (load_streams opts l (any, total) s)
unfolding load_streams
load_streams-HasTotal opts [] any total s = omega arith
load_streams-HasTotal opts ((stream, []) ∷ rest) any total s =
    subst (λ n. HasTotal n (load_streams opts rest (any, total) s)) (omega arith)
      (load_streams-HasTotal opts rest any total s)
load_streams-HasTotal opts ((stream, e ∷ es) ∷ rest) any total s =
    let more = total + length (e ∷ es) in
    continue-HasTotal (total + (length (e ∷ es) + size rest)) (load_entries opts stream (e ∷ es) s)
      (load_streams opts rest (true, more))
      (λ t.
        subst (λ n. HasTotal n (load_streams opts rest (true, more) t)) (omega arith)
          (load_streams-HasTotal opts rest true more t))
