-- ===== src/Consumer/Startup/Bounds.antt =====
-- How many matches a reclaim can load.
use settlement_engine.Prelude.{
  ℕ, zero, suc, ◌+◌, ◌-◌, ◌≤◌, ◌<◌, ◌≡◌, refl, sym, ◌∙◌, inl, inr, String, ap, not, Bool, true,
  false, Option, none, some, Option-cases, List, [], ◌∷◌, length, leb, ltb, length-append, arith,
}
use mathlib.Core.Option.{none-ne-some}
use settlement_engine.Exec.{Exec, Result, ok, err, continue, ◌>>=◌}
use settlement_engine.Schemas.{MatchWithMeta}
use settlement_engine.Redis.{Redis, RedisError}
use settlement_engine.Consumer.{Arrival, process_entry}
use settlement_engine.Consumer.Read.{Reply, failed, nothing, streams}
use settlement_engine.Consumer.Startup.Loops.{loop_keeps}
use settlement_engine.Consumer.Startup.{
  has_room, below_cap, Loading, kept, Options, cap, load_entries, load_streams, goes_on, own_round,
  own_pending, ClaimReplies, claims_go_on, claim, stale_round, claim_after, process_pending_entries,
}

-- loads `n` matches at most
record Adds {A : Type 0} (n : ℕ) (m : Exec Loading RedisError A) : Type 0 where
  at : (s : Loading) → length (m s).1.0 ≤ length s.0 + n

bind-Adds :
    {A B : Type 0} (a b : ℕ) (m : Exec Loading RedisError A) (k : A → Exec Loading RedisError B)
    → Adds a m
    → ((x : A) → Adds b (k x))
    → Adds (a + b) (m >>= k)
bind-Adds a b m k hm hk = record { at = λ s. go s (m s) (hm.at s) }
  where
    go :
        (s : Loading) (o : Result RedisError _ × Loading)
        → length o.1.0 ≤ length s.0 + a
        → length (continue o.0 k o.1).1.0 ≤ length s.0 + (a + b)
    go s (ok x, s') h = omega (arith, (hk x).at s')
    go s (err e, s') h = omega arith

kept-Adds :
    (ms : List MatchWithMeta) (o : Result RedisError (Option MatchWithMeta) × Redis)
    → length (kept ms o).1.0 ≤ length ms + 1
kept-Adds ms (ok none, r) = omega arith
kept-Adds ms (ok (some m), r) = omega (arith, length-append ms (m ∷ []))
kept-Adds ms (err e, r) = omega arith

load_entries-Adds :
    (opts : Options) (stream : String) (es : List Arrival)
    → Adds (length es) (load_entries opts stream es)
unfolding load_entries
load_entries-Adds opts stream [] = record { at = λ s. omega arith }
load_entries-Adds opts stream (e ∷ rest) = record {
  at = λ s. omega (
    arith,
    (bind-Adds 1 (length rest)
          (λ (s : Loading). kept s.0 (process_entry opts.js opts.on_invalid stream e s.1))
          (λ u. load_entries opts stream rest)
          (record { at = λ s. kept-Adds s.0 (process_entry opts.js opts.on_invalid stream e s.1) })
          (λ u. load_entries-Adds opts stream rest)).at
        s,
  );
}

-- the number of entries of a reply
abbrev pub size : List (String × List Arrival) → ℕ
size [] = 0
size ((stream, entries) ∷ rest) = length entries + size rest

load_streams-Adds :
    (opts : Options) (l : List (String × List Arrival)) (any : Bool) (total : ℕ)
    → Adds (size l) (load_streams opts l (any, total))
unfolding load_streams
load_streams-Adds opts [] any total = record { at = λ s. omega arith }
load_streams-Adds opts ((stream, []) ∷ rest) any total = record {
  at = λ s. omega (arith, (load_streams-Adds opts rest any total).at s);
}
load_streams-Adds opts ((stream, e ∷ es) ∷ rest) any total =
    bind-Adds (length (e ∷ es)) (size rest) (load_entries opts stream (e ∷ es))
      (λ u. load_streams opts rest (true, total + length (e ∷ es)))
      (load_entries-Adds opts stream (e ∷ es))
      (λ u. load_streams-Adds opts rest true (total + length (e ∷ es)))

-- COUNT: a reply holds `read_count` entries at most
abbrev pub FitsReply : ℕ → Reply → Type 0
FitsReply n failed = Unit
FitsReply n nothing = Unit
FitsReply n (streams l) = size l ≤ n

-- XPENDING gives `read_count` ids at most, XCLAIM no more entries than it is asked for
abbrev pub FitsClaim : ℕ → ClaimReplies → Type 0
FitsClaim n c =
    ((ids : List String) → c.details ≡ some ids → length ids ≤ n)
    × ((ids : List String) (es : List Arrival)
        → c.details ≡ some ids
        → c.claimed ≡ some es
        → length es ≤ length ids)

goes_on_keeps : (n : ℕ) (o : Result RedisError (Bool × ℕ) × Loading) → (goes_on n o).1 ≡ o.1
goes_on_keeps n (ok (any, total), s) = refl
goes_on_keeps n (err e, s) = refl

claims_go_on_keeps :
    (n asked : ℕ) (o : Result RedisError (Unit {0}) × Loading) → (claims_go_on n asked o).1 ≡ o.1
claims_go_on_keeps n asked (ok u, s) = refl
claims_go_on_keeps n asked (err e, s) = refl

own_round_adds :
    (opts : Options) (reply : Reply) (s : Loading)
    → FitsReply opts.read_count reply
    → length (own_round opts reply s).1.0 ≤ length s.0 + opts.read_count
unfolding own_round
own_round_adds opts failed s h = omega arith
own_round_adds opts nothing s h = omega arith
own_round_adds opts (streams []) s h = omega arith
own_round_adds opts (streams (x ∷ l)) s h =
    rw (goes_on_keeps opts.read_count (load_streams opts (x ∷ l) (false, 0) s))
      (omega (arith, (load_streams-Adds opts (x ∷ l) false 0).at s))

claim_adds :
    (opts : Options) (stream : String) (ids : Option (List String)) (es : Option (List Arrival))
    (s : Loading)
    → ((l : List String) → ids ≡ some l → length l ≤ opts.read_count)
    → ((l : List String) (t : List Arrival) → ids ≡ some l → es ≡ some t → length t ≤ length l)
    → length (claim opts stream ids es s).1.0 ≤ length s.0 + opts.read_count
unfolding claim
claim_adds opts stream none es s h k = omega arith
claim_adds opts stream (some []) es s h k = omega arith
claim_adds opts stream (some (i ∷ ids)) none s h k = omega arith
claim_adds opts stream (some (i ∷ ids)) (some es) s h k =
    rw (claims_go_on_keeps opts.read_count (length (i ∷ ids)) (load_entries opts stream es s)) (
      omega (
        arith,
        (load_entries-Adds opts stream es).at s,
        h (i ∷ ids) refl,
        k (i ∷ ids) es refl refl,
      ))

stale_round_adds :
    (opts : Options) (stream : String) (c : ClaimReplies) (s : Loading)
    → FitsClaim opts.read_count c
    → length (stale_round opts stream c s).1.0 ≤ length s.0 + opts.read_count
unfolding stale_round
stale_round_adds opts stream c s h = go c.summary
  where
    go :
        (o : Option (Option ℕ))
        → length (stale_round opts stream (record c { summary = o }) s).1.0
          ≤ length s.0 + opts.read_count
    go none = omega arith
    go (some none) = omega arith
    go (some (some zero)) = omega arith
    go (some (some (suc n))) = claim_adds opts stream c.details c.claimed s h.0 h.1

-- at most `read_count - 1` over the cap
abbrev Within : Options → Loading → Type 0
Within opts s = length s.0 ≤ cap opts + (opts.read_count - 1)

pub room_left : (a b : ℕ) → not (leb a b) ≡ true → b < a
room_left a b h = ground (arith, h)

pub ltb-true : (a b : ℕ) → ltb a b ≡ true → a < b
ltb-true a b h = ground (arith, h)

-- A reclaim that ends has loaded at most `read_count - 1` matches more than its cap, where Redis heeds
-- COUNT in its replies and claims no entry that it was not asked for.
pub pending_load_bounded :
    (opts : Options) (stream : String) (replies : ℕ → Reply) (claims : ℕ → ClaimReplies) (fuel : ℕ)
    (r : Redis) (e : Loading)
    → ((i : ℕ) → FitsReply opts.read_count (replies i))
    → ((i : ℕ) → FitsClaim opts.read_count (claims i))
    → process_pending_entries opts stream replies claims fuel r ≡ some e
    → length e.0 ≤ cap opts + (opts.read_count - 1)
unfolding process_pending_entries
pending_load_bounded opts stream replies claims fuel r e fits fits' done =
    elim (Option-cases (own_pending opts replies fuel ([], r))) [
      | inl stuck ↦
          absurd (none-ne-some e (sym (ap (claim_after opts stream claims fuel) stuck) ∙ done))
      | inr (s, own) ↦
          loop_keeps (below_cap opts) (λ k. stale_round opts stream (claims k)) (Within opts)
            (λ k t room h. omega (
              arith,
              stale_round_adds opts stream (claims k) t (fits' k),
              ltb-true (length t.0) (cap opts) room,
            ))
            fuel 0 s e
            (loop_keeps (has_room opts) (λ k. own_round opts (replies k)) (Within opts)
              (λ k t room h. omega (
                arith,
                own_round_adds opts (replies k) t (fits k),
                room_left (cap opts) (length t.0) room,
              ))
              fuel 0 ([], r) s (omega arith) own)
            (sym (ap (claim_after opts stream claims fuel) own) ∙ done)
    ]
