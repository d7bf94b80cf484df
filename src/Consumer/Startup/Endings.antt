-- ===== src/Consumer/Startup/Endings.antt =====
-- When a reclaim ends, and when its claims go on for ever.
use settlement_engine.Prelude.{
  ℕ, zero, suc, ◌+◌, ◌-◌, ◌≤◌, ◌<◌, ◌≡◌, refl, ap, ◌∙◌, String, Bool, true, false, Option, none,
  some, List, [], ◌∷◌, length, ltb, arith,
}
use settlement_engine.Exec.{Result, ok, err}
use settlement_engine.Redis.{Redis, RedisError}
use settlement_engine.Consumer.{Arrival}
use settlement_engine.Consumer.Read.{Reply, failed, nothing, streams, flat, valid, of_stream}
use settlement_engine.Consumer.Startup.Loops.{loop_ends, loop_spins}
use settlement_engine.Consumer.Startup.Bounds.{size, room_left, ltb-true}
use settlement_engine.Consumer.Startup.{
  has_room, below_cap, Loading, Options, cap, load_entries, load_streams, goes_on, own_round,
  own_pending, ClaimReplies, claims_go_on, claim, stale_round, loop, loop_step, claim_after,
  process_pending_entries,
}
use settlement_engine.Consumer.Startup.Counting.{
  Counts, HasTotal, load_entries-Counts, load_streams-Counts, load_streams-HasTotal,
}

false_ne_true : false ≡ true → ⊥
false_ne_true h = ground (arith, h)

-- a reply that is as long as it can be holds a match
abbrev pub FruitfulReply : Options → Reply → Type 0
FruitfulReply opts failed = Unit
FruitfulReply opts nothing = Unit
FruitfulReply opts (streams l) = opts.read_count ≤ size l → 0 < length (valid opts.js (flat l))

-- of as many entries as can be claimed at once, one that is handed over is a match
abbrev pub FruitfulClaim : Options → String → ClaimReplies → Type 0
FruitfulClaim opts stream c =
    (ids : List String) (es : List Arrival)
    → c.details ≡ some ids
    → c.claimed ≡ some es
    → opts.read_count ≤ length ids
    → 0 < length (valid opts.js (of_stream stream es))

going_on :
    (n v m : ℕ) (s : Loading) (o : Result RedisError (Bool × ℕ) × Loading)
    → Counts v s o
    → HasTotal m o
    → (n ≤ m → 0 < v)
    → (goes_on n o).0 ≡ true
    → length s.0 < length (goes_on n o).1.0
going_on n v m s (ok (any, total), t) c h f g =
    let filled : n ≤ m = ground (arith, h, g) in omega (arith, c, f filled)
going_on n v m s (err e, t) c h f g = absurd (false_ne_true g)

own_round_fruitful :
    (opts : Options) (reply : Reply) (s : Loading)
    → FruitfulReply opts reply
    → (own_round opts reply s).0 ≡ true
    → length s.0 < length (own_round opts reply s).1.0
unfolding own_round
own_round_fruitful opts failed s f g = absurd (false_ne_true g)
own_round_fruitful opts nothing s f g = absurd (false_ne_true g)
own_round_fruitful opts (streams []) s f g = absurd (false_ne_true g)
own_round_fruitful opts (streams (x ∷ l)) s f g =
    going_on opts.read_count (length (valid opts.js (flat (x ∷ l)))) (0 + size (x ∷ l)) s
      (load_streams opts (x ∷ l) (false, 0) s) (load_streams-Counts opts (x ∷ l) false 0 s)
      (load_streams-HasTotal opts (x ∷ l) false 0 s) (λ h. f (omega (arith, h))) g

claims_going_on :
    (n asked v : ℕ) (s : Loading) (o : Result RedisError (Unit {0}) × Loading)
    → Counts v s o
    → (n ≤ asked → 0 < v)
    → (claims_go_on n asked o).0 ≡ true
    → length s.0 < length (claims_go_on n asked o).1.0
claims_going_on n asked v s (ok u, t) c f g =
    let filled : n ≤ asked = ground (arith, g) in omega (arith, c, f filled)
claims_going_on n asked v s (err e, t) c f g = absurd (false_ne_true g)

claim_fruitful :
    (opts : Options) (stream : String) (ids : Option (List String)) (es : Option (List Arrival))
    (s : Loading)
    → ((l : List String) (t : List Arrival)
        → ids ≡ some l
        → es ≡ some t
        → opts.read_count ≤ length l
        → 0 < length (valid opts.js (of_stream stream t)))
    → (claim opts stream ids es s).0 ≡ true
    → length s.0 < length (claim opts stream ids es s).1.0
unfolding claim
claim_fruitful opts stream none es s f g = absurd (false_ne_true g)
claim_fruitful opts stream (some []) es s f g = absurd (false_ne_true g)
claim_fruitful opts stream (some (i ∷ ids)) none s f g = absurd (false_ne_true g)
claim_fruitful opts stream (some (i ∷ ids)) (some es) s f g =
    claims_going_on opts.read_count (length (i ∷ ids))
      (length (valid opts.js (of_stream stream es))) s (load_entries opts stream es s)
      (load_entries-Counts opts stream es s) (f (i ∷ ids) es refl refl) g

stale_round_fruitful :
    (opts : Options) (stream : String) (c : ClaimReplies) (s : Loading)
    → FruitfulClaim opts stream c
    → (stale_round opts stream c s).0 ≡ true
    → length s.0 < length (stale_round opts stream c s).1.0
unfolding stale_round
stale_round_fruitful opts stream c s f = go c.summary
  where
    go :
        (o : Option (Option ℕ))
        → (stale_round opts stream (record c { summary = o }) s).0 ≡ true
        → length s.0 < length (stale_round opts stream (record c { summary = o }) s).1.0
    go none g = absurd (false_ne_true g)
    go (some none) g = absurd (false_ne_true g)
    go (some (some zero)) g = absurd (false_ne_true g)
    go (some (some (suc n))) g = claim_fruitful opts stream c.details c.claimed s f g

-- A reclaim ends in one round more than its cap for each of its two loops, whatever Redis answers and
-- whichever acknowledgement fails, where a reply of `read_count` entries or more holds a match, and so
-- do the entries handed over when `read_count` or more are claimed.
pub reclaim_ends :
    (opts : Options) (stream : String) (replies : ℕ → Reply) (claims : ℕ → ClaimReplies) (r : Redis)
    → ((i : ℕ) → FruitfulReply opts (replies i))
    → ((i : ℕ) → FruitfulClaim opts stream (claims i))
    → (e : Loading) × (process_pending_entries opts stream replies claims (suc (cap opts)) r
        ≡ some e)
unfolding process_pending_entries
reclaim_ends opts stream replies claims r f f' =
    let (s, own) =
      loop_ends (has_room opts) (λ k. own_round opts (replies k)) (λ t. cap opts - length t.0)
        (λ k t room more. omega (
          arith,
          own_round_fruitful opts (replies k) t (f k) more,
          room_left (cap opts) (length t.0) room,
        ))
        (suc (cap opts)) 0 ([], r) (omega arith) in
    let (e, stale) =
      loop_ends (below_cap opts) (λ k. stale_round opts stream (claims k))
        (λ t. cap opts - length t.0)
        (λ k t room more. omega (
          arith,
          stale_round_fruitful opts stream (claims k) t (f' k) more,
          ltb-true (length t.0) (cap opts) room,
        ))
        (suc (cap opts)) 0 s (omega arith) in
    (e, ap (claim_after opts stream claims (suc (cap opts))) own ∙ stale)

ended :
    (again : Loading → Option Loading) (b : Bool) (s : Loading)
    → loop_step again b (false, s) s ≡ some s
ended again true s = refl
ended again false s = refl

not_short : (n asked : ℕ) → n ≤ asked → ltb asked n ≡ false
not_short n asked h = ground (arith, h)

-- A reclaim never ends, whatever the fuel, where it has room for a match, it has no entry of its own
-- pending, and every XPENDING names `read_count` entries or more, not none, of which XCLAIM hands over
-- none: what it does for entries that have not been idle long enough.
pub reclaim_spins :
    (opts : Options) (stream : String) (replies : ℕ → Reply) (claims : ℕ → ClaimReplies) (r : Redis)
    (total : ℕ) (i : String) (ids : List String)
    → 0 < cap opts
    → opts.read_count ≤ suc (length ids)
    → replies 0 ≡ streams ((stream, []) ∷ [])
    → ((k : ℕ)
        → claims k ≡ record {
          summary = some (some (suc total));
          details = some (i ∷ ids);
          claimed = some [];
        })
    → (fuel : ℕ) → process_pending_entries opts stream replies claims fuel r ≡ none
unfolding process_pending_entries own_round load_streams load_entries stale_round claim loop
reclaim_spins opts stream replies claims r total i ids room many own stale zero = refl
reclaim_spins opts stream replies claims r total i ids room many own stale (suc fuel) =
    let own_done : own_pending opts replies (suc fuel) ([], r) ≡ some ([], r) =
      rw own (ended _ (has_room opts ([], r)) ([], r)) in
    ap (claim_after opts stream claims (suc fuel)) own_done
    ∙ loop_spins (below_cap opts) (λ k. stale_round opts stream (claims k)) ([], r)
        (ground (arith, room))
        (λ k. rw (stale k, not_short opts.read_count (suc (length ids)) many) refl) (suc fuel) 0
