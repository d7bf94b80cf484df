-- ===== src/Consumer/Startup.antt =====
-- `ensureConsumerGroup` and `processPendingEntriesOnStartup`: the consumer's own pending entries, then
-- stale entries of others, claimed. The replies of Redis are arguments by the round of the loop, whose
-- rounds are bounded by fuel; `none` is a loop that has not ended.
pub mod Loops
pub mod Bounds
pub mod Counting
pub mod Endings
use settlement_engine.Prelude.{
  ℕ, zero, suc, ◌+◌, ◌*◌, ◌≡◌, String, Bool, true, false, not, ◌||◌, Option, none, some, List, [],
  ◌∷◌, length, includes, leb, ltb, if◌then◌else◌,
}
use settlement_engine.Exec.{Exec, Result, ok, err, pure, throw, continue, ◌>>=◌}
use settlement_engine.Schemas.{MatchWithMeta}
use settlement_engine.Schemas.Value.{JavaScript}
use settlement_engine.Redis.{Redis, RedisError}
use settlement_engine.Consumer.{Arrival, OnInvalid, push, process_entry}
use settlement_engine.Consumer.Read.{Reply, failed, nothing, streams}

-- what XGROUP CREATE answers: it creates the group, or throws with a message
pub data GroupReply : Type 0 where
  created : GroupReply
  refused : String → GroupReply

unfoldable pub ensure_consumer_group : GroupReply → Result String (Unit {0})
unfolding includes
ensure_consumer_group created = ok tt
ensure_consumer_group (refused message) =
    if includes message "BUSYGROUP" then ok tt else err message

-- the matches so far, which an error keeps, and Redis
abbrev pub Loading : Type 0
Loading = List MatchWithMeta × Redis

abbrev pub kept :
    List MatchWithMeta
    → Result RedisError (Option MatchWithMeta) × Redis
    → Result RedisError (Unit {0}) × Loading
kept matches (ok m, r) = (ok tt, (push m matches, r))
kept matches (err e, r) = (err e, (matches, r))

pub record Options : Type 0 where
  pub js : JavaScript
  pub on_invalid : OnInvalid
  pub read_count : ℕ
  pub max_entries : Option ℕ

-- `maxEntries ?? readCount * 3`
abbrev pub cap : Options → ℕ
cap opts = elim opts.max_entries [ none ↦ opts.read_count * 3 | some n ↦ n ]

unfoldable pub load_entries : Options → String → List Arrival → Exec Loading RedisError (Unit {0})
unfolding process_entry
load_entries opts stream [] = pure tt
load_entries opts stream (e ∷ rest) =
    (λ (s : Loading). kept s.0 (process_entry opts.js opts.on_invalid stream e s.1)) >>= λ u.
    load_entries opts stream rest

abbrev pub is_empty {ℓ} : {A : Type ℓ} → List A → Bool
is_empty [] = true
is_empty (x ∷ xs) = false

-- the loop over the streams of a reply, with `processedAny` and `totalEntriesProcessed`
unfoldable pub load_streams :
    Options → List (String × List Arrival) → Bool × ℕ → Exec Loading RedisError (Bool × ℕ)
unfolding load_entries
load_streams opts [] progress = pure progress
load_streams opts ((stream, entries) ∷ rest) (any, total) =
    if is_empty entries
    then load_streams opts rest (any, total)
    else load_entries opts stream entries >>= λ u.
        load_streams opts rest (true, total + length entries)

-- what a round leaves: whether the loop goes on
abbrev pub goes_on : ℕ → Result RedisError (Bool × ℕ) × Loading → Bool × Loading
goes_on read_count (ok (any, total), s) = (not (not any || ltb total read_count), s)
goes_on read_count (err e, s) = (false, s)

unfoldable pub own_round : Options → Reply → Loading → Bool × Loading
unfolding load_streams
own_round opts failed s = (false, s)
own_round opts nothing s = (false, s)
own_round opts (streams []) s = (false, s)
own_round opts (streams (x ∷ l)) s =
    goes_on opts.read_count (load_streams opts (x ∷ l) (false, 0) s)

module _ {S : Type 0} where
  abbrev pub loop_step : (S → Option S) → Bool → Bool × S → S → Option S
  loop_step again false o s = some s
  loop_step again true (false, s') s = some s'
  loop_step again true (true, s') s = again s'

  -- `while (more && guard(s)) { (more, s) = round(s) }`
  unfoldable pub loop : (S → Bool) → (ℕ → S → Bool × S) → ℕ → ℕ → S → Option S
  loop guard round zero k s = none
  loop guard round (suc fuel) k s =
      loop_step (loop guard round fuel (suc k)) (guard s) (round k s) s

-- `!(matches.length >= cap)`
abbrev pub has_room : Options → Loading → Bool
has_room opts s = not (leb (cap opts) (length s.0))

-- `matches.length < cap`
abbrev pub below_cap : Options → Loading → Bool
below_cap opts s = ltb (length s.0) (cap opts)

-- the loop over the consumer's own pending entries
abbrev pub own_pending : Options → (ℕ → Reply) → ℕ → Loading → Option Loading
own_pending opts replies fuel s = loop (has_room opts) (λ k. own_round opts (replies k)) fuel 0 s

-- what the three commands of a round of claims answer: the total of XPENDING, `none` without one; the ids of
-- its details; the entries that XCLAIM hands over. A command that throws is `none` of the outer option.
pub record ClaimReplies : Type 0 where
  pub summary : Option (Option ℕ)
  pub details : Option (List String)
  pub claimed : Option (List Arrival)

abbrev pub claims_go_on : ℕ → ℕ → Result RedisError (Unit {0}) × Loading → Bool × Loading
claims_go_on read_count asked (ok _, s) = (not (ltb asked read_count), s)
claims_go_on read_count asked (err e, s) = (false, s)

unfoldable pub claim :
    Options → String → Option (List String) → Option (List Arrival) → Loading → Bool × Loading
unfolding load_entries
claim opts stream (some (i ∷ ids)) (some entries) s =
    claims_go_on opts.read_count (length (i ∷ ids)) (load_entries opts stream entries s)
claim opts stream details claimed s = (false, s)

unfoldable pub stale_round : Options → String → ClaimReplies → Loading → Bool × Loading
unfolding claim
stale_round opts stream replies s = elim replies.summary [
  | some (some (suc total)) ↦ claim opts stream replies.details replies.claimed s
  | _ ↦ (false, s)
]

-- the loop over stale entries of other consumers
abbrev pub stale_entries : Options → String → (ℕ → ClaimReplies) → ℕ → Loading → Option Loading
stale_entries opts stream claims fuel s =
    loop (below_cap opts) (λ k. stale_round opts stream (claims k)) fuel 0 s

abbrev pub claim_after : Options → String → (ℕ → ClaimReplies) → ℕ → Option Loading → Option Loading
claim_after opts stream claims fuel none = none
claim_after opts stream claims fuel (some s) = stale_entries opts stream claims fuel s

unfoldable pub process_pending_entries :
    Options → String → (ℕ → Reply) → (ℕ → ClaimReplies) → ℕ → Redis → Option Loading
unfolding loop own_round stale_round
process_pending_entries opts stream replies claims fuel r =
    claim_after opts stream claims fuel (own_pending opts replies fuel ([], r))
