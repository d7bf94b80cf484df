-- ===== src/Batch/Acks/Commands.antt =====
-- The commands on the stream, seen through a property of entries that every acknowledged one has.
use mathlib.Core.Path.{subst}
use settlement_engine.Prelude.{
  ℕ, zero, suc, String, Bool, true, false, List, [], ◌∷◌, ◌++◌, str_eq, eq_iff, inl, inr,
  Bool-cases, All, drop, length, sym,
}
use settlement_engine.Exec.{Result, ok, err, pure, continue, ◌>>◌}
use settlement_engine.Schemas.{MatchWithMeta}
use settlement_engine.Redis.{Redis, RedisError, Command, command}
use settlement_engine.Batch.{
  push_id, ids_by_stream, ack_ids, ack_groups, delete_ids, delete_groups, ack_and_delete_entries,
  delete_batch_size,
}

abbrev pub Entry : Type 0
Entry = String × String

abbrev pub entry_of : MatchWithMeta → Entry
entry_of m = (m.stream, m.id)

module _ (P : Entry → Type 0) where
  All-append_one : (l : List Entry) (e : Entry) → All P l → P e → All P (l ++ e ∷ [])
  All-append_one [] e h p = (p, tt)
  All-append_one (x ∷ l) e h p = (h.0, All-append_one l e h.1 p)

  -- a command after which every acknowledged entry still has the property
  record KeepsAcked (m : Command) : Type 0 where
    at : (r : Redis) → All P r.acked → All P (m r).1.acked

  command-KeepsAcked :
      (f : Redis → Redis)
      → ((r : Redis) → All P r.acked → All P (f r).acked)
      → KeepsAcked (command f)
  unfolding command
  command-KeepsAcked f step = record { at = λ r h. go r.faults r h }
    where
      go :
          (l : List Bool) (r : Redis)
          → All P r.acked
          → All P (command f (record r { faults = l })).1.acked
      go [] r h = step (record r { faults = [] }) h
      go (true ∷ l) r h = h
      go (false ∷ l) r h = step (record r { faults = l }) h

  then-KeepsAcked : {m k : Command} → KeepsAcked m → KeepsAcked k → KeepsAcked (m >> k)
  then-KeepsAcked {m} {k} hm hk = record { at = λ r h. go (m r) (hm.at r h) }
    where
      go :
          (o : Result RedisError (Unit {0}) × Redis)
          → All P o.1.acked
          → All P (continue o.0 (λ _. k) o.1).1.acked
      go (ok a, r) h = hk.at r h
      go (err e, r) h = h

  pure-KeepsAcked : KeepsAcked (pure tt)
  pure-KeepsAcked = record { at = λ r h. h }

  ack_ids-KeepsAcked :
      (stream : String) (ids : List String)
      → All (λ i. P (stream, i)) ids
      → KeepsAcked (ack_ids stream ids)
  ack_ids-KeepsAcked stream [] h = pure-KeepsAcked
  ack_ids-KeepsAcked stream (i ∷ rest) h =
      then-KeepsAcked (command-KeepsAcked _ (λ r k. All-append_one r.acked (stream, i) k h.0))
        (ack_ids-KeepsAcked stream rest h.1)

  abbrev Groups : List (String × List String) → Type 0
  Groups = All (λ g. All (λ i. P (g.0, i)) g.1)

  ack_groups-KeepsAcked :
      (gs : List (String × List String)) → Groups gs → KeepsAcked (ack_groups gs)
  ack_groups-KeepsAcked [] h = pure-KeepsAcked
  ack_groups-KeepsAcked ((stream, ids) ∷ rest) h =
      then-KeepsAcked (ack_ids-KeepsAcked stream ids h.0) (ack_groups-KeepsAcked rest h.1)

  All-ids_append :
      (stream : String) (ids : List String) (i : String)
      → All (λ j. P (stream, j)) ids
      → P (stream, i)
      → All (λ j. P (stream, j)) (ids ++ i ∷ [])
  All-ids_append stream [] i h p = (p, tt)
  All-ids_append stream (j ∷ ids) i h p = (h.0, All-ids_append stream ids i h.1 p)

  push_id-Groups :
      (stream i : String) (gs : List (String × List String))
      → Groups gs
      → P (stream, i)
      → Groups (push_id stream i gs)
  unfolding push_id
  push_id-Groups stream i [] h p = ((p, tt), tt)
  push_id-Groups stream i ((s, ids) ∷ rest) h p = elim (Bool-cases (str_eq s stream)) [
    | inl e ↦
        rw e
          (All-ids_append s ids i h.0 (subst (λ x. P (x, i)) (sym ((eq_iff s stream).0 e)) p), h.1)
    | inr e ↦ rw e (h.0, push_id-Groups stream i rest h.1 p)
  ]

  ids_by_stream-Groups :
      (gs : List (String × List String)) (ms : List MatchWithMeta)
      → Groups gs
      → All (λ m. P (entry_of m)) ms
      → Groups (ids_by_stream gs ms)
  unfolding ids_by_stream
  ids_by_stream-Groups gs [] h k = h
  ids_by_stream-Groups gs (m ∷ rest) h k =
      ids_by_stream-Groups (push_id m.stream m.id gs) rest (push_id-Groups m.stream m.id gs h k.0)
        k.1

  delete_ids-KeepsAcked :
      (rounds : ℕ) (stream : String) (ids : List String) → KeepsAcked (delete_ids rounds stream ids)
  unfolding delete_ids
  delete_ids-KeepsAcked zero stream ids = pure-KeepsAcked
  delete_ids-KeepsAcked (suc rounds) stream [] = pure-KeepsAcked
  delete_ids-KeepsAcked (suc rounds) stream (i ∷ ids) =
      then-KeepsAcked (command-KeepsAcked _ (λ r h. h))
        (delete_ids-KeepsAcked rounds stream (drop delete_batch_size (i ∷ ids)))

  delete_groups-KeepsAcked : (gs : List (String × List String)) → KeepsAcked (delete_groups gs)
  delete_groups-KeepsAcked [] = pure-KeepsAcked
  delete_groups-KeepsAcked ((stream, ids) ∷ rest) =
      then-KeepsAcked (delete_ids-KeepsAcked (length ids) stream ids)
        (delete_groups-KeepsAcked rest)

  pub ack_and_delete-keeps :
      (ms : List MatchWithMeta) (r : Redis)
      → All (λ m. P (entry_of m)) ms
      → All P r.acked
      → All P (ack_and_delete_entries ms r).1.acked
  unfolding ack_and_delete_entries
  ack_and_delete-keeps ms r h =
      (then-KeepsAcked
          (ack_groups-KeepsAcked (ids_by_stream [] ms) (ids_by_stream-Groups [] ms tt h))
          (delete_groups-KeepsAcked (ids_by_stream [] ms))).at
        r
