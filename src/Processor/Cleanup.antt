-- ===== src/Processor/Cleanup.antt =====
-- The clean-up after a batch that has failed for good.
use settlement_engine.Prelude.{◌≡◌, refl, ap, ◌∙◌, List, [], ◌∷◌, ◌++◌, map}
use settlement_engine.Exec.{Result, ok}
use settlement_engine.Schemas.{MatchWithMeta}
use settlement_engine.Redis.{Redis, RedisError, command}
use settlement_engine.Database.Tables.{Db}
use settlement_engine.Database.Connection.{PgError, Session}
use settlement_engine.Database.Effect.{calm}
use settlement_engine.Database.Failure.{orders_restored}
use settlement_engine.Database.BatchFailure.{each, unlock_work, marked, batch_cleanup_returns}
use settlement_engine.Batch.{World, BatchProcessingError, payloads}
use settlement_engine.Batch.Acks.Commands.{Entry, entry_of}
use settlement_engine.Processor.{clean_up, remove_entries, batch_failure_reason}

append_step : {A : Type 0} (xs : List A) (e : A) (zs : List A) → (xs ++ e ∷ []) ++ zs ≡ xs ++ e ∷ zs
append_step [] e zs = refl
append_step (x ∷ xs) e zs = ap (λ l. x ∷ l) (append_step xs e zs)

append_nil : {A : Type 0} (xs : List A) → xs ++ [] ≡ xs
append_nil [] = refl
append_nil (x ∷ xs) = ap (λ l. x ∷ l) (append_nil xs)

abbrev pub entries : List MatchWithMeta → List Entry
entries = map entry_of

-- the stream after the entries were removed, where no command fails
abbrev pub removed : List MatchWithMeta → Redis → Redis
removed ms r = record r {
  acked = r.acked ++ entries ms;
  deleted = r.deleted ++ entries ms;
  faults = [];
}

remove_entries-returns :
    (ms : List MatchWithMeta) (r : Redis)
    → remove_entries ms (record r { faults = [] }) ≡ (ok tt, removed ms r)
unfolding remove_entries command
remove_entries-returns [] r = rw (append_nil r.acked, append_nil r.deleted) refl
remove_entries-returns (m ∷ rest) r =
    remove_entries-returns rest
      (record r { acked = r.acked ++ entry_of m ∷ []; deleted = r.deleted ++ entry_of m ∷ [] })
    ∙ rw
        (
          append_step r.acked (entry_of m) (entries rest),
          append_step r.deleted (entry_of m) (entries rest),
        )
        refl

-- Where no query and no command fails, the clean-up releases the locks of all matches of the batch, marks
-- them FAILED and restores their orders, and acknowledges and deletes each of their entries.
pub clean_up-calm :
    (ms : List MatchWithMeta) (e : BatchProcessingError) (w : World) (d : Db)
    → w.session ≡ calm d
    → w.redis.faults ≡ []
    → let after = clean_up ms e w in
      (after.session
        ≡ calm (
            each orders_restored (payloads ms) (
              each
                (marked (batch_failure_reason e))
                (payloads ms)
                (each unlock_work (payloads ms) d))))
      × (after.redis ≡ removed ms w.redis)
      × (after.nonce_manager ≡ w.nonce_manager)
unfolding clean_up
clean_up-calm ms e w d calm_session no_faults = (
  rw calm_session (
      rw (batch_cleanup_returns (payloads ms) (batch_failure_reason e) d).0 (
        rw (batch_cleanup_returns (payloads ms) (batch_failure_reason e) unlocked).1 (
          ap (λ (r : Result PgError (Unit {0}) × Session). r.1)
            (batch_cleanup_returns (payloads ms) (batch_failure_reason e) recorded).2))),
  ap (λ (r : Result RedisError (Unit {0}) × Redis). r.1)
      (ap (λ l. remove_entries ms (record w.redis { faults = l })) no_faults
        ∙ remove_entries-returns ms w.redis),
  refl,
)
  where
    unlocked : Db
    unlocked = each unlock_work (payloads ms) d

    recorded : Db
    recorded =
        each (marked (batch_failure_reason e)) (payloads ms) (each unlock_work (payloads ms) d)
