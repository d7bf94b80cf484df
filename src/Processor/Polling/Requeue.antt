-- ===== src/Processor/Polling/Requeue.antt =====
-- A reclaim while a batch is in flight: the entries of the batch are not acknowledged yet, so the reclaim
-- reads them again.
use mathlib.Core.Path.{subst}
use mathlib.Core.List.{append_assoc}
use settlement_engine.Prelude.{
  ℕ, zero, suc, ◌-◌, ◌≤◌, ◌≡◌, refl, sym, ap, ◌∙◌, String, Bool, true, false, List, [], ◌∷◌, ◌++◌,
  any, take, length, str_eq, eq_iff, arith,
}
use settlement_engine.Schemas.{MatchWithMeta}
use settlement_engine.Accumulator.{BatchAccumulator, add_matches, should_process, get_batch}
use settlement_engine.Accumulator.Queue.{IsValid, ids_of, distinct, fresh, add_matches-appends}
use settlement_engine.Processor.Polling.{Polling, process_if_due, reclaim_done}

any-at :
    (p : String → Bool) (l r : List String) (i : String) → any p (l ++ i ∷ r) ≡ false → p i ≡ false
any-at p [] r i h = ground (arith, h)
any-at p (j ∷ l) r i h = any-at p l r i (ground (arith, h))

unseen : (l r : List String) (i : String) → distinct (l ++ i ∷ r) ≡ true → any (str_eq i) l ≡ false
unseen [] r i h = refl
unseen (j ∷ l) r i h =
    let apart : str_eq j i ≡ false = any-at (str_eq j) l r i (ground (arith, h)) in
    let later : any (str_eq i) l ≡ false = unseen l r i (ground (arith, h)) in
    ground (arith, apart, later, eq_iff i j, eq_iff j i)

fresh_all :
    (seen : List String) (ms : List MatchWithMeta)
    → distinct (seen ++ ids_of ms) ≡ true
    → fresh seen ms ≡ ms
fresh_all seen [] h = refl
fresh_all seen (m ∷ rest) h =
    rw (fresh, unseen seen (ids_of rest) m.id h)
      (ap (λ l. m ∷ l)
        (fresh_all (seen ++ m.id ∷ []) rest
          (subst (λ l. distinct l ≡ true) (sym (append_assoc seen (m.id ∷ []) (ids_of rest))) h)))

take_all : (n : ℕ) (ms : List MatchWithMeta) → length ms ≤ n → take n ms ≡ ms
take_all zero [] h = refl
take_all zero (m ∷ ms) h = absurd (omega (arith, h))
take_all (suc n) [] h = refl
take_all (suc n) (m ∷ ms) h = ap (λ l. m ∷ l) (take_all n ms (omega (arith, h)))

-- A reclaim that ends while a batch is in flight, and reads the entries of the batch, puts the whole
-- batch into the queue again, since the accumulator forgets the ids of a batch that it has handed over.
pub reclaim_requeues_in_flight :
    (now : ℕ) (p : Polling)
    → IsValid p.accumulator
    → should_process now p.accumulator ≡ true
    → let q = process_if_due now p in
      (q.in_flight ≡ p.accumulator.queue ∷ p.in_flight)
      × ((reclaim_done p.accumulator.queue q).accumulator.queue ≡ p.accumulator.queue)
unfolding process_if_due reclaim_done get_batch
reclaim_requeues_in_flight now p v due =
    let a = p.accumulator in
    let emptied : BatchAccumulator = (get_batch now a).1 in
    let all_fresh = fresh_all [] a.queue (subst (λ l. distinct l ≡ true) v.tracked v.once) in
    let room : length a.queue ≤ a.max_capacity - 0 = omega (arith, v.fits) in
    let again : (add_matches a.queue emptied).queue ≡ a.queue =
      add_matches-appends a.queue emptied
      ∙ ap (take (a.max_capacity - 0)) all_fresh
      ∙ take_all (a.max_capacity - 0) a.queue room in
    (rw due refl, rw due again)
