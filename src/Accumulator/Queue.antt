-- ===== src/Accumulator/Queue.antt =====
-- What the queue holds: matches in the order of arrival, each stream entry once, up to the capacity.
use settlement_engine.Prelude.{
  ℕ, zero, suc, ◌-◌, ◌≤◌, ◌≡◌, refl, sym, ◌∙◌, String, Bool, true, false, not, ◌&&◌, ◌||◌, Option,
  List, [], ◌∷◌, ◌++◌, map, arith, length, length-append, take, any, leb, str_eq, eq_iff, inl, inr,
  Bool-cases,
}
use settlement_engine.Schemas.{MatchWithMeta}
use settlement_engine.Accumulator.{BatchAccumulator, create, accept, add_matches, get_batch}
use mathlib.Core.List.{append-nil, append_assoc, map-append}

-- no id twice
abbrev pub distinct : List String → Bool
distinct [] = true
distinct (i ∷ ids) = not (any (str_eq i) ids) && distinct ids

abbrev pub ids_of : List MatchWithMeta → List String
ids_of = map (λ m. m.id)

pub record IsValid (a : BatchAccumulator) : Type 0 where
  pub fits : length a.queue ≤ a.max_capacity
  pub tracked : a.seen_ids ≡ ids_of a.queue
  pub once : distinct a.seen_ids ≡ true

any-append :
    (p : String → Bool) (ids : List String) (i : String)
    → any p (ids ++ i ∷ []) ≡ (any p ids || p i)
any-append p [] i = ground arith
any-append p (j ∷ ids) i = ground (arith, any-append p ids i)

distinct-append :
    (ids : List String) (i : String)
    → distinct ids ≡ true
    → any (str_eq i) ids ≡ false
    → distinct (ids ++ i ∷ []) ≡ true
distinct-append [] i h n = refl
distinct-append (j ∷ ids) i h n =
    ground (arith, distinct-append ids i, any-append (str_eq j) ids i, eq_iff i j, eq_iff j i)

accept-IsValid :
    (m : MatchWithMeta) (a : BatchAccumulator)
    → IsValid a
    → leb a.max_capacity (length a.queue) ≡ false
    → IsValid (accept m a)
accept-IsValid m a v room = elim (Bool-cases (any (str_eq m.id) a.seen_ids)) [
  | inl e ↦ rw e v
  | inr e ↦ rw e (record {
    fits = ground (arith, length-append a.queue (m ∷ []));
    tracked = rw (map-append, v.tracked);
    once = distinct-append a.seen_ids m.id v.once e;
  })
]

-- `addMatches` keeps the queue within its capacity, free of repeated ids, and in step with the seen
-- ids.
pub add_matches-IsValid :
    (ms : List MatchWithMeta) (a : BatchAccumulator) → IsValid a → IsValid (add_matches ms a)
unfolding add_matches
add_matches-IsValid [] a v = v
add_matches-IsValid (m ∷ rest) a v = elim (Bool-cases (leb a.max_capacity (length a.queue))) [
  | inl full ↦ rw full v
  | inr room ↦ rw room (add_matches-IsValid rest (accept m a) (accept-IsValid m a v room))
]

-- A new accumulator is valid, and so is one after its batch has been taken.
pub create-IsValid :
    (size interval : ℕ) (cap : Option ℕ) (now : ℕ) → IsValid (create size interval cap now)
unfolding create
create-IsValid size interval cap now = record { fits = ground arith; tracked = refl; once = refl }

pub get_batch-IsValid : (now : ℕ) (a : BatchAccumulator) → IsValid (get_batch now a).1
unfolding get_batch
get_batch-IsValid now a = record { fits = omega arith; tracked = refl; once = refl }

-- the matches whose entry has not been seen, in order, each entry once
abbrev pub fresh : List String → List MatchWithMeta → List MatchWithMeta
fresh seen [] = []
fresh seen (m ∷ rest) = elim (any (str_eq m.id) seen) [
  | true ↦ fresh seen rest
  | false ↦ m ∷ fresh (seen ++ m.id ∷ []) rest
]

-- what is left of the capacity
abbrev pub room_of : BatchAccumulator → ℕ
room_of a = a.max_capacity - length a.queue

take-nil : (n : ℕ) → take {A = MatchWithMeta} n [] ≡ []
take-nil zero = refl
take-nil (suc n) = refl

abbrev pushed : MatchWithMeta → BatchAccumulator → BatchAccumulator
pushed m a = record a { queue = a.queue ++ m ∷ []; seen_ids = a.seen_ids ++ m.id ∷ [] }

-- `addMatches` appends the fresh matches, in order, as many as the capacity has room for, and drops
-- the others.
pub add_matches-appends :
    (ms : List MatchWithMeta) (a : BatchAccumulator)
    → (add_matches ms a).queue ≡ a.queue ++ take (room_of a) (fresh a.seen_ids ms)
unfolding add_matches
add_matches-appends [] a = rw (take-nil (room_of a)) (sym (append-nil a.queue))
add_matches-appends (m ∷ rest) a = elim (Bool-cases (leb a.max_capacity (length a.queue))) [
  | inl full ↦ rw full (let e : room_of a ≡ 0 = ground arith in rw e (sym (append-nil a.queue)))
  | inr room ↦ rw room (elim (Bool-cases (any (str_eq m.id) a.seen_ids)) [
    | inl old ↦ rw (old, fresh) (add_matches-appends rest a)
    | inr new ↦
        (let a' : BatchAccumulator = pushed m a in
          let e : room_of a ≡ suc (room_of a') = ground (arith, length-append a.queue (m ∷ [])) in
          rw (new, fresh)
            (rw e (
              add_matches-appends rest a'
              ∙ append_assoc a.queue (m ∷ []) (take (room_of a') (fresh a'.seen_ids rest)))))
  ])
]
