-- ===== src/Sweeper/Reads.antt =====
-- What the sweep finds in the map of the reads.
use settlement_engine.Prelude.{
  ◌≡◌, refl, ap, ◌∙◌, String, Bool, true, false, Option, none, some, List, [], ◌∷◌, any, str_eq,
  eq_iff, inl, inr, Bool-cases, if◌then◌else◌,
}
use settlement_engine.Contract.Settled.{
  CallResult, success, failure, check_matches_settled_on_chain, settled_of,
}

-- what a read says of a match, with nothing for one that failed
abbrev pub answer_of : CallResult → Option Bool
answer_of (success b) = some b
answer_of failure = none

-- the lookup in a map whose first key is asked for or not, and has a read or not
abbrev first_found : Bool → Option Bool → Option Bool → Option Bool
first_found false o rest = rest
first_found true none rest = rest
first_found true (some b) rest = some b

settled_of-entry :
    (r : CallResult) (i j : String) (l : List (String × Bool))
    → settled_of i (elim r [ success b ↦ (j, b) ∷ l | failure ↦ l ])
      ≡ first_found (str_eq j i) (answer_of r) (settled_of i l)
unfolding settled_of
settled_of-entry (success b) i j l = elim (Bool-cases (str_eq j i)) [
  | inl e ↦ rw e refl
  | inr e ↦ rw e refl
]
settled_of-entry failure i j l = elim (Bool-cases (str_eq j i)) [
  | inl e ↦ rw e refl
  | inr e ↦ rw e refl
]

first_found_same : (o : Option Bool) (b : Bool) → first_found true o (if b then o else none) ≡ o
first_found_same none true = refl
first_found_same none false = refl
first_found_same (some x) b = refl

module _ (uuid_to_bytes32 : String → String) (is_settled : String → CallResult) where
  abbrev pub read : String → Option Bool
  read i = answer_of (is_settled (uuid_to_bytes32 i))

  -- every id that was asked for is found with its read, and no other
  pub settled_of-checked :
      (i : String) (ids : List String)
      → settled_of i (check_matches_settled_on_chain uuid_to_bytes32 is_settled ids)
        ≡ (if any (λ j. str_eq j i) ids then read i else none)
  unfolding settled_of check_matches_settled_on_chain
  settled_of-checked i [] = refl
  settled_of-checked i (j ∷ ids) =
      settled_of-entry (is_settled (uuid_to_bytes32 j)) i j
        (check_matches_settled_on_chain uuid_to_bytes32 is_settled ids)
      ∙ rw (settled_of-checked i ids) (elim (Bool-cases (str_eq j i)) [
        | inl e ↦ rw e (
            ap (λ o. first_found true o (if any (λ k. str_eq k i) ids then read i else none))
              (ap read ((eq_iff j i).0 e))
            ∙ first_found_same (read i) (any (λ k. str_eq k i) ids))
        | inr e ↦ rw e refl
      ])
