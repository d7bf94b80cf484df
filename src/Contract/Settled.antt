-- ===== src/Contract/Settled.antt =====
-- What the chain says of a match: `filterAlreadySettledMatches` and `checkMatchesSettledOnChain`. The
-- multicall gives one result for each call, in order; `is_settled` is its result for a hashed id.
use settlement_engine.Prelude.{
  String, Bool, false, Option, none, some, List, [], ◌∷◌, str_eq, if◌then◌else◌,
}
use settlement_engine.Schemas.{MatchWithMeta}

pub data CallResult : Type 0 where
  success : Bool → CallResult
  failure : CallResult

-- `result.status === 'success' && result.result === true`
abbrev pub says_settled : CallResult → Bool
says_settled (success b) = b
says_settled failure = false

pub record FilterAlreadySettledResult : Type 0 where
  pub unsettled : List MatchWithMeta
  pub already_settled : List MatchWithMeta

module _ (uuid_to_bytes32 : String → String) (is_settled : String → CallResult) where
  unfoldable pub filter_already_settled_matches : List MatchWithMeta → FilterAlreadySettledResult
  filter_already_settled_matches [] = record { unsettled = []; already_settled = [] }
  filter_already_settled_matches (m ∷ rest) =
      let r = filter_already_settled_matches rest in
      if says_settled (is_settled (uuid_to_bytes32 m.payload.match_id))
      then record r { already_settled = m ∷ r.already_settled }
      else record r { unsettled = m ∷ r.unsettled }

  -- `settled.get(id)` on the map that `checkMatchesSettledOnChain` returns: a failed read has no entry.
  unfoldable pub check_matches_settled_on_chain : List String → List (String × Bool)
  check_matches_settled_on_chain [] = []
  check_matches_settled_on_chain (i ∷ rest) = elim (is_settled (uuid_to_bytes32 i)) [
    | success b ↦ (i, b) ∷ check_matches_settled_on_chain rest
    | failure ↦ check_matches_settled_on_chain rest
  ]

unfoldable pub settled_of : String → List (String × Bool) → Option Bool
settled_of i [] = none
settled_of i ((j, b) ∷ rest) = if str_eq j i then some b else settled_of i rest
