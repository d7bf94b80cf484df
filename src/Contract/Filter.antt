-- ===== src/Contract/Filter.antt =====
-- The split of a batch by what the chain reports.
use settlement_engine.Prelude.{
  ◌≡◌, refl, ap, String, Bool, not, List, [], ◌∷◌, keep, inl, inr, Bool-cases,
}
use settlement_engine.Schemas.{MatchWithMeta}
use settlement_engine.Contract.Settled.{CallResult, says_settled, filter_already_settled_matches}

module _ (uuid_to_bytes32 : String → String) (is_settled : String → CallResult) where
  -- the chain has answered, and says that the match is settled
  abbrev pub reported_settled : MatchWithMeta → Bool
  reported_settled m = says_settled (is_settled (uuid_to_bytes32 m.payload.match_id))

  -- The batch is split, in order: the matches that the chain reports as settled on one side, and all
  -- others, those whose read failed among them, on the other.
  pub filter_splits :
      (ms : List MatchWithMeta)
      → let r = filter_already_settled_matches uuid_to_bytes32 is_settled ms in
        (r.already_settled ≡ keep reported_settled ms)
        × (r.unsettled ≡ keep (λ m. not (reported_settled m)) ms)
  unfolding filter_already_settled_matches
  filter_splits [] = (refl, refl)
  filter_splits (m ∷ rest) = elim (Bool-cases (reported_settled m)) [
    | inl e ↦
        rw e (ap (λ (l : List MatchWithMeta). m ∷ l) (filter_splits rest).0, (filter_splits rest).1)
    | inr e ↦
        rw e ((filter_splits rest).0, ap (λ (l : List MatchWithMeta). m ∷ l) (filter_splits rest).1)
  ]
