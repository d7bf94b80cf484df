-- ===== src/Helpers/Uuids.antt =====
-- settlement/helpers.ts: ids in the form of a UUID, on the code points of the texts. `sha1` is the SHA-1
-- digest of a text in hexadecimal digits.
use settlement_engine.Prelude.{
  ℕ, zero, suc, ◌+◌, ◌≡◌, refl, Codes, Bool, false, not, ◌==◌, Option, none, some, [], ◌∷◌, ◌++◌,
  take, drop, keep, length, ltb, if◌then◌else◌, arith, ap, ◌∙◌, sym,
}
use settlement_engine.Prelude.Text.{codes, codes_start_with}
use settlement_engine.Prelude.Joined.{has_code, split_at}

-- the template with its four dashes, for 32 digits
unfoldable pub uuid_form : Codes → Codes
uuid_form h =
    take 8 h
    ++ (b'-' ∷ take 4 (drop 8 h)
        ++ (b'-' ∷ take 4 (drop 12 h) ++ (b'-' ∷ take 4 (drop 16 h) ++ (b'-' ∷ drop 20 h))))

-- `none` where it throws
unfoldable pub bytes32_to_uuid : Codes → Option Codes
unfolding uuid_form codes_start_with codes
bytes32_to_uuid hex =
    let clean = if codes_start_with hex (codes "0x") then drop 2 hex else hex in
    if ltb (length clean) 32 then none else some (uuid_form (take 32 clean))

module _ (sha1 : Codes → Codes) where
  unfoldable pub hash_to_uuid_base : Codes → Codes
  unfolding uuid_form
  hash_to_uuid_base base = uuid_form (take 32 (sha1 base))

  unfoldable pub position_uuid_for : Codes → Codes → Codes
  unfolding hash_to_uuid_base
  position_uuid_for market_id wallet_lower = hash_to_uuid_base (market_id ++ b'-' ∷ wallet_lower)

  unfoldable pub cbt_asset_uuid_for : Codes → Codes → Codes
  unfolding hash_to_uuid_base
  cbt_asset_uuid_for market_id bond_token_address =
      hash_to_uuid_base (market_id ++ b'-' ∷ bond_token_address)

abbrev is_no_dash : ℕ → Bool
is_no_dash c = not (c == b'-')

keep-append : (p : ℕ → Bool) (s t : Codes) → keep p (s ++ t) ≡ keep p s ++ keep p t
keep-append p [] t = refl
keep-append p (c ∷ s) t = ground (arith, keep-append p s t)

keep-whole : (s : Codes) → has_code b'-' s ≡ false → keep is_no_dash s ≡ s
keep-whole [] h = refl
keep-whole (c ∷ s) h = ground (arith, h, keep-whole s)

take-whole : (n : ℕ) (s : Codes) → has_code b'-' s ≡ false → has_code b'-' (take n s) ≡ false
take-whole zero s h = refl
take-whole (suc n) [] h = refl
take-whole (suc n) (c ∷ s) h = ground (arith, h, take-whole n s)

drop-whole : (n : ℕ) (s : Codes) → has_code b'-' s ≡ false → has_code b'-' (drop n s) ≡ false
drop-whole zero s h = h
drop-whole (suc n) [] h = refl
drop-whole (suc n) (c ∷ s) h = ground (arith, h, drop-whole n s)

take-append-drop : (n : ℕ) (s : Codes) → take n s ++ drop n s ≡ s
take-append-drop zero s = refl
take-append-drop (suc n) [] = refl
take-append-drop (suc n) (c ∷ s) = ap (λ (r : Codes). c ∷ r) (take-append-drop n s)

drop_nil : (n : ℕ) → drop {A = ℕ} n [] ≡ []
drop_nil zero = refl
drop_nil (suc n) = refl

drop-drop : (m n : ℕ) (s : Codes) → drop n (drop m s) ≡ drop (m + n) s
drop-drop zero n s = ap (λ k. drop k s) (omega arith)
drop-drop (suc m) n [] = drop_nil n ∙ sym (drop_nil (suc m + n))
drop-drop (suc m) n (c ∷ s) =
    drop-drop m n s ∙ ap (λ k. drop k (c ∷ s)) (let e : suc (m + n) ≡ suc m + n = omega arith in e)

-- the next part of a text, and what comes after it
next_part : (m n : ℕ) (s : Codes) → take n (drop m s) ++ drop (m + n) s ≡ drop m s
next_part m n s =
    ap (λ r. take n (drop m s) ++ r) (sym (drop-drop m n s)) ∙ take-append-drop n (drop m s)

-- a dash after a part goes, the part stays
keep-part :
    (s t u : Codes)
    → has_code b'-' s ≡ false
    → keep is_no_dash t ≡ u
    → keep is_no_dash (s ++ b'-' ∷ t) ≡ s ++ u
keep-part s t u h e = keep-append is_no_dash s (b'-' ∷ t) ∙ cc (keep-whole s h, e)

digits-uuid_form : (h : Codes) → has_code b'-' h ≡ false → keep is_no_dash (uuid_form h) ≡ h
unfolding uuid_form
digits-uuid_form h w =
    keep-part (take 8 h) _ (drop 8 h) (take-whole 8 h w) (
      keep-part (take 4 (drop 8 h)) _ (drop 12 h) (take-whole 4 (drop 8 h) (drop-whole 8 h w)) (
        keep-part (take 4 (drop 12 h)) _ (drop 16 h) (take-whole 4 (drop 12 h) (drop-whole 12 h w))
          (keep-part (take 4 (drop 16 h)) _ (drop 20 h)
              (take-whole 4 (drop 16 h) (drop-whole 16 h w))
              (keep-whole (drop 20 h) (drop-whole 20 h w))
            ∙ next_part 16 4 h)
        ∙ next_part 12 4 h)
      ∙ next_part 8 4 h)
    ∙ take-append-drop 8 h

-- For market ids that hold no dash: two positions have one id only where market and wallet are the same,
-- if the digests of the two have no dash in them and do not begin with the same 32 digits by collision.
pub position_uuids_distinct :
    (sha1 : Codes → Codes) (market market' wallet wallet' : Codes)
    → has_code b'-' (sha1 (market ++ b'-' ∷ wallet)) ≡ false
    → has_code b'-' (sha1 (market' ++ b'-' ∷ wallet')) ≡ false
    → (take 32 (sha1 (market ++ b'-' ∷ wallet)) ≡ take 32 (sha1 (market' ++ b'-' ∷ wallet'))
        → market ++ b'-' ∷ wallet ≡ market' ++ b'-' ∷ wallet')
    → has_code b'-' market ≡ false
    → has_code b'-' market' ≡ false
    → position_uuid_for sha1 market wallet ≡ position_uuid_for sha1 market' wallet'
    → (market ≡ market') × (wallet ≡ wallet')
unfolding position_uuid_for hash_to_uuid_base
position_uuids_distinct sha1 market market' wallet wallet' hex hex' no_collision hm hm' e =
    let base = market ++ b'-' ∷ wallet in
    let base' = market' ++ b'-' ∷ wallet' in
    let same : take 32 (sha1 base) ≡ take 32 (sha1 base') =
      sym (digits-uuid_form (take 32 (sha1 base)) (take-whole 32 (sha1 base) hex))
      ∙ ap (keep is_no_dash) e
      ∙ digits-uuid_form (take 32 (sha1 base')) (take-whole 32 (sha1 base') hex') in
    split_at b'-' market market' wallet wallet' hm hm' (no_collision same)
