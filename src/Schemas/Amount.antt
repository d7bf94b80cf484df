-- ===== src/Schemas/Amount.antt =====
-- The amount fields of schemas/match.ts: decimal strings, by their code points.
pub mod RoundTrip
use settlement_engine.Prelude.{
  ℕ, ◌+◌, ◌-◌, ◌*◌, ◌^◌, Codes, Bool, true, false, ◌&&◌, ◌||◌, [], ◌∷◌, leb, ◌==◌,
}

abbrev pub uint256_max : ℕ
uint256_max = 2 ^ 256 - 1

-- `\d` and `[1-9]`
abbrev pub is_digit : ℕ → Bool
is_digit c = leb b'0' c && leb c b'9'

abbrev pub is_nonzero_digit : ℕ → Bool
is_nonzero_digit c = leb b'1' c && leb c b'9'

-- `\d*$`
abbrev pub all_digits : Codes → Bool
all_digits [] = true
all_digits (c ∷ s) = is_digit c && all_digits s

-- `^[1-9]\d*$`
abbrev pub is_positive_decimal : Codes → Bool
is_positive_decimal [] = false
is_positive_decimal (c ∷ s) = is_nonzero_digit c && all_digits s

abbrev pub is_zero : Codes → Bool
is_zero (c ∷ []) = c == b'0'
is_zero _ = false

-- `BigInt(v)` on a text of digits, with the value of the digits before
abbrev pub value_from : ℕ → Codes → ℕ
value_from n [] = n
value_from n (c ∷ s) = value_from (10 * n + (c - b'0')) s

abbrev pub value_of : Codes → ℕ
value_of s = value_from 0 s

-- `withinUint256`, where the regex has passed
unfoldable pub within_uint256 : Codes → Bool
within_uint256 s = leb (value_of s) uint256_max

unfoldable pub positive_uint256_string : Codes → Bool
unfolding within_uint256
positive_uint256_string s = is_positive_decimal s && within_uint256 s

-- `^(0|[1-9]\d*)$`
unfoldable pub non_negative_uint256_string : Codes → Bool
unfolding within_uint256
non_negative_uint256_string s = (is_zero s || is_positive_decimal s) && within_uint256 s
