-- ===== src/Schemas/Amount/RoundTrip.antt =====
-- The accepted amounts are the decimal prints of the numbers below 2^256, one for each.
use Prim.Native.Nat.{◌/◌, ◌%◌}
use settlement_engine.Prelude.{
  ℕ, zero, suc, ◌+◌, ◌-◌, ◌*◌, ◌≤◌, ◌<◌, ◌≡◌, refl, ap, ◌∙◌, Codes, Bool, true, false, ◌&&◌, ◌||◌,
  [], ◌∷◌, arith, ltb, if◌then◌else◌, and_true, inl, inr, Bool-cases,
}
use settlement_engine.Schemas.Amount.{
  uint256_max, is_digit, is_nonzero_digit, all_digits, is_positive_decimal, is_zero, value_from,
  value_of, within_uint256, positive_uint256_string, non_negative_uint256_string,
}

-- the digits of `n` before `out`, the last one first
print : ℕ → ℕ → Codes → Codes
print zero n out = out
print (suc rounds) n out =
    let more = print rounds (n / 10) ((b'0' + n % 10) ∷ out) in
    if ltb n 10 then (b'0' + n) ∷ out else more

-- the decimal print of a number, as `toString` writes a `bigint`
unfoldable pub decimal : ℕ → Codes
unfolding print
decimal n = print (suc n) n []

value_from-print :
    (rounds n : ℕ) (out : Codes) → n < rounds → value_from 0 (print rounds n out) ≡ value_from n out
unfolding print
value_from-print zero n out h = absurd (omega arith)
value_from-print (suc rounds) n out h = elim (Bool-cases (ltb n 10)) [
  | inl e ↦ rw e (ap (λ k. value_from k out) (omega arith))
  | inr e ↦
      (let last : 10 * (n / 10) + (b'0' + n % 10 - b'0') ≡ n = omega arith in
        rw e (
          value_from-print rounds (n / 10) ((b'0' + n % 10) ∷ out) (ground (arith, e))
          ∙ ap (λ k. value_from k out) last))
]

-- enough rounds are enough
print_rounds : (r q n : ℕ) (out : Codes) → n < r → n < q → print r n out ≡ print q n out
unfolding print
print_rounds zero q n out h k = absurd (omega arith)
print_rounds (suc r) zero n out h k = absurd (omega arith)
print_rounds (suc r) (suc q) n out h k = elim (Bool-cases (ltb n 10)) [
  | inl e ↦ rw e refl
  | inr e ↦
      rw e
        (print_rounds r q (n / 10) ((b'0' + n % 10) ∷ out) (ground (arith, e)) (ground (arith, e)))
]

-- the print of a positive number begins with a digit that is not zero
print_positive :
    (rounds n : ℕ) (out : Codes)
    → 0 < n
    → n < rounds
    → all_digits out ≡ true
    → is_positive_decimal (print rounds n out) ≡ true
unfolding print
print_positive zero n out p h d = absurd (omega arith)
print_positive (suc rounds) n out p h d = elim (Bool-cases (ltb n 10)) [
  | inl e ↦ rw e (ground (arith, e))
  | inr e ↦ rw e (
      print_positive rounds (n / 10) ((b'0' + n % 10) ∷ out) (ground (arith, e)) (ground (arith, e))
        (ground arith))
]

-- a number with a last digit is printed as that digit after the others
print_last :
    (n q c : ℕ) (s : Codes)
    → 0 < n
    → n < q
    → is_digit c ≡ true
    → print (suc (suc (10 * n + (c - b'0')))) (10 * n + (c - b'0')) s ≡ print q n (c ∷ s)
unfolding print
print_last n q c s p k digit =
    let m = 10 * n + (c - b'0') in
    let large : ltb m 10 ≡ false = ground arith in
    let quotient : m / 10 ≡ n = ground (arith, digit) in
    let last : b'0' + m % 10 ≡ c = ground (arith, digit) in
    rw large (rw quotient (rw last (print_rounds (suc m) q n (c ∷ s) (omega arith) k)))

-- printing the value of digits gives the digits
print-value_from :
    (s : Codes) (n r q : ℕ)
    → 0 < n
    → all_digits s ≡ true
    → value_from n s < r
    → n < q
    → print r (value_from n s) [] ≡ print q n s
print-value_from [] n r q p d h k = print_rounds r q n [] h k
print-value_from (c ∷ s) n r q p d h k =
    let (digit, rest) = and_true (is_digit c) (all_digits s) d in
    print-value_from s (10 * n + (c - b'0')) r (suc (suc (10 * n + (c - b'0')))) (omega arith) rest
      h (omega arith)
    ∙ print_last n q c s p k digit

or_true : (b : Bool) → (b || true) ≡ true
or_true true = refl
or_true false = refl

print_first :
    (c d : ℕ) (s : Codes)
    → is_nonzero_digit c ≡ true
    → d ≡ c - b'0'
    → (0 < d) × (print (suc d) d s ≡ c ∷ s)
unfolding print
print_first c d s digit e =
    let small : ltb d 10 ≡ true = ground (arith, digit) in
    let same : b'0' + d ≡ c = ground (arith, digit) in
    (ground (arith, digit), rw small (ap (λ k. k ∷ s) same))

decimal-value_positive : (s : Codes) → is_positive_decimal s ≡ true → decimal (value_of s) ≡ s
unfolding decimal
decimal-value_positive [] h = cc h
decimal-value_positive (c ∷ s) h =
    let (digit, rest) = and_true (is_nonzero_digit c) (all_digits s) h in
    let (positive, first) = print_first c (10 * 0 + (c - b'0')) s digit (omega arith) in
    print-value_from s (10 * 0 + (c - b'0')) (suc (value_of (c ∷ s))) (suc (10 * 0 + (c - b'0')))
      positive rest (omega arith) (omega arith)
    ∙ first

decimal-value_zero : (s : Codes) → is_zero s ≡ true → decimal (value_of s) ≡ s
unfolding decimal print
decimal-value_zero [] h = cc h
decimal-value_zero (c ∷ []) h = let e : c ≡ b'0' = ground arith in rw e refl
decimal-value_zero (c ∷ d ∷ s) h = cc h

decimal-value_of :
    (s : Codes) → (is_zero s || is_positive_decimal s) ≡ true → decimal (value_of s) ≡ s
decimal-value_of s h = elim (Bool-cases (is_zero s)) [
  | inl e ↦ decimal-value_zero s e
  | inr e ↦ decimal-value_positive s (rw e at h)
]

pub value_of-decimal : (n : ℕ) → value_of (decimal n) ≡ n
unfolding decimal
value_of-decimal n = value_from-print (suc n) n [] (omega arith)

-- which form the print has
pub decimal_form :
    (n : ℕ)
    → (is_positive_decimal (decimal n) ≡ ltb 0 n)
      × ((is_zero (decimal n) || is_positive_decimal (decimal n)) ≡ true)
unfolding decimal print
decimal_form zero = (refl, refl)
decimal_form (suc n) =
    let positive : is_positive_decimal (decimal (suc n)) ≡ true =
      print_positive (suc (suc n)) (suc n) [] (omega arith) (omega arith) refl in
    (positive ∙ ground arith, rw positive (or_true (is_zero (decimal (suc n)))))

within-decimal : (n : ℕ) → n ≤ uint256_max → within_uint256 (decimal n) ≡ true
unfolding within_uint256
within-decimal n h = rw (value_of-decimal n) (ground arith)

within_le : (s : Codes) → within_uint256 s ≡ true → value_of s ≤ uint256_max
unfolding within_uint256
within_le s h = ground arith

and_true_right : (b : Bool) → (b && true) ≡ b
and_true_right true = refl
and_true_right false = refl

value_from-ge : (s : Codes) (n : ℕ) → n ≤ value_from n s
value_from-ge [] n = omega arith
value_from-ge (c ∷ s) n = omega (arith, value_from-ge s (10 * n + (c - b'0')))

value_of_positive : (s : Codes) → is_positive_decimal s ≡ true → 0 < value_of s
value_of_positive [] h = cc h
value_of_positive (c ∷ s) h =
    let digit = (and_true (is_nonzero_digit c) (all_digits s) h).0 in
    let positive : 0 < 10 * 0 + (c - b'0') = ground (arith, digit) in
    omega (arith, value_from-ge s (10 * 0 + (c - b'0')))

-- what an accepted text says of its value
pub non_negative_bounds :
    (s : Codes) → non_negative_uint256_string s ≡ true → value_of s ≤ uint256_max
unfolding non_negative_uint256_string
non_negative_bounds s h =
    within_le s (and_true (is_zero s || is_positive_decimal s) (within_uint256 s) h).1

pub positive_bounds :
    (s : Codes) → positive_uint256_string s ≡ true → (0 < value_of s) × (value_of s ≤ uint256_max)
unfolding positive_uint256_string
positive_bounds s h =
    let (form, fits) = and_true (is_positive_decimal s) (within_uint256 s) h in
    (value_of_positive s form, within_le s fits)

-- Each number up to the maximum has a print that is accepted as a fee, is accepted as an amount unless
-- it is 0, and is read back as the number; and each accepted text is the print of its value, which is
-- at most the maximum.
pub amount_strings :
    (n : ℕ) (s : Codes)
    → n ≤ uint256_max
    → non_negative_uint256_string s ≡ true
    → (non_negative_uint256_string (decimal n) ≡ true)
      × (positive_uint256_string (decimal n) ≡ ltb 0 n)
      × (value_of (decimal n) ≡ n)
      × (value_of s ≤ uint256_max)
      × (decimal (value_of s) ≡ s)
unfolding positive_uint256_string non_negative_uint256_string
amount_strings n s h accepted =
    let (form, fits) = and_true (is_zero s || is_positive_decimal s) (within_uint256 s) accepted in
    (
      rw ((decimal_form n).1) (within-decimal n h),
      rw ((decimal_form n).0, within-decimal n h) (and_true_right (ltb 0 n)),
      value_of-decimal n,
      within_le s fits,
      decimal-value_of s form,
    )
