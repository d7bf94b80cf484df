-- ===== src/Schemas/Value.antt =====
-- The values of JavaScript that an entry of the stream or a JSON payload holds. `JSON.parse`, and
-- `Number` on a text, are parameters.
use settlement_engine.Prelude.{
  ℕ, String, to_lower_case, codes_eq, str_eq, Bool, false, ◌||◌, Option, none, some, List, [], ◌∷◌,
  if◌then◌else◌, ◌==◌,
}
use settlement_engine.Prelude.Text.{codes}

-- A number that is a non-negative integer, or any other (a fraction, a negative number, NaN).
pub data JsNumber : Type 0 where
  natural : ℕ → JsNumber
  other_number : JsNumber

-- An array or an object stands for what `String` makes of it, by which `Number` reads it too.
pub data Value : Type 0 where
  text : String → Value
  number : JsNumber → Value
  boolean : Bool → Value
  null_value : Value
  composite : String → Value

-- own keys in the order of their first assignment
abbrev pub Object : Type 0
Object = List (String × Value)

-- `object[key]`, `none` for `undefined`
unfoldable pub get : String → Object → Option Value
get key [] = none
get key ((k, v) ∷ rest) = if str_eq k key then some v else get key rest

-- `object[key] = value`
unfoldable pub put : String → Value → Object → Object
put key value [] = (key, value) ∷ []
put key value ((k, v) ∷ rest) =
    if str_eq k key then (k, value) ∷ rest else (k, v) ∷ put key value rest

pub record JavaScript : Type 0 where
  -- the keys of `{ ...JSON.parse(text) }`, `none` where it throws
  pub json_parse : String → Option Object
  -- `Number(text)`
  pub number_of : String → JsNumber
  -- `z.string().uuid()`
  pub is_uuid : String → Bool

-- `Number(value)`
abbrev pub to_number : JavaScript → Value → JsNumber
to_number js (text s) = js.number_of s
to_number js (number n) = n
to_number js (boolean b) = if b then natural 1 else natural 0
to_number js null_value = natural 0
to_number js (composite s) = js.number_of s

-- `value === 'true' || value === '1'`, for the lower-case form
unfoldable pub is_true_text : String → Bool
unfolding codes codes_eq to_lower_case
is_true_text s = codes_eq (to_lower_case s) (codes "true") || codes_eq (to_lower_case s) (codes "1")

-- the same for `String(value)`
abbrev pub says_true : Value → Bool
says_true (text s) = is_true_text s
says_true (number (natural n)) = n == 1
says_true (number other_number) = false
says_true (boolean b) = b
says_true null_value = false
says_true (composite s) = is_true_text s
