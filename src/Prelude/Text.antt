-- ===== src/Prelude/Text.antt =====
-- Texts as the source compares them: equality of strings, and the code points of their lower-case
-- form, ordered as JavaScript orders ASCII strings.
use Prim.Native.Nat.{ℕ, ◌+◌}
use Prim.Native.Char.{code}
use Prim.Native.String.{String}
use mathlib.Core.Path.{◌≡◌, refl}
use mathlib.Core.Logic.{◌↔◌}
use mathlib.Core.Bool.{Bool, true, false, ◌&&◌, ◌||◌}
use mathlib.Core.List.{List, [], ◌∷◌}
use native.Mathlib.Omega.{arith}
use settlement_engine.Prelude.Tests.{ltb, leb, ◌==◌, if◌then◌else◌}

abbrev pub Codes : Type 0
Codes = List ℕ

abbrev pub lower_code : ℕ → ℕ
lower_code c = if leb b'A' c && leb c b'Z' then c + 32 else c

-- `s.toLowerCase()`, for ASCII
unfoldable pub to_lower_case : String → Codes
to_lower_case Prim.Native.String.[] = []
to_lower_case (String.◌∷◌ c s) = lower_code (code c) ∷ to_lower_case s

unfoldable pub codes_eq : Codes → Codes → Bool
codes_eq [] [] = true
codes_eq (a ∷ x) (b ∷ y) = a == b && codes_eq x y
codes_eq _ _ = false

unfoldable pub codes_lt : Codes → Codes → Bool
codes_lt [] [] = false
codes_lt [] (b ∷ y) = true
codes_lt (a ∷ x) [] = false
codes_lt (a ∷ x) (b ∷ y) = ltb a b || (a == b && codes_lt x y)

pub codes_eq_iff : (x y : Codes) → (codes_eq x y ≡ true) ↔ (x ≡ y)
unfolding codes_eq
codes_eq_iff [] [] = (λ _. refl, λ _. refl)
codes_eq_iff [] (b ∷ y) = (λ h. cc, λ h. cc)
codes_eq_iff (a ∷ x) [] = (λ h. cc, λ h. cc)
codes_eq_iff (a ∷ x) (b ∷ y) =
    (λ h. ground (arith, codes_eq_iff x y), λ h. ground (arith, codes_eq_iff x y))

-- the code points of a text
unfoldable pub codes : String → Codes
codes Prim.Native.String.[] = []
codes (String.◌∷◌ c s) = code c ∷ codes s

unfoldable pub codes_start_with : Codes → Codes → Bool
codes_start_with s [] = true
codes_start_with [] (b ∷ y) = false
codes_start_with (a ∷ x) (b ∷ y) = a == b && codes_start_with x y

unfoldable pub codes_include : Codes → Codes → Bool
codes_include [] part = codes_start_with [] part
codes_include (a ∷ x) part = codes_start_with (a ∷ x) part || codes_include x part

-- `s.includes(part)`
unfoldable pub includes : String → String → Bool
unfolding codes codes_start_with codes_include
includes s part = codes_include (codes s) (codes part)
