-- ===== src/Prelude/Joined.antt =====
-- Texts that are joined by a separator, as their code points, and what they can be told by.
use mathlib.Core.Path.{◌≡◌, refl, ap, sym, ◌∙◌}
use mathlib.Core.Logic.{◌≢◌}
use mathlib.Core.Bool.{Bool, true, false}
use mathlib.Core.List.{List, [], ◌∷◌, ◌++◌, append_assoc}
use Prim.Native.Nat.{ℕ}
use Prim.Native.String.{String}
use native.Mathlib.Omega.{arith}
use text.Mathlib.TextEquality.{Char-path}
use settlement_engine.Prelude.Tests.{◌==◌}
use settlement_engine.Prelude.Lists.{any, All}
use settlement_engine.Prelude.Text.{Codes, codes}

-- `texts.join(separator)`
unfoldable pub join : ℕ → List String → Codes
unfolding codes
join separator [] = []
join separator (s ∷ []) = codes s
join separator (s ∷ t ∷ rest) = codes s ++ separator ∷ join separator (t ∷ rest)

abbrev pub has_code : ℕ → Codes → Bool
has_code c s = any (λ d. d == c) s

-- a text that is not empty and has no separator in it
pub record IsPart (separator : ℕ) (s : String) : Type 0 where
  pub filled : codes s ≢ []
  pub whole : has_code separator (codes s) ≡ false

pub codes_inj : (s t : String) → codes s ≡ codes t → s ≡ t
unfolding codes
codes_inj Prim.Native.String.[] Prim.Native.String.[] e = refl
codes_inj Prim.Native.String.[] (String.◌∷◌ d t) e = cc
codes_inj (String.◌∷◌ c s) Prim.Native.String.[] e = cc
codes_inj (String.◌∷◌ c s) (String.◌∷◌ d t) e =
    let same : c ≡ d = Char-path c d (cc) in let rest = codes_inj s t (cc) in cc (same, rest)

-- a first part that does not hold the separator ends where the separator stands
pub split_at :
    (c : ℕ) (s t x y : Codes)
    → has_code c s ≡ false
    → has_code c t ≡ false
    → s ++ c ∷ x ≡ t ++ c ∷ y
    → (s ≡ t) × (x ≡ y)
split_at c [] [] x y hs ht e = (refl, cc)
split_at c [] (b ∷ t) x y hs ht e = absurd (ground (arith, ht, e))
split_at c (a ∷ s) [] x y hs ht e = absurd (ground (arith, hs, e))
split_at c (a ∷ s) (b ∷ t) x y hs ht e =
    let r = split_at c s t x y (ground (arith, hs)) (ground (arith, ht)) (cc) in (cc (e, r.0), r.1)

-- each text with a separator after it
closed : ℕ → List String → Codes
closed c [] = []
closed c (s ∷ rest) = codes s ++ c ∷ closed c rest

join-closed :
    (c : ℕ) (s : String) (rest : List String) → join c (s ∷ rest) ++ c ∷ [] ≡ closed c (s ∷ rest)
unfolding join closed
join-closed c s [] = refl
join-closed c s (t ∷ rest) =
    append_assoc (codes s) (c ∷ join c (t ∷ rest)) (c ∷ [])
    ∙ ap (λ (r : Codes). codes s ++ c ∷ r) (join-closed c t rest)

not_split : (s x : Codes) (c : ℕ) → [] ≢ s ++ c ∷ x
not_split [] x c e = cc
not_split (a ∷ s) x c e = cc

closed_inj :
    (c : ℕ) (us vs : List String)
    → All (IsPart c) us
    → All (IsPart c) vs
    → closed c us ≡ closed c vs
    → us ≡ vs
unfolding closed
closed_inj c [] [] hu hv e = refl
closed_inj c [] (v ∷ vs) hu hv e = absurd (not_split (codes v) (closed c vs) c e)
closed_inj c (u ∷ us) [] hu hv e = absurd (not_split (codes u) (closed c us) c (sym e))
closed_inj c (u ∷ us) (v ∷ vs) hu hv e =
    let r = split_at c (codes u) (codes v) (closed c us) (closed c vs) hu.0.whole hv.0.whole e in
    let first = codes_inj u v r.0 in
    let others = closed_inj c us vs hu.1 hv.1 r.1 in cc (first, others)

join_filled : (c : ℕ) (s : String) (rest : List String) → IsPart c s → join c (s ∷ rest) ≢ []
unfolding join
join_filled c s [] h e = h.filled e
join_filled c s (t ∷ rest) h e = not_split (codes s) (join c (t ∷ rest)) c (sym e)

-- texts that are not empty and do not hold the separator can be told from what they join to
pub join_inj :
    (c : ℕ) (us vs : List String)
    → All (IsPart c) us
    → All (IsPart c) vs
    → join c us ≡ join c vs
    → us ≡ vs
unfolding join
join_inj c [] [] hu hv e = refl
join_inj c [] (v ∷ vs) hu hv e = absurd (join_filled c v vs hv.0 (sym e))
join_inj c (u ∷ us) [] hu hv e = absurd (join_filled c u us hu.0 e)
join_inj c (u ∷ us) (v ∷ vs) hu hv e =
    closed_inj c (u ∷ us) (v ∷ vs) hu hv
      (sym (join-closed c u us) ∙ ap (λ (r : Codes). r ++ c ∷ []) e ∙ join-closed c v vs)

has_code-middle : (c : ℕ) (t y : Codes) → has_code c (t ++ c ∷ y) ≡ true
has_code-middle c [] y = ground arith
has_code-middle c (b ∷ t) y = ground (arith, has_code-middle c t y)

-- a last part that does not hold the separator begins after its last place
pub split_last :
    (c : ℕ) (s t x y : Codes)
    → has_code c x ≡ false
    → has_code c y ≡ false
    → s ++ c ∷ x ≡ t ++ c ∷ y
    → (s ≡ t) × (x ≡ y)
split_last c [] [] x y hx hy e = (refl, cc)
split_last c [] (b ∷ t) x y hx hy e =
    let inside : x ≡ t ++ c ∷ y = cc in
    absurd (cc (ap (has_code c) inside, hx, has_code-middle c t y))
split_last c (a ∷ s) [] x y hx hy e =
    let inside : s ++ c ∷ x ≡ y = cc in
    absurd (cc (ap (has_code c) inside, hy, has_code-middle c s x))
split_last c (a ∷ s) (b ∷ t) x y hx hy e =
    let r = split_last c s t x y hx hy (cc) in (cc (e, r.0), r.1)
