-- ===== src/Database/Book.antt =====
-- Books of matches: what those matches of a book for which a test of their ids holds add up to.
use mathlib.Core.Path.{subst}
use settlement_engine.Prelude.{
  ℕ, ◌+◌, ◌≡◌, refl, sym, ◌⊎◌, inl, inr, Bool-cases, String, str_eq, eq_iff, Bool, true, false,
  List, [], ◌∷◌, arith, All, if◌then◌else◌,
}
use settlement_engine.Schemas.{Match}

abbrev pub sum_of {ℓ} : {R : Type ℓ} → (Match → R → ℕ) → (String → Bool) → List Match → R → ℕ
sum_of share counts [] r = 0
sum_of share counts (m ∷ book) r =
    (if counts m.match_id then share m r else 0) + sum_of share counts book r

abbrev pub Unrepeated : List Match → Type 0
Unrepeated [] = Unit {0}
Unrepeated (m ∷ book) = All (λ x. str_eq m.match_id x.match_id ≡ false) book × Unrepeated book

abbrev pub Among : List Match → Match → Type 0
Among [] m = ⊥
Among (x ∷ book) m = (m ≡ x) ⊎ Among book m

All-among : (P : Match → Type 0) {m : Match} (book : List Match) → All P book → Among book m → P m
All-among P [] h n = absurd n
All-among P (x ∷ book) h (inl e) = subst P (sym e) h.0
All-among P (x ∷ book) h (inr n) = All-among P book h.1 n

str_eq-flip : (i j : String) → str_eq i j ≡ false → str_eq j i ≡ false
str_eq-flip i j h = elim (Bool-cases (str_eq j i)) [
  | inl e ↦ absurd (cc ((eq_iff i j).1 (sym ((eq_iff j i).0 e)), h))
  | inr e ↦ e
]

-- two views of which matches wait that differ at one id only, and what each adds up to
module _ {R : Type 0} (share : Match → R → ℕ) (before after : String → Bool) (i : String)
    (agree : (j : String) → str_eq i j ≡ false → after j ≡ before j) (r : R) where
  sum_of-same :
      (book : List Match)
      → All (λ x. str_eq i x.match_id ≡ false) book
      → sum_of share after book r ≡ sum_of share before book r
  sum_of-same [] h = refl
  sum_of-same (m ∷ book) h = rw (agree m.match_id h.0, sum_of-same book h.1) refl

-- one match of the book has ceased to count
module _ {R : Type 0} (share : Match → R → ℕ) (before after : String → Bool) (m : Match)
    (agree : (j : String) → str_eq m.match_id j ≡ false → after j ≡ before j)
    (waited : before m.match_id ≡ true) (ended : after m.match_id ≡ false) where
  sum_of-first :
      (r : R) (book : List Match)
      → All (λ z. str_eq m.match_id z.match_id ≡ false) book
      → sum_of share before (m ∷ book) r ≡ share m r + sum_of share after (m ∷ book) r
  sum_of-first r book fresh =
      rw (waited, ended, sum_of-same share before after m.match_id agree r book fresh) (omega arith)

  pub sum_of-ended :
      (r : R) (book : List Match)
      → Unrepeated book
      → Among book m
      → sum_of share before book r ≡ share m r + sum_of share after book r
  sum_of-ended r [] u n = absurd n
  sum_of-ended r (x ∷ book) u (inl e) =
      subst
        (λ y.
          All (λ z. str_eq y.match_id z.match_id ≡ false) book
          → sum_of share before (y ∷ book) r ≡ share m r + sum_of share after (y ∷ book) r)
        e (sum_of-first r book) u.0
  sum_of-ended r (x ∷ book) u (inr n) =
      let other : str_eq m.match_id x.match_id ≡ false =
        str_eq-flip x.match_id m.match_id
          (All-among (λ z. str_eq x.match_id z.match_id ≡ false) book u.0 n) in
      rw (agree x.match_id other) (omega (arith, sum_of-ended r book u.1 n))
