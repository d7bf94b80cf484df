-- ===== src/Prelude/Members.antt =====
-- Membership in the lists that queries build.
use mathlib.Core.Logic.{◌∨₁◌, ∨₁_prop, ∥∥₁_map, ∥∥₁_prop}
use mathlib.Core.Logic.Or
use mathlib.Core.Path.{◌≡◌, refl, ap, sym, ◌∙◌}
use mathlib.Core.Bool.{Bool, true, false, ◌||◌}
use mathlib.Core.List.{
  List, [], ◌∷◌, flat_map, Mem, Mem-prop, Pairwise, mem-append, mem-cons, mem-cons_self,
  not-mem-nil, mem-cons_of_mem, mem-append_left, mem-append_right,
}
use Prim.Native.Nat.{ℕ, zero, suc, ◌≤◌}
use native.Mathlib.Omega.{arith}
use settlement_engine.Prelude.Tests.{if◌then◌else◌}
use settlement_engine.Prelude.Lists.{keep, take, length, All, any}

or_true : (a : Bool) {b : Bool} → b ≡ true → (a || b) ≡ true
or_true a h = ground (arith, h)

module _ {A : Type 0} where
  cons_elim :
      {C : Type 0} {x y : A} {l : List A}
      → IsProp C
      → Mem x (y ∷ l)
      → (x ≡ y → C)
      → (Mem x l → C)
      → C
  cons_elim c m f g = Or.elim c (mem-cons.0 m) f g

  mem-keep_if :
      (p : A → Bool) {x y : A} (l : List A) (b : Bool)
      → p y ≡ b
      → (Mem x l → Mem x (keep p l))
      → Mem x (y ∷ l)
      → p x ≡ true
      → Mem x (if b then y ∷ keep p l else keep p l)
  mem-keep_if p {x} {y} l true at ih m e =
      cons_elim Mem-prop m (λ here. mem-cons.1 (Or.inl here))
        (λ there. mem-cons_of_mem _ (ih there))
  mem-keep_if p {x} {y} l false at ih m e =
      cons_elim Mem-prop m (λ here. absurd (cc (ap p here, at, e))) ih

  pub mem-keep : (p : A → Bool) {x : A} (l : List A) → Mem x l → p x ≡ true → Mem x (keep p l)
  mem-keep p [] m e = absurd (not-mem-nil m)
  mem-keep p {x} (y ∷ l) m e = mem-keep_if p l (p y) refl (λ n. mem-keep p l n e) m e

  keep-mem_if :
      (p : A → Bool) {x y : A} (l : List A) (b : Bool)
      → p y ≡ b
      → (Mem x (keep p l) → Mem x l × (p x ≡ true))
      → Mem x (if b then y ∷ keep p l else keep p l)
      → Mem x (y ∷ l) × (p x ≡ true)
  keep-mem_if p {x} {y} l true at ih m =
      cons_elim (hlevel) m (λ here. (mem-cons.1 (Or.inl here), ap p here ∙ at))
        (λ there. let r = ih there in (mem-cons_of_mem _ r.0, r.1))
  keep-mem_if p l false at ih m = let r = ih m in (mem-cons_of_mem _ r.0, r.1)

  pub keep-mem : (p : A → Bool) {x : A} (l : List A) → Mem x (keep p l) → Mem x l × (p x ≡ true)
  keep-mem p [] m = absurd (not-mem-nil m)
  keep-mem p (y ∷ l) m = keep-mem_if p l (p y) refl (keep-mem p l) m

  pub length-take-le : (n : ℕ) (l : List A) → length (take n l) ≤ n
  length-take-le zero l = omega arith
  length-take-le (suc n) [] = omega arith
  length-take-le (suc n) (x ∷ l) = omega (arith, length-take-le n l)

  pub take-mem : {x : A} (n : ℕ) (l : List A) → Mem x (take n l) → Mem x l
  take-mem zero l m = absurd (not-mem-nil m)
  take-mem (suc n) [] m = absurd (not-mem-nil m)
  take-mem (suc n) (y ∷ l) m =
      cons_elim Mem-prop m (λ here. mem-cons.1 (Or.inl here))
        (λ there. mem-cons_of_mem _ (take-mem n l there))

  module _ (R : A → A → Type 0) where
    pub take-Pairwise : (n : ℕ) (l : List A) → Pairwise R l → Pairwise R (take n l)
    take-Pairwise zero l h = Pairwise.nil
    take-Pairwise (suc n) [] h = Pairwise.nil
    take-Pairwise (suc n) (x ∷ l) (Pairwise.cons below h) =
        Pairwise.cons (λ y m. below y (take-mem n l m)) (take-Pairwise n l h)

    -- what an ordered list loses to a limit comes after all that is left, and the limit is reached
    pub take-left_out :
        (n : ℕ) (l : List A) {x : A}
        → Pairwise R l
        → Mem x l
        → Mem x (take n l) ∨₁ ((length (take n l) ≡ n) × All (λ y. R y x) (take n l))
    take-left_out zero l h m = Or.inr (refl, tt)
    take-left_out (suc n) [] h m = absurd (not-mem-nil m)
    take-left_out (suc n) (z ∷ l) {x} (Pairwise.cons below h) m =
        cons_elim ∨₁_prop m (λ here. Or.inl (mem-cons.1 (Or.inl here)))
          λ later.
            Or.elim ∨₁_prop (take-left_out n l h later) (λ kept. Or.inl (mem-cons_of_mem _ kept))
              (λ (full, all). Or.inr (ap suc full, (below x later, all)))

  pub any-of_mem : (p : A → Bool) {x : A} (l : List A) → Mem x l → p x ≡ true → any p l ≡ true
  any-of_mem p [] m e = absurd (not-mem-nil m)
  any-of_mem p (y ∷ l) m e =
      cons_elim (hlevel) m (λ here. rw (ap p (sym here) ∙ e) refl)
        (λ there. or_true (p y) (any-of_mem p l there e))

  pub All-of_mem : {P : A → Type 0} (l : List A) → ((x : A) → Mem x l → P x) → All P l
  All-of_mem [] h = tt
  All-of_mem (x ∷ l) h = (h x mem-cons_self, All-of_mem l (λ y m. h y (mem-cons_of_mem _ m)))

module _ {A B : Type 0} (f : A → List B) {b : B} where
  pub mem-flat_map : {a : A} (l : List A) → Mem a l → Mem b (f a) → Mem b (flat_map f l)
  unfolding flat_map
  mem-flat_map [] m n = absurd (not-mem-nil m)
  mem-flat_map (x ∷ l) m n =
      cons_elim Mem-prop m (λ here. mem-append_left {s = f x} (flat_map f l) (rw (← here) n))
        (λ there. mem-append_right (f x) (mem-flat_map l there n))

  pub flat_map-mem : (l : List A) → Mem b (flat_map f l) → ∥ ((a : A) × Mem a l × Mem b (f a)) ∥₁
  unfolding flat_map
  flat_map-mem [] m = absurd (not-mem-nil m)
  flat_map-mem (x ∷ l) m =
      Or.elim ∥∥₁_prop (mem-append.0 m) (λ here. ∣ (x, mem-cons_self, here) ∣₁)
        (λ there. ∥∥₁_map (flat_map-mem l there) (λ (a, k, h). (a, mem-cons_of_mem _ k, h)))
