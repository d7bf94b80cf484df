-- ===== src/Consumer/Startup/Loops.antt =====
-- A loop of rounds: what holds when it has ended, when it ends, and when it does not.
use mathlib.Core.Path.{subst}
use mathlib.Core.Option.{some-injective, none-ne-some}
use settlement_engine.Prelude.{ℕ, zero, suc, ◌<◌, ◌≡◌, refl, Bool, true, false, none, some, arith}
use settlement_engine.Consumer.Startup.{loop, loop_step}

module _ {S : Type 0} (guard : S → Bool) (round : ℕ → S → Bool × S) where
  -- what each round keeps holds at the end
  pub loop_keeps :
      (I : S → Type 0)
      → ((k : ℕ) (s : S) → guard s ≡ true → I s → I (round k s).1)
      → (fuel k : ℕ) (s e : S) → I s
      → loop guard round fuel k s ≡ some e
      → I e
  unfolding loop
  loop_keeps I step zero k s e h done = absurd (none-ne-some e done)
  loop_keeps I step (suc fuel) k s e h done =
      at (guard s) (round k s) (λ g. step k s g h) (λ t i d. loop_keeps I step fuel (suc k) t e i d)
        refl done
    where
      at :
          (b : Bool) (o : Bool × S)
          → (guard s ≡ true → I o.1)
          → ((t : S) → I t → loop guard round fuel (suc k) t ≡ some e → I e)
          → guard s ≡ b
          → loop_step (loop guard round fuel (suc k)) b o s ≡ some e
          → I e
      at false o i again g d = subst I (some-injective s e d) h
      at true (false, t) i again g d = subst I (some-injective t e d) (i g)
      at true (true, t) i again g d = again t (i g) d

  -- a loop ends whose rounds that go on make a measure smaller
  pub loop_ends :
      (μ : S → ℕ)
      → ((k : ℕ) (s : S) → guard s ≡ true → (round k s).0 ≡ true → μ (round k s).1 < μ s)
      → (fuel k : ℕ) (s : S) → μ s < fuel
      → (e : S) × (loop guard round fuel k s ≡ some e)
  unfolding loop
  loop_ends μ step zero k s h = absurd (omega (arith, h))
  loop_ends μ step (suc fuel) k s h =
      at (guard s) (round k s) (λ g m. step k s g m) (λ t l. loop_ends μ step fuel (suc k) t l) refl
    where
      at :
          (b : Bool) (o : Bool × S)
          → (guard s ≡ true → o.0 ≡ true → μ o.1 < μ s)
          → ((t : S) → μ t < fuel → (e : S) × (loop guard round fuel (suc k) t ≡ some e))
          → guard s ≡ b
          → (e : S) × (loop_step (loop guard round fuel (suc k)) b o s ≡ some e)
      at false o i again g = (s, refl)
      at true (false, t) i again g = (t, refl)
      at true (true, t) i again g = again t (omega (arith, i g refl, h))

  -- a loop does not end whose rounds change nothing
  pub loop_spins :
      (s : S)
      → guard s ≡ true
      → ((k : ℕ) → round k s ≡ (true, s))
      → (fuel k : ℕ) → loop guard round fuel k s ≡ none
  unfolding loop
  loop_spins s g h zero k = refl
  loop_spins s g h (suc fuel) k = rw (g, h k) (loop_spins s g h fuel (suc k))
