-- ===== src/Sweeper/Timer.antt =====
-- `start`, `stop` and `runSweep` of settlement/settlementSweeper.ts, at the grain of `await`. `awaited` is
-- whether `sweepPromise` is set, `sweeps` how many sweeps run, `stopping` whether a `stop` awaits the
-- sweep that runs.
use settlement_engine.Prelude.{
  ℕ, ◌+◌, ◌-◌, ◌≤◌, ◌<◌, ◌≡◌, refl, Bool, true, false, not, ◌||◌, branch, arith, if◌then◌else◌,
}

pub record Timer : Type 0 where
  pub is_running : Bool
  pub awaited : Bool
  pub sweeps : ℕ
  pub stopping : Bool

-- `new SettlementSweeper(options)`
abbrev pub new_timer : Timer
new_timer = record { is_running = false; awaited = false; sweeps = 0; stopping = false }

unfoldable pub run_sweep : Timer → Timer
run_sweep t =
    if not t.is_running || t.awaited then t else record t { awaited = true; sweeps = t.sweeps + 1 }

-- the sweep has ended, or it has failed, which is logged; `finally` clears the promise
unfoldable pub sweep_ended : Timer → Timer
sweep_ended t = record t { awaited = false; sweeps = t.sweeps - 1 }

unfoldable pub start_timer : Timer → Timer
unfolding run_sweep
start_timer t = if t.is_running then t else run_sweep (record t { is_running = true })

unfoldable pub stop_timer : Timer → Timer
stop_timer t = if not t.is_running then t else record t { is_running = false; stopping = t.awaited }

pub data Tick : Timer → Timer → Type 0 where
  starts : (t : Timer) → Tick t (start_timer t)
  ticks : (t : Timer) → Tick t (run_sweep t)
  ends : (t : Timer) → 0 < t.sweeps → Tick t (sweep_ended t)
  stops : (t : Timer) → Tick t (stop_timer t)
  stop_ends : (t : Timer) → t.awaited ≡ false → Tick t (record t { stopping = false })

pub data Ticks : Timer → Timer → Type 0 where
  at_first : (t : Timer) → Ticks t t
  then_tick : (t u v : Timer) → Ticks t u → Tick u v → Ticks t v

-- the promise is set exactly while a sweep runs, and without a sweeper there is none, but for one that a
-- `stop` awaits
pub record One (is_running awaited : Bool) (sweeps : ℕ) (stopping : Bool) : Type 0 where
  pub counted : sweeps ≡ (if awaited then 1 else 0)
  pub quiet : is_running ≡ false → stopping ≡ false → sweeps ≡ 0

abbrev pub OneSweep : Timer → Type 0
OneSweep t = One t.is_running t.awaited t.sweeps t.stopping

run_sweep-One : (t : Timer) → OneSweep t → OneSweep (run_sweep t)
unfolding run_sweep
run_sweep-One t h =
    branch OneSweep (not t.is_running || t.awaited) _ _ (λ skip. h)
      λ go.
        let free : t.awaited ≡ false = ground (arith, go) in
        let on : t.is_running ≡ true = ground (arith, go) in
        record {
          counted = ground (arith, h.counted, free);
          quiet = λ off done. absurd (ground (arith, on, off));
        }

pub each-One : (t u : Timer) → Tick t u → OneSweep t → OneSweep u
unfolding start_timer stop_timer sweep_ended
each-One _ _ (starts t) h =
    branch OneSweep t.is_running _ _ (λ on. h)
      λ off.
        run_sweep-One (record t { is_running = true })
          (record { counted = h.counted; quiet = λ e. absurd (ground (arith, e)) })
each-One _ _ (ticks t) h = run_sweep-One t h
each-One _ _ (ends t some_sweep) h =
    let none_left : t.sweeps - 1 ≡ 0 = ground (arith, h.counted) in
    record { counted = none_left; quiet = λ off done. none_left }
each-One _ _ (stops t) h =
    branch OneSweep (not t.is_running) _ _ (λ off. h)
      λ on. record { counted = h.counted; quiet = λ off done. ground (arith, h.counted, done) }
each-One _ _ (stop_ends t free) h = record {
  counted = h.counted;
  quiet = λ off done. ground (arith, h.counted, free);
}

reached-One : (t u : Timer) → Ticks t u → OneSweep t → OneSweep u
reached-One _ _ (at_first t) h = h
reached-One _ _ (then_tick t u v before tick) h = each-One u v tick (reached-One t u before h)

-- In every state that a new sweeper can reach, one sweep runs at most, and none once `stop` is done and as
-- long as the sweeper is not started again.
pub one_sweep_and_none_after_stop :
    (t : Timer)
    → Ticks new_timer t
    → (t.sweeps ≤ 1) × (t.is_running ≡ false → t.stopping ≡ false → t.sweeps ≡ 0)
one_sweep_and_none_after_stop t run =
    let h = reached-One new_timer t run (record { counted = refl; quiet = λ off done. refl }) in
    (ground (arith, h.counted), h.quiet)
