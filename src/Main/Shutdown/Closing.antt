-- ===== src/Main/Shutdown/Closing.antt =====
-- One call of `shutdown`, while the sweep and the batches that run go on, and what holds at its stages.
use mathlib.Core.Path.{subst}
use settlement_engine.Prelude.{ℕ, ◌≤◌, ◌<◌, ◌≡◌, refl, ◌∙◌, true, false, Option, none, some, arith}
use settlement_engine.Processor.Polling.{
  Polling, process_if_due, poll, read_done, batch_done, reclaim_pending, reclaim_done, Step,
  started, polled, read, finished, stopped, went_on, said_goodbye, reclaiming, reclaimed,
}
use settlement_engine.Processor.Polling.Spacing.{OneAtATime, step-One}
use settlement_engine.Sweeper.Timer.{Timer, OneSweep, ticks, ends, run_sweep, sweep_ended, each-One}
use settlement_engine.Main.Shutdown.{
  Engine, Stage, begins, sweep_awaited, at_processor, batch_awaited, farewell_awaited,
  at_nonce_manager, at_client, exited, failed, advance,
}

-- the steps of the processor that are not its start or its `stop`
abbrev pub IsOngoing : {p q : Polling} → Step true p q → Type 0
IsOngoing (polled now ready p spaced) = Unit
IsOngoing (read now matches p reading) = Unit
IsOngoing (finished newer older batch next_try p at) = Unit
IsOngoing (said_goodbye p) = Unit
IsOngoing (reclaiming ready p) = Unit
IsOngoing (reclaimed matches p one) = Unit
IsOngoing (started now ready p spaced) = ⊥
IsOngoing (stopped now p) = ⊥
IsOngoing (went_on now rejected p waiting) = ⊥

process_if_due-running : (now : ℕ) (p : Polling) → (process_if_due now p).is_running ≡ p.is_running
unfolding process_if_due
process_if_due-running now p = ground arith

same_running : {p q : Polling} (s : Step true p q) → IsOngoing s → q.is_running ≡ p.is_running
unfolding poll read_done batch_done reclaim_pending reclaim_done
same_running (polled now ready p spaced) o = ground (arith, process_if_due-running now p)
same_running (read now matches p reading) o = process_if_due-running now _
same_running (finished newer older batch next_try p at) o = refl
same_running (said_goodbye p) o = refl
same_running (reclaiming ready p) o = ground arith
same_running (reclaimed matches p one) o = refl
same_running (started now ready p spaced) o = absurd o
same_running (stopped now p) o = absurd o
same_running (went_on now rejected p waiting) o = absurd o

-- a processor that has been stopped, with no read to come
pub record Halted (p : Polling) : Type 0 where
  pub off : p.is_running ≡ false
  pub unread : p.reads ≡ 0

step-Halted :
    {p q : Polling} (s : Step true p q)
    → IsOngoing s
    → Halted p
    → Halted q
      × (p.processing ≡ false → q.processing ≡ false)
      × (p.farewell ≡ none → q.farewell ≡ none)
unfolding poll read_done batch_done reclaim_pending reclaim_done
step-Halted (polled now ready p spaced) o h = ground (arith, h.off, h.unread)
step-Halted (read now matches p reading) o h = absurd (omega (arith, reading, h.unread))
step-Halted (finished newer older batch next_try p at) o h =
    (record { off = h.off; unread = h.unread }, λ e. refl, λ e. e)
step-Halted (said_goodbye p) o h = (record { off = h.off; unread = h.unread }, λ e. e, λ e. refl)
step-Halted (reclaiming ready p) o h = ground (arith, h.off, h.unread)
step-Halted (reclaimed matches p one) o h =
    (record { off = h.off; unread = h.unread }, λ e. e, λ e. e)
step-Halted (started now ready p spaced) o h = absurd o
step-Halted (stopped now p) o h = absurd o
step-Halted (went_on now rejected p waiting) o h = absurd o

-- the steps of the sweeper that are not its start or its `stop`
pub data Sweeping : Timer → Timer → Type 0 where
  sweep_ticks : (t : Timer) → Sweeping t (run_sweep t)
  sweep_ends : (t : Timer) → 0 < t.sweeps → Sweeping t (sweep_ended t)

-- The only call of `shutdown`, from its begin, with what happens between its steps: no poll begins its read
-- while another reads, and the batch that is awaited does not reject. When the call comes to stop the
-- processor, no poll awaits its read.
pub data Closing (first : Engine) : Stage → Engine → Type 0 where
  called : Closing first begins first
  sweeping :
      {s : Stage} {t u : Timer} (e : Engine)
      → Closing first s e
      → e.sweeper ≡ some t
      → Sweeping t u
      → Closing first s (record e { sweeper = some u })
  polling :
      {s : Stage} {q : Polling} (e : Engine)
      → Closing first s e
      → (step : Step true e.polling q) → IsOngoing step
      → Closing first s (record e { polling = q })
  advancing :
      (s : Stage) (e : Engine) (now : ℕ)
      → Closing first s e
      → (s ≡ at_processor → e.polling.reads ≡ 0)
      → Closing first (advance now false s e).0 (advance now false s e).1

abbrev pub level : Stage → ℕ
level begins = 0
level sweep_awaited = 1
level at_processor = 2
level batch_awaited = 3
level farewell_awaited = 4
level at_nonce_manager = 5
level at_client = 6
level exited = 7
level failed = 8

-- The sweeper by the stage of the call: it runs, it has been stopped, and its sweep has ended.
pub record Watched (n : ℕ) (t : Timer) : Type 0 where
  pub single : OneSweep t
  pub on : n ≡ 0 → t.is_running ≡ true
  pub off : 0 < n → t.is_running ≡ false
  pub over : 1 < n → t.sweeps ≡ 0

abbrev pub SweeperAt : ℕ → Option Timer → Type 0
SweeperAt n none = Unit
SweeperAt n (some t) = Watched n t

tick-Watched : {t u : Timer} (n : ℕ) → Sweeping t u → Watched n t → Watched n u
unfolding run_sweep sweep_ended
tick-Watched n (sweep_ticks t) w = record {
  single = each-One t (run_sweep t) (ticks t) w.single;
  on = λ e. ground (arith, w.on e);
  off = λ h. ground (arith, w.off h);
  over = λ h. ground (arith, w.off, w.over h);
}
tick-Watched n (sweep_ends t some_sweep) w = record {
  single = each-One t (sweep_ended t) (ends t some_sweep) w.single;
  on = w.on;
  off = w.off;
  over = λ h. omega (arith, w.over h);
}

pub record Held (n : ℕ) (e : Engine) : Type 0 where
  pub one : OneAtATime e.polling
  pub watched : SweeperAt n e.sweeper
  pub on : n ≤ 2 → e.polling.is_running ≡ true
  pub halted : 2 < n → Halted e.polling
  pub settled : 3 < n → e.polling.processing ≡ false
  pub said : 4 < n → e.polling.farewell ≡ none
  pub released : 5 < n → e.nonce_manager.lock_id ≡ none
  pub closed : 6 < n → e.clients.redis_client ≡ none

pub polling-Held :
    {q : Polling} (n : ℕ) (e : Engine) (s : Step true e.polling q)
    → IsOngoing s
    → Held n e
    → Held n (record e { polling = q })
polling-Held {q} n e s o h = record {
  one = step-One e.polling q s h.one;
  watched = h.watched;
  on = λ l. same_running s o ∙ h.on l;
  halted = λ l. (step-Halted s o (h.halted l)).0;
  settled = λ l. (step-Halted s o (h.halted (omega arith))).1 (h.settled l);
  said = λ l. (step-Halted s o (h.halted (omega arith))).2 (h.said l);
  released = h.released;
  closed = h.closed;
}

pub tick-Held :
    {t u : Timer} (n : ℕ) (e : Engine)
    → e.sweeper ≡ some t
    → Sweeping t u
    → Held n e
    → Held n (record e { sweeper = some u })
tick-Held {t} n e set s h =
    let w : Watched n t = subst (SweeperAt n) set h.watched in
    record {
      one = h.one;
      watched = tick-Watched n s w;
      on = h.on;
      halted = h.halted;
      settled = h.settled;
      said = h.said;
      released = h.released;
      closed = h.closed;
    }
