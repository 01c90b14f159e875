-- ===== src/Timer/Tests.antt =====
-- common/timer.c with three timers.
use chromium_ec.Common.{
  ℕ, zero, suc, ◌+◌, ◌*◌, ◌≡◌, ◌≤◌, refl, false, arith, some, ◌==◌, if◌then◌else◌,
}
use mathlib.Core.Option
use chromium_ec.Task.{highest}
use chromium_ec.Timer.{
  Timers, process_timers, process, after_round, round, pass, sooner, set_next, expire_timer,
}
use chromium_ec.Timer.Served.{Served, Armed}
use chromium_ec.Timer.Service.{process_timers-Served}

-- The timers 0, 1 and 3 run; 1 is due at once, and 3 while the clock is set.
abbrev three : Timers
three = record {
  running = 11;
  deadline = λ i. if i == 1 then 100 else if i == 3 then 205 else 900;
  next_deadline = 100;
  clksrc_high = 0;
  hw_event = some 100;
  irq_pending = false;
  events = λ i. 0;
}

abbrev clock : ℕ → ℕ
clock k = if k == 0 then 200 else 210

clock-onward : (k : ℕ) → clock k ≤ clock (suc k)
clock-onward zero = omega arith
clock-onward (suc k) = ground arith

process_timers-Served_example :
    (last : ℕ) × (t' : Timers) × (process_timers 33 clock false three ≡ some t')
    × Served (clock (2 * last)) three t'
    × Armed (clock (2 * last)) (clock (2 * last + 1)) t'
process_timers-Served_example =
    process_timers-Served clock false three clock-onward (λ k. ground arith) (omega arith)

-- The second round serves the timer 3.
three-left : Option.map (λ t. t.running) (process_timers 33 clock false three) ≡ some 1
unfolding process_timers process after_round round pass sooner set_next expire_timer highest
three-left = refl
