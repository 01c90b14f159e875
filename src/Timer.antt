-- ===== src/Timer.antt =====
-- common/timer.c: the timers of the tasks, one each, which the timer interrupt serves. A time is
-- the 64-bit count of microseconds. The readings of the clock are an argument, and the event that
-- is asked of the clock hardware is a field. `process_timers` runs in an interrupt and only tasks
-- arm timers, so that none is armed within it.
pub mod Pass
pub mod Count
pub mod Served
pub mod Round
pub mod Service
mod Tests
use chromium_ec.Common.{
  ℕ, zero, suc, ◌+◌, ◌-◌, ◌*◌, ◌/◌, ◌%◌, ◌^◌, Bool, true, false, ◌&&◌, ◌||◌, ltb, leb, ◌==◌,
  nonzero, Option, some, none, if◌then◌else◌, bit_and,
}
use mathlib.Core.Option
use chromium_ec.HostEvent.{atomic_clear, atomic_or}
use chromium_ec.Task.{update, highest}

-- TASK_EVENT_TIMER
abbrev pub event_timer : ℕ
event_timer = 2 ^ 31

-- `le.hi` and `le.lo` of a time.
abbrev pub hi : ℕ → ℕ
hi t = t / 2 ^ 32

abbrev pub lo : ℕ → ℕ
lo t = t % 2 ^ 32

-- The value -1ull of `next`.
abbrev pub never : ℕ
never = 2 ^ 64 - 1

pub record Timers : Type 0 where
  pub running : ℕ  -- `timer_running`
  pub deadline : ℕ → ℕ  -- `timer_deadline`
  pub next_deadline : ℕ
  pub clksrc_high : ℕ
  pub hw_event : Option ℕ  -- the last of __hw_clock_event_set and __hw_clock_event_clear
  pub irq_pending : Bool  -- task_trigger_irq(timer_irq)
  pub events : ℕ → ℕ  -- of each task

pub expire_timer : ℕ → Timers → Timers
expire_timer tskid t = record t {
  running = atomic_clear t.running (2 ^ tskid);
  events = update t.events tskid (atomic_or (t.events tskid) event_timer);
}

-- The new `next` after the timer with this deadline.
pub sooner : ℕ → ℕ → ℕ → ℕ
sooner now next deadline =
    if leb deadline now
    then next
    else if (hi deadline == hi now) && ltb (lo deadline) (lo next)
    then deadline
    else next

-- `while (check_timer)`: `next`, and the timers; `none` if the fuel runs out.
pub pass : ℕ → ℕ → ℕ → ℕ → Timers → Option (ℕ × Timers)
pass zero check now next t = none
pass (suc fuel) check now next t =
    let tskid = highest 32 check in
    let deadline = t.deadline tskid in
    let rest =
      pass fuel (atomic_clear check (2 ^ tskid)) now (sooner now next deadline)
        (if leb deadline now then expire_timer tskid t else t) in
    if nonzero check then rest else some (next, t)

-- The end of one round of `process_timers`: whether it is the last one, and the timers.
pub set_next : ℕ → ℕ → Timers → Bool × Timers
set_next next now t =
    if hi next == 0xffffffff
    then (true, record t { hw_event = none; next_deadline = 0xffffffff })
    else (ltb now next, record t { hw_event = some (lo next); next_deadline = lo next })

-- The body of the loop of `process_timers`, at its two readings of the clock. No timer is armed
-- within it, so that the pass is not repeated (Pass).
pub round : ℕ → ℕ → Timers → Option (Bool × Timers)
round now after t = Option.map (λ out. set_next out.0 after out.1) (pass 33 t.running now never t)

-- `while (next.val <= get_time().val)`
pub after_round : Option (Bool × Timers) → (Timers → Option Timers) → Option Timers
after_round none again = none
after_round (some (true, t)) again = some t
after_round (some (false, t)) again = again t

-- The loop, from its round `k` on, with the readings of the clock in order; `none` if the fuel runs
-- out.
pub process : ℕ → (ℕ → ℕ) → ℕ → Timers → Option Timers
process zero clock k t = none
process (suc fuel) clock k t =
    after_round (round (clock (2 * k)) (clock (2 * k + 1)) t) (process fuel clock (k + 1))

-- `process_timers`
pub process_timers : ℕ → (ℕ → ℕ) → Bool → Timers → Option Timers
process_timers fuel clock overflow t =
    process fuel clock 0
      (record t { clksrc_high = if overflow then (t.clksrc_high + 1) % 2 ^ 32 else t.clksrc_high })

-- `timer_arm`: whether the timer was free (EC_SUCCESS, or EC_ERROR_BUSY).
pub arm : ℕ → ℕ → Timers → Bool × Timers
arm tstamp tskid t =
    let due =
      ltb (hi tstamp) t.clksrc_high
      || (hi tstamp == t.clksrc_high) && leb (lo tstamp) t.next_deadline in
    let armed = record t {
      deadline = update t.deadline tskid tstamp;
      running = atomic_or t.running (2 ^ tskid);
      irq_pending = t.irq_pending || due;
    } in
    if nonzero (bit_and t.running (2 ^ tskid)) then (false, t) else (true, armed)

pub cancel : ℕ → Timers → Timers
cancel tskid t = record t { running = atomic_clear t.running (2 ^ tskid) }
