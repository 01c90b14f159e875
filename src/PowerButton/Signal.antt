-- ===== src/PowerButton/Signal.antt =====
-- The signal of common/power_button_x86.c over a whole run: the phases in which it is not asserted,
-- the timeouts, and a low battery.
use chromium_ec.Common.{
  ℕ, ◌<◌, ◌≡◌, ◌≢◌, ◌==◌, refl, Bool, true, false, ◌&&◌, List, [], ◌∷◌, arith, ltb, Bool-cases, inl,
  inr,
}
use chromium_ec.PowerButton.{
  Button, Inputs, Phase, Event, idle, pressed, t0, t1, held, lid_open, released, eat_release,
  init_on, boot_kb_reset, was_off, task, lid_changed, button_changed, pulse, charge_changed,
  release, step, run, change_phase, state_machine, set_initial_state, set_pwrbtn_to_pch, call,
  pch_release, pch_pulse, lid_change, changed, charge, reset, task_sleep, forever,
}

-- The phases that end by a timeout, and those in which the signal is not asserted.
abbrev pub is_timed : Phase → Bool
is_timed t0 = true
is_timed t1 = true
is_timed lid_open = true
is_timed boot_kb_reset = true
is_timed was_off = true
is_timed _ = false

abbrev pub is_quiet : Phase → Bool
is_quiet idle = true
is_quiet t1 = true
is_quiet eat_release = true
is_quiet _ = false

pub record IsSound (b : Button) : Type 0 where
  pub timed : is_timed b.phase ≡ true → 0 < b.tnext
  pub quiet : is_quiet b.phase ≡ true → b.high ≡ true

set_pwrbtn_to_pch-true : (x : Inputs) (b : Button) → (set_pwrbtn_to_pch x true b).high ≡ true
unfolding set_pwrbtn_to_pch
set_pwrbtn_to_pch-true x b = refl

change_phase-IsSound :
    (x : Inputs) (now later : ℕ) (p : Phase) (b : Button)
    → b.phase ≡ p
    → (is_quiet p ≡ true → b.high ≡ true)
    → IsSound (change_phase x now later p b)
unfolding change_phase set_pwrbtn_to_pch call
change_phase-IsSound x now later pressed b e q = ground (arith, e)
change_phase-IsSound x now later t0 b e q = ground (arith, e)
change_phase-IsSound x now later t1 b e q = ground (arith, e)
change_phase-IsSound x now later released b e q = ground (arith, e)
change_phase-IsSound x now later lid_open b e q = ground (arith, e)
change_phase-IsSound x now later init_on b e q = ground (arith, e)
change_phase-IsSound x now later boot_kb_reset b e q = ground (arith, e)
change_phase-IsSound x now later was_off b e q = ground (arith, e)
change_phase-IsSound x now later idle b e q = ground (arith, e)
change_phase-IsSound x now later held b e q = ground (arith, e)
change_phase-IsSound x now later eat_release b e q = ground (arith, e)

state_machine-IsSound :
    (x : Inputs) (now later : ℕ) (b : Button) → IsSound b → IsSound (state_machine x now later b)
unfolding state_machine
state_machine-IsSound x now later b s = elim (Bool-cases (ltb now b.tnext)) [
  | inl early ↦ rw early s
  | inr due ↦
      rw due (change_phase-IsSound x now later b.phase (record b { tnext = 0 }) refl s.quiet)
]

step-IsSound : (x : Inputs) (e : Event) (b : Button) → IsSound b → IsSound (step x e b)
unfolding step lid_change pch_pulse pch_release changed charge set_pwrbtn_to_pch call
step-IsSound x (task now later) b s = state_machine-IsSound x now later b s
step-IsSound x (lid_changed now) b s = ground arith
step-IsSound x (button_changed now) b s = ground arith
step-IsSound x (pulse now) b s = ground arith
step-IsSound x charge_changed b s = ground arith
step-IsSound x release b s = ground arith

run-IsSound_from :
    (events : List (Inputs × Event)) (b : Button) → IsSound b → IsSound (run events b)
unfolding run
run-IsSound_from [] b s = s
run-IsSound_from ((x, e) ∷ events) b s = run-IsSound_from events (step x e b) (step-IsSound x e b s)

initial-IsSound :
    (x : Inputs) → (x.jumped && (x.on && x.button)) ≡ false → IsSound (set_initial_state x reset)
unfolding set_initial_state pch_release set_pwrbtn_to_pch
initial-IsSound x h = ground (arith, h)

IsSound-task_sleep :
    (b : Button) (now : ℕ) → IsSound b → is_timed b.phase ≡ true → task_sleep now b ≢ forever
unfolding task_sleep
IsSound-task_sleep b now s timed =
    let set : (b.tnext == 0) ≡ false = ground (arith, s.timed timed) in
    elim (Bool-cases (ltb now b.tnext)) [
      | inl later ↦ rw (set, later) (λ e. ground (arith, e))
      | inr past ↦ rw (set, past) (λ e. ground (arith, e))
    ]

-- Unless the image starts by a jump with the chipset on and the button held: after any hooks, calls
-- and rounds of the task with any inputs and times, the signal is not asserted while the state is
-- idle, in the pause after the first short pulse, or waiting to ignore a release; and in a state
-- that ends by a timeout, the timeout is set and the task does not sleep for ever.
pub run-IsSound :
    (x : Inputs) (events : List (Inputs × Event)) (now : ℕ)
    → (x.jumped && (x.on && x.button)) ≡ false
    → let b = run events (set_initial_state x reset) in
      IsSound b × (is_timed b.phase ≡ true → task_sleep now b ≢ forever)
run-IsSound x events now h =
    let sound = run-IsSound_from events (set_initial_state x reset) (initial-IsSound x h) in
    (sound, IsSound-task_sleep (run events (set_initial_state x reset)) now sound)

-- A battery that is low in all of the events.
abbrev pub AllLow : List (Inputs × Event) → Type 0
AllLow [] = Unit
AllLow ((x, e) ∷ events) = (x.want_shutdown ≡ true) × AllLow events

change_phase-high :
    (x : Inputs) (now later : ℕ) (p : Phase) (b : Button)
    → x.want_shutdown ≡ true
    → b.high ≡ true
    → (change_phase x now later p b).high ≡ true
unfolding change_phase set_pwrbtn_to_pch call
change_phase-high x now later pressed b low h = ground (arith, low, h)
change_phase-high x now later t0 b low h = ground (arith, low, h)
change_phase-high x now later t1 b low h = ground (arith, low, h)
change_phase-high x now later released b low h = ground (arith, low, h)
change_phase-high x now later lid_open b low h = ground (arith, low, h)
change_phase-high x now later init_on b low h = ground (arith, low, h)
change_phase-high x now later boot_kb_reset b low h = ground (arith, low, h)
change_phase-high x now later was_off b low h = ground (arith, low, h)
change_phase-high x now later idle b low h = ground (arith, low, h)
change_phase-high x now later held b low h = ground (arith, low, h)
change_phase-high x now later eat_release b low h = ground (arith, low, h)

step-high :
    (x : Inputs) (e : Event) (b : Button)
    → x.want_shutdown ≡ true
    → b.high ≡ true
    → (step x e b).high ≡ true
unfolding step state_machine lid_change pch_pulse pch_release changed charge set_pwrbtn_to_pch call
step-high x (task now later) b low h = elim (Bool-cases (ltb now b.tnext)) [
  | inl early ↦ rw early h
  | inr due ↦ rw due (change_phase-high x now later b.phase (record b { tnext = 0 }) low h)
]
step-high x (lid_changed now) b low h = ground (arith, low, h)
step-high x (button_changed now) b low h = ground (arith, low, h)
step-high x (pulse now) b low h = ground (arith, low, h)
step-high x charge_changed b low h = ground (arith, low, h)
step-high x release b low h = ground (arith, low, h)

-- While the battery is too low to power on, no hook, call or round of the task asserts the signal,
-- from any state in which it is not asserted.
pub run-AllLow :
    (events : List (Inputs × Event)) (b : Button)
    → AllLow events
    → b.high ≡ true
    → (run events b).high ≡ true
unfolding run
run-AllLow [] b low h = h
run-AllLow ((x, e) ∷ events) b low h =
    run-AllLow events (step x e b) low.1 (step-high x e b low.0 h)
