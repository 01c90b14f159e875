-- ===== src/PowerButton/Tests.antt =====
-- Runs of the code of PowerButton, and the theorems at concrete inputs.
use chromium_ec.Common.{
  ◌++◌, ◌-◌, ℕ, ◌+◌, ◌*◌, ◌≡◌, ◌≤◌, ◌≢◌, refl, true, false, List, [], ◌∷◌, arith,
}
use chromium_ec.PowerButton.{
  Button, Inputs, Event, pressed, held, task, button_changed, reset, run, step, state_machine,
  change_phase, set_initial_state, set_pwrbtn_to_pch, changed, call, delay_t0, task_sleep, forever,
}
use chromium_ec.PowerButton.Signal.{IsSound, is_timed, run-IsSound, run-AllLow}
use chromium_ec.PowerButton.Stretch.{Round, rounds_of, any_from, press-high, AllBefore}
use chromium_ec.PowerButton.Held.{press-held}

-- The button down with the chipset on.
abbrev down : Inputs
down = record {
  button = true;
  any_off = false;
  on = true;
  want_shutdown = false;
  charger_init = false;
  lid = true;
  jumped = false;
  reset_pin = false;
  ap_off = false;
  down_arrow = false;
}

abbrev up : Inputs
up = record down { button = false }

abbrev low_battery : Inputs
low_battery = record down { want_shutdown = true }

abbrev off : Inputs
off = record up { any_off = true; on = false }

-- The first boot, and a press.
abbrev events : List (Inputs × Event)
events =
    (off, task 10 10)
    ∷ (off, task 200010 200010)
    ∷ (down, button_changed 300000)
    ∷ (down, task 300000 300000)
    ∷ (down, task 340000 340000)
    ∷ []

boot_pulse : (run ((off, task 10 10) ∷ []) (set_initial_state off reset)).high ≡ false
unfolding run step state_machine change_phase set_initial_state set_pwrbtn_to_pch call
boot_pulse = refl

pause : (run events (set_initial_state off reset)).high ≡ true
unfolding run step state_machine change_phase set_initial_state set_pwrbtn_to_pch call changed
pause = refl

run-IsSound_example :
    IsSound (run events (set_initial_state off reset))
    × (is_timed (run events (set_initial_state off reset)).phase ≡ true
        → task_sleep 350000 (run events (set_initial_state off reset)) ≢ forever)
run-IsSound_example = run-IsSound off events 350000 refl

run-AllLow_example :
    (run ((low_battery, button_changed 10) ∷ (low_battery, task 10 10) ∷ []) reset).high ≡ true
run-AllLow_example =
    run-AllLow ((low_battery, button_changed 10) ∷ (low_battery, task 10 10) ∷ []) reset
      (refl, (refl, tt)) refl

abbrev press : Button
press = record reset { phase = pressed; tnext = 1000 }

abbrev round_at : ℕ → Round
round_at t = record { inputs = down; now = t; later = t; awake = refl; charged = refl }

press-high_example :
    (run (rounds_of (round_at 1000 ∷ round_at 20000 ∷ round_at 40000 ∷ [])) press).high
    ≡ any_from (1000 + delay_t0) (round_at 20000 ∷ round_at 40000 ∷ [])
press-high_example =
    press-high (round_at 1000) (round_at 20000 ∷ round_at 40000 ∷ []) press refl (omega arith)
      (omega arith, (omega arith, tt))

press-held_example :
    ((rounds : List Round)
      → AllBefore (1000 + 4 * 1000000) rounds
      → (run (rounds_of (round_at 1000 ∷ rounds)) press).phase ≢ held)
    × ((before : List Round) (second : Round) (between : List Round) (third : Round)
          (later : List Round)
        → AllBefore (second.now + 1) before
        → 1000 + 32 * 1000 ≤ second.now
        → second.now + (4 * 1000000 - 32 * 1000) ≤ third.now
        → let out =
            run
              (rounds_of (round_at 1000 ∷ (before ++ (second ∷ (between ++ (third ∷ later))))))
              press in
          (out.phase ≡ held) × (out.high ≡ false))
press-held_example = press-held (round_at 1000) press refl (omega arith)

-- Three early rounds between the two that count.
held_at_last :
    (run
      (rounds_of
        (round_at 1000 ∷ round_at 20000 ∷ round_at 40000 ∷ round_at 50000 ∷ round_at 4100000 ∷ []))
      press).phase
    ≡ held
held_at_last =
    ((press-held (round_at 1000) press refl (omega arith)).1 (round_at 20000 ∷ []) (round_at 40000)
      (round_at 50000 ∷ []) (round_at 4100000) [] (omega arith, tt) (omega arith) (omega arith)).0
