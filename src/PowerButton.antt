-- ===== src/PowerButton.antt =====
-- common/power_button_x86.c: the signal of the power button to the chipset (PCH), which follows the
-- button but for pulses of its own. What the firmware asks of its other parts in an event (the
-- button, the lid, the chipset, the battery) is an argument; the calls that wake the chipset and
-- the task are recorded. CONFIG_BRINGUP is off and HAS_TASK_CHARGER on. Times are in microseconds.
pub mod Signal
pub mod Stretch
pub mod Held
mod Tests
use chromium_ec.Common.{
  ℕ, zero, suc, ◌+◌, ◌-◌, ◌*◌, Bool, true, false, not, ◌&&◌, ◌||◌, List, [], ◌∷◌, ◌++◌, ltb, ◌==◌,
  if◌then◌else◌,
}

-- PWRBTN_DELAY_T0, PWRBTN_DELAY_T1 and PWRBTN_INITIAL_US
abbrev pub delay_t0 : ℕ
delay_t0 = 32 * 1000

abbrev pub delay_t1 : ℕ
delay_t1 = 4 * 1000000 - delay_t0

abbrev pub initial_us : ℕ
initial_us = 200 * 1000

-- `enum power_button_state`
pub data Phase : Type 0 where
  idle pressed t0 t1 held lid_open released eat_release init_on boot_kb_reset was_off : Phase

-- power_button_is_pressed, chipset_in_state of any off state and of on, charge_want_shutdown,
-- whether the charger is still in PWR_STATE_INIT, lid_is_open, system_jumped_to_this_image,
-- RESET_FLAG_RESET_PIN and RESET_FLAG_AP_OFF, and whether the down arrow is the boot key.
pub record Inputs : Type 0 where
  pub button : Bool
  pub any_off : Bool
  pub on : Bool
  pub want_shutdown : Bool
  pub charger_init : Bool
  pub lid : Bool
  pub jumped : Bool
  pub reset_pin : Bool
  pub ap_off : Bool
  pub down_arrow : Bool

-- chipset_exit_hard_off and task_wake of the power button task
pub data Call : Type 0 where
  exit_hard_off wake_task : Call

-- `high` is the level of GPIO_PCH_PWRBTN_L, which is asserted when low.
pub record Button : Type 0 where
  pub phase : Phase
  pub tnext : ℕ
  pub high : Bool
  pub calls : List Call

pub set_pwrbtn_to_pch : Inputs → Bool → Button → Button
set_pwrbtn_to_pch x level b =
    if not level && x.want_shutdown then record b { high = true } else record b { high = level }

pub call : Call → Button → Button
call c b = record b { calls = b.calls ++ c ∷ [] }

pub pch_release : Inputs → Button → Button
pch_release x b = record (set_pwrbtn_to_pch x true b) {
  phase = if x.button then eat_release else idle;
}

pub pch_pulse : Inputs → ℕ → Button → Button
pch_pulse x now b = call wake_task (record (set_pwrbtn_to_pch x false (call exit_hard_off b)) {
  phase = lid_open;
  tnext = now + initial_us;
})

-- power_button_pressed and power_button_released
abbrev pub button_pressed : ℕ → Button → Button
button_pressed now b = record b { phase = pressed; tnext = now }

abbrev pub button_released : ℕ → Button → Button
button_released now b = record b { phase = released; tnext = now }

pub set_initial_state : Inputs → Button → Button
set_initial_state x b =
    if x.jumped && x.on
    then (if x.button then set_pwrbtn_to_pch x false b else b)
    else if x.ap_off || x.down_arrow
    then pch_release x b
    else record b { phase = init_on }

-- The `switch` of state_machine, after the reset of tnext_state; the clock is read again in one
-- case.
pub change_phase : Inputs → (now later : ℕ) → Phase → Button → Button
change_phase x now later pressed b = set_pwrbtn_to_pch x false (
    if x.any_off
    then record (call exit_hard_off b) { tnext = now + initial_us; phase = was_off }
    else record b { tnext = now + delay_t0; phase = t0 })
change_phase x now later t0 b =
    set_pwrbtn_to_pch x true (record b { tnext = now + delay_t1; phase = t1 })
change_phase x now later t1 b = record (if x.any_off then b else set_pwrbtn_to_pch x false b) {
  phase = held;
}
change_phase x now later released b = record (set_pwrbtn_to_pch x true b) { phase = idle }
change_phase x now later lid_open b = record (set_pwrbtn_to_pch x true b) { phase = idle }
change_phase x now later init_on b =
    if x.charger_init then b else record (set_pwrbtn_to_pch x false (call exit_hard_off b)) {
      tnext = later + initial_us;
      phase = if x.button then (if x.reset_pin then boot_kb_reset else was_off) else released;
    }
change_phase x now later boot_kb_reset b = record (set_pwrbtn_to_pch x true b) {
  phase = if x.button then eat_release else idle;
}
change_phase x now later was_off b =
    if x.button then record b { phase = held } else button_released now b
change_phase x now later idle b = b
change_phase x now later held b = b
change_phase x now later eat_release b = b

pub state_machine : Inputs → (now later : ℕ) → Button → Button
state_machine x now later b =
    if ltb now b.tnext then b else change_phase x now later b.phase (record b { tnext = 0 })

-- powerbtn_x86_lid_change
pub lid_change : Inputs → ℕ → Button → Button
lid_change x now b = if x.lid && x.any_off then pch_pulse x now b else b

-- An initial pulse, in which changes of the button are ignored.
abbrev pub is_initial : Phase → Bool
is_initial boot_kb_reset = true
is_initial init_on = true
is_initial lid_open = true
is_initial was_off = true
is_initial _ = false

abbrev pub is_eat_release : Phase → Bool
is_eat_release eat_release = true
is_eat_release _ = false

abbrev pub is_init_on : Phase → Bool
is_init_on init_on = true
is_init_on _ = false

-- powerbtn_x86_changed
pub changed : Inputs → ℕ → Button → Button
changed x now b =
    if is_initial b.phase
    then b
    else if x.button
    then call wake_task (button_pressed now b)
    else if is_eat_release b.phase
    then record b { phase = idle }
    else call wake_task (button_released now b)

-- powerbtn_x86_charge
pub charge : Button → Button
charge b = if is_init_on b.phase then call wake_task b else b

-- When power_button_task wakes up by itself: at once, or at tnext_state, or never (`forever`).
pub data Sleep : Type 0 where
  not_at_all forever : Sleep
  for_us : ℕ → Sleep

pub task_sleep : ℕ → Button → Sleep
task_sleep now b =
    if b.tnext == 0 then forever else if ltb now b.tnext then for_us (b.tnext - now) else not_at_all

-- The hooks, the calls of other modules and a round of the task, in any order.
pub data Event : Type 0 where
  task : (now later : ℕ) → Event
  lid_changed button_changed pulse : (now : ℕ) → Event
  charge_changed release : Event

pub step : Inputs → Event → Button → Button
step x (task now later) b = state_machine x now later b
step x (lid_changed now) b = lid_change x now b
step x (button_changed now) b = changed x now b
step x (pulse now) b = pch_pulse x now b
step x charge_changed b = charge b
step x release b = pch_release x b

pub run : List (Inputs × Event) → Button → Button
run [] b = b
run ((x, e) ∷ events) b = run events (step x e b)

-- The statics and the pin (which is high) before the initialisation.
abbrev pub reset : Button
reset = record { phase = idle; tnext = 0; high = true; calls = [] }
