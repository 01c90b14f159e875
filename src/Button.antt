-- ===== src/Button.antt =====
-- common/button.c: buttons on pins that bounce. Each entry is one line of the board's table with
-- its `struct button_state_t`. The levels of the pins and the time in us are arguments; the calls
-- of keyboard_update_button are a list, and the delay that hook_call_deferred was last given is a
-- field.
pub mod Schedule
mod Tests
use chromium_ec.Common.{
  ℕ, ◌+◌, ◌-◌, Bool, true, false, not, List, [], ◌∷◌, ◌++◌, ltb, leb, ◌==◌, Option, some, none, min,
  if◌then◌else◌, ◌||◌,
}

-- `struct button_config` and `struct button_state_t`
pub record Button : Type 0 where
  pub button_type : ℕ
  pub gpio : ℕ
  pub debounce_us : ℕ
  pub active_high : Bool
  pub debounce_time : ℕ
  pub debounced_pressed : Bool

pub record Buttons : Type 0 where
  pub entries : List Button
  pub next_deferred_time : ℕ
  pub deferred : Option ℕ
  pub updates : List (ℕ × Bool)

-- `raw_button_pressed`
abbrev pub raw_button_pressed : (ℕ → Bool) → Button → Bool
raw_button_pressed levels b = if b.active_high then levels b.gpio else not (levels b.gpio)

abbrev pub init_entries : (ℕ → Bool) → List Button → List Button
init_entries levels [] = []
init_entries levels (b ∷ bs) =
    record b { debounced_pressed = raw_button_pressed levels b; debounce_time = 0 }
    ∷ init_entries levels bs

-- `button_init`
pub init : (ℕ → Bool) → Buttons → Buttons
init levels s = record s { entries = init_entries levels s.entries; next_deferred_time = 0 }

abbrev pub differs : Bool → Bool → Bool
differs true b = not b
differs false b = b

-- One round of the loop of `button_change_deferred`: the entry, what the keyboard is told, and the
-- soonest time.
pub change_entry : (ℕ → Bool) → ℕ → Button → ℕ → Button × List (ℕ × Bool) × ℕ
change_entry levels now b soonest =
    let new_pressed = raw_button_pressed levels b in
    if b.debounce_time == 0
    then (b, [], soonest)
    else if leb b.debounce_time now
    then (if differs b.debounced_pressed new_pressed
        then (
          record b { debounced_pressed = new_pressed; debounce_time = 0 },
          (b.button_type, new_pressed) ∷ [],
          soonest,
        )
        else (record b { debounce_time = 0 }, [], soonest))
    else (b, [], if soonest == 0 then b.debounce_time else min soonest b.debounce_time)

-- The loop.
pub change_entries : (ℕ → Bool) → ℕ → List Button → ℕ → List Button × List (ℕ × Bool) × ℕ
change_entries levels now [] soonest = ([], [], soonest)
change_entries levels now (b ∷ bs) soonest =
    let (b', us, soon) = change_entry levels now b soonest in
    let (bs', us', soon') = change_entries levels now bs soon in (b' ∷ bs', us ++ us', soon')

-- `button_change_deferred`, which the hook task runs with no call pending.
pub change_deferred : (ℕ → Bool) → ℕ → Buttons → Buttons
change_deferred levels now s =
    let (bs, us, soonest) = change_entries levels now s.entries 0 in
    let s' = record s { entries = bs; updates = s.updates ++ us; deferred = none } in
    if soonest == 0
    then s'
    else record s' { next_deferred_time = soonest; deferred = some (soonest - now) }

-- The loop of `button_interrupt`: the entries, and the time of the first entry of the pin.
pub interrupt_entries : ℕ → ℕ → List Button → List Button × Option ℕ
interrupt_entries signal now [] = ([], none)
interrupt_entries signal now (b ∷ bs) =
    let (bs', t) = interrupt_entries signal now bs in
    if b.gpio == signal
    then (record b { debounce_time = now + b.debounce_us } ∷ bs, some (now + b.debounce_us))
    else (b ∷ bs', t)

abbrev pub schedule : ℕ → Option ℕ → Buttons → Buttons
schedule now none s = s
schedule now (some t) s =
    if leb s.next_deferred_time now || ltb t s.next_deferred_time
    then record s { next_deferred_time = t; deferred = some (t - now) }
    else s

-- `button_interrupt`
pub interrupt : ℕ → ℕ → Buttons → Buttons
interrupt signal now s =
    let (bs, t) = interrupt_entries signal now s.entries in
    schedule now t (record s { entries = bs })
