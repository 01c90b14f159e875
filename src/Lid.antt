-- ===== src/Lid.antt =====
-- common/lid_switch.c: the debounced lid, over the hook HOOK_LID_CHANGE by which
-- common/keyboard_scan.c stops scanning while the lid is closed. The level of the pin is an
-- argument; hook_call_deferred only delays lid_change_deferred.
pub mod Scanning
mod Tests
use chromium_ec.Common.{ℕ, ◌^◌, Bool, true, false, not, List, [], ◌∷◌, if◌then◌else◌}
use chromium_ec.KeyScan.{State, scan_enable}

-- `debounced_lid_open`, the keyboard scanner, and the host events that were set, the last one
-- first: true is EC_HOST_EVENT_LID_OPEN, false EC_HOST_EVENT_LID_CLOSED.
pub record Lid : Type 0 where
  pub is_open : Bool
  pub scanner : State
  pub sent : List Bool

-- KB_SCAN_DISABLE_LID_CLOSED
abbrev pub disable_lid_closed : ℕ
disable_lid_closed = 2 ^ 0

-- keyboard_lid_change of common/keyboard_scan.c
pub keyboard_lid_change : Bool → State → State
keyboard_lid_change is_open s = scan_enable is_open disable_lid_closed s

pub switch_open : Lid → Lid
switch_open l = if l.is_open then l else record {
  is_open = true;
  scanner = keyboard_lid_change true l.scanner;
  sent = true ∷ l.sent;
}

pub switch_close : Lid → Lid
switch_close l = if not l.is_open then l else record {
  is_open = false;
  scanner = keyboard_lid_change false l.scanner;
  sent = false ∷ l.sent;
}

-- lid_init
pub init : Bool → State → Lid
init raw_open s = record { is_open = raw_open; scanner = s; sent = [] }

-- lid_change_deferred, whose comparison is of two numbers that are 0 or 1.
pub change_deferred : Bool → Lid → Lid
change_deferred raw_open l =
    if (if raw_open then l.is_open else not l.is_open)
    then l
    else if raw_open
    then switch_open l
    else switch_close l

-- The deferred call, the console commands lidopen and lidclose, and another module's call of
-- keyboard_scan_enable.
pub data Event : Type 0 where
  deferred : (raw_open : Bool) → Event
  open_command close_command : Event
  enable : Bool → (mask : ℕ) → Event

pub step : Event → Lid → Lid
step (deferred raw_open) l = change_deferred raw_open l
step open_command l = switch_open l
step close_command l = switch_close l
step (enable on mask) l = record l { scanner = scan_enable on mask l.scanner }

pub run : List Event → Lid → Lid
run [] l = l
run (e ∷ events) l = run events (step e l)
