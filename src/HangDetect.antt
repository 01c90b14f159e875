-- ===== src/HangDetect.antt =====
-- common/ap_hang_detect.c: detects that the AP does not answer in time, tells the host, and reboots
-- it. The statics are a record with the one call that `hook_call_deferred` may have pending (a new
-- one replaces it, common/hooks.c), the host events that the code sets, and a count of the warm
-- resets that it asks of the chipset. Console output is left out.
pub mod Timing
pub mod Safety
mod Tests
use chromium_ec.Common.{
  nonzero, ℕ, zero, suc, ◌+◌, ◌-◌, ◌*◌, ◌^◌, Bool, true, false, not, ◌&&◌, leb, ◌==◌, if◌then◌else◌,
  bit_and, Option, none, some, List, [], ◌∷◌,
}
use chromium_ec.HostEvent.{HostEvents, set_single_event}

-- `struct ec_params_hang_detect`
pub record Params : Type 0 where
  pub flags : ℕ
  pub host_event_timeout_msec : ℕ
  pub warm_reboot_timeout_msec : ℕ

-- The bits of `flags`: EC_HANG_*.
abbrev pub start_on_power_press : ℕ
start_on_power_press = 2 ^ 0

abbrev pub start_on_lid_close : ℕ
start_on_lid_close = 2 ^ 1

abbrev pub start_on_lid_open : ℕ
start_on_lid_open = 2 ^ 2

abbrev pub start_on_resume : ℕ
start_on_resume = 2 ^ 3

abbrev pub stop_on_power_release : ℕ
stop_on_power_release = 2 ^ 8

abbrev pub stop_on_host_command : ℕ
stop_on_host_command = 2 ^ 9

abbrev pub stop_on_suspend : ℕ
stop_on_suspend = 2 ^ 10

abbrev pub start_now : ℕ
start_now = 2 ^ 30

abbrev pub stop_now : ℕ
stop_now = 2 ^ 31

abbrev pub msec : ℕ
msec = 1000

-- EC_HOST_EVENT_HANG_DETECT and EC_HOST_EVENT_HANG_REBOOT
abbrev pub hang_detect_event : ℕ
hang_detect_event = 20

abbrev pub hang_reboot_event : ℕ
hang_reboot_event = 21

pub record Detector : Type 0 where
  pub hdparams : Params
  pub active : Bool
  pub timeout_will_reboot : Bool
  pub deferred : Option ℕ  -- the delay, in microseconds, of the pending call
  pub host : HostEvents
  pub resets : ℕ

abbrev pub has_flag : Detector → ℕ → Bool
has_flag s flag = nonzero (bit_and s.hdparams.flags flag)

-- `hang_detect_deferred`. `Safety` keeps the reboot timeout above the event timeout, so that the
-- difference of the two does not stop at 0.
pub expire : Detector → Detector
expire s =
    if active
    then (if timeout_will_reboot
        then record s {
          host = set_single_event hang_reboot_event host;
          resets = resets + 1;
          active = false;
        }
        else (if nonzero hdparams.warm_reboot_timeout_msec
            then record s {
              host = set_single_event hang_detect_event host;
              timeout_will_reboot = true;
              deferred =
                  some
                    ((hdparams.warm_reboot_timeout_msec - hdparams.host_event_timeout_msec) * msec);
            }
            else record s { host = set_single_event hang_detect_event host; active = false }))
    else s
  where
    open s use {active, timeout_will_reboot, hdparams, host, resets}

-- `hang_detect_start`
pub start : Detector → Detector
start s =
    if s.active
    then s
    else (if nonzero s.hdparams.host_event_timeout_msec
        then record s {
          timeout_will_reboot = false;
          active = true;
          deferred = some (s.hdparams.host_event_timeout_msec * msec);
        }
        else (if nonzero s.hdparams.warm_reboot_timeout_msec
            then record s {
              timeout_will_reboot = true;
              active = true;
              deferred = some (s.hdparams.warm_reboot_timeout_msec * msec);
            }
            else s))

-- `hang_detect_stop`
pub stop : Detector → Detector
stop s = record s { active = false }

-- `hang_detect_stop_on_host_command`
pub stop_on_command : Detector → Detector
stop_on_command s = if has_flag s stop_on_host_command then stop s else s

-- `hang_detect_power_button`, `hang_detect_lid`, `hang_detect_resume`, `hang_detect_suspend` and
-- `hang_detect_shutdown`. The state of the button and of the lid is an argument.
pub power_button : Bool → Detector → Detector
power_button pressed s =
    if pressed
    then (if has_flag s start_on_power_press then start s else s)
    else (if has_flag s stop_on_power_release then stop s else s)

pub lid : Bool → Detector → Detector
lid is_open s =
    if is_open
    then (if has_flag s start_on_lid_open then start s else s)
    else (if has_flag s start_on_lid_close then start s else s)

pub resume : Detector → Detector
resume s = if has_flag s start_on_resume then start s else s

pub suspend : Detector → Detector
suspend s = if has_flag s stop_on_suspend then stop s else s

abbrev pub no_params : Params
no_params = record { flags = 0; host_event_timeout_msec = 0; warm_reboot_timeout_msec = 0 }

pub shutdown : Detector → Detector
shutdown s = record (stop s) { hdparams = no_params }

-- The end of `hang_detect_host_command`: a reboot that comes first makes the event timeout moot.
pub sanitize : Params → Params
sanitize p =
    if nonzero p.warm_reboot_timeout_msec
      && leb p.warm_reboot_timeout_msec p.host_event_timeout_msec
    then record p { host_event_timeout_msec = 0 }
    else p

-- `hang_detect_host_command`; it always returns EC_RES_SUCCESS.
pub host_command : Params → Detector → Detector
host_command p s =
    if nonzero (bit_and p.flags stop_now)
    then stop s
    else (if nonzero (bit_and p.flags start_now)
        then start s
        else (let s' = if nonzero s.hdparams.flags && not (nonzero p.flags) then stop s else s in
            record s' { hdparams = sanitize p }))

-- What can happen to the detector. The hook task makes a pending deferred call; it clears the time
-- first, so that the call may ask for another.
pub data Event : Type 0 where
  timer : Event
  button : Bool → Event
  lid_change : Bool → Event
  chipset_resume : Event
  chipset_suspend : Event
  chipset_shutdown : Event
  any_host_command : Event
  configure : Params → Event

pub fire : Option ℕ → Detector → Detector
fire none s = s
fire (some us) s = expire (record s { deferred = none })

pub step : Event → Detector → Detector
step timer s = fire s.deferred s
step (button pressed) s = power_button pressed s
step (lid_change is_open) s = lid is_open s
step chipset_resume s = resume s
step chipset_suspend s = suspend s
step chipset_shutdown s = shutdown s
step any_host_command s = stop_on_command s
step (configure p) s = host_command p s

pub run : List Event → Detector → Detector
run [] s = s
run (e ∷ es) s = run es (step e s)
