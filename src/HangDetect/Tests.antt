-- ===== src/HangDetect/Tests.antt =====
-- The hang detector on concrete states.
use chromium_ec.Common.{ℕ, ◌≡◌, ◌+◌, refl, true, false, some, List, [], ◌∷◌, arith}
use chromium_ec.HostEvent.{set_single_event}
use chromium_ec.HangDetect.{
  Params, Detector, start, step, shutdown, timer, button, lid_change, chipset_suspend,
  any_host_command, configure, Event, run, hang_detect_event, hang_reboot_event,
}
use chromium_ec.HangDetect.Safety.{IsValid, run-IsValid, shutdown_silent}
use chromium_ec.HangDetect.Timing.{start_then_reboot}

abbrev params : Params
params = record { flags = 1; host_event_timeout_msec = 5; warm_reboot_timeout_msec = 8 }

abbrev waiting : Detector
waiting = record {
  hdparams = params;
  active = false;
  timeout_will_reboot = false;
  deferred = some 5000;
  host = record {
    events = 0;
    events_copy_b = 0;
    host_events = 0;
    smi_mask = 0;
    sci_mask = 0;
    wake_mask = 0;
    init_done = true;
    st_smi = false;
    st_sci = false;
    memmap = 0;
    wake_l = true;
    smi_pulses = 0;
    sci_pulses = 0;
  };
  resets = 0;
}

waiting-IsValid : IsValid waiting
waiting-IsValid = omega arith

abbrev happenings : List Event
happenings =
    button true
    ∷ timer
    ∷ configure (record params { warm_reboot_timeout_msec = 3 })
    ∷ timer
    ∷ lid_change true
    ∷ chipset_suspend
    ∷ any_host_command
    ∷ []

run-IsValid_example : IsValid (run happenings waiting)
run-IsValid_example = run-IsValid happenings waiting-IsValid

shutdown_silent_example :
    ((run (timer ∷ button true ∷ timer ∷ []) (shutdown waiting)).host ≡ waiting.host)
    × ((run (timer ∷ button true ∷ timer ∷ []) (shutdown waiting)).resets ≡ 0)
shutdown_silent_example = shutdown_silent (timer ∷ button true ∷ timer ∷ []) waiting (omega arith)

start_then_reboot_example :
    let started = start waiting in
    let told = step timer started in
    let rebooted = step timer told in
    (started.deferred ≡ some 5000)
    × (told.deferred ≡ some 3000)
    × (◌≡◌ {A = ℕ} (5000 + 3000) 8000)
    × (told.host ≡ set_single_event hang_detect_event waiting.host)
    × (told.resets ≡ 0)
    × (rebooted.host
        ≡ set_single_event hang_reboot_event (set_single_event hang_detect_event waiting.host))
    × (rebooted.resets ≡ 1)
    × (rebooted.active ≡ false)
start_then_reboot_example =
    start_then_reboot waiting waiting-IsValid refl (omega arith) (omega arith)
