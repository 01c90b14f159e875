-- ===== src/Throttle/Tests.antt =====
-- Throttle requests on concrete states.
use chromium_ec.Common.{nonzero, ◌≡◌, refl, true, false, List, [], ◌∷◌, arith, ◌||◌}
use chromium_ec.Throttle.{
  off, on, soft, hard, thermal, power, Throttle, apply_level, throttle_ap, Request, run,
}
use chromium_ec.Throttle.Requests.{run_or, asks}

abbrev idle : Throttle
idle = record {
  soft_request = 0;
  hard_request = 2;
  host = record {
    events = 0;
    events_copy_b = 0;
    host_events = 0;
    smi_mask = 0;
    sci_mask = 0;
    wake_mask = 0;
    init_done = true;
    st_smi = false;
    st_sci = false;
    memmap = 0;
    wake_l = true;
    smi_pulses = 0;
    sci_pulses = 0;
  };
  chipset = 0;
}

abbrev requests : List Request
requests =
    record { level = on; type = soft; source = thermal }
    ∷ record { level = on; type = soft; source = power }
    ∷ record { level = off; type = soft; source = thermal }
    ∷ record { level = off; type = hard; source = power }
    ∷ []

run-requests : ((run requests idle).soft_request ≡ 2) × ((run requests idle).hard_request ≡ 0)
unfolding run throttle_ap apply_level
run-requests = (refl, refl)

run_or_example :
    nonzero (run requests idle).soft_request
    ≡ (asks soft thermal requests false || asks soft power requests false)
run_or_example = run_or requests soft idle (omega arith)
