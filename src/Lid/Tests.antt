-- ===== src/Lid/Tests.antt =====
-- A run of the code of Lid, and the theorem at a concrete input.
use chromium_ec.Common.{◌≡◌, refl, true, false, List, [], ◌∷◌, arith}
use chromium_ec.KeyScan.{scan_enable}
use chromium_ec.KeyScan.Boot.{cleared}
use chromium_ec.Lid.{
  Event, deferred, enable, init, run, step, change_deferred, switch_close, keyboard_lid_change,
}
use chromium_ec.Lid.Scanning.{IsSynced, run-Scanning}

abbrev closing : List Event
closing = deferred false ∷ enable false 4 ∷ enable true 4 ∷ []

-- A lid that is closed when the firmware starts does not stop the scans.
closed_at_boot : (init false cleared).scanner.disable_scanning_mask ≡ 0
unfolding init
closed_at_boot = refl

closed_later : (run closing (init true cleared)).scanner.disable_scanning_mask ≡ 1
unfolding run step init change_deferred switch_close keyboard_lid_change scan_enable
closed_later = refl

run-Scanning_example : IsSynced (run closing (init true cleared))
run-Scanning_example =
    run-Scanning true cleared closing (omega arith, refl, (omega arith, refl, tt))
