-- ===== src/Thermal/Tests.antt =====
-- common/thermal.c on concrete sensors.
use chromium_ec.Common.{ℕ, ◌≡◌, refl, true, false, List, [], ◌∷◌, Option, some, none}
use chromium_ec.Util.Cond
use chromium_ec.Thermal.{Sensor, Thermal, query_next, fan_percent}
use chromium_ec.Thermal.Limits.{hot_after}
use chromium_ec.Thermal.Hot.{hot, any_read}

-- The CPU warns from 340 K on and halts over 370 K, and has one DPTF threshold; the board has only
-- the warning.
abbrev cpu : Sensor
cpu = record {
  warn = 340;
  high = 0;
  halt = 370;
  fan_off = 310;
  fan_max = 350;
  thresholds = record { temp = some 330; over = 0 } ∷ [];
}

abbrev board : Sensor
board = record { warn = 320; high = 0; halt = 0; fan_off = 0; fan_max = 0; thresholds = [] }

abbrev cool : Thermal
cool = record {
  sensors = cpu ∷ board ∷ [];
  seen = 0;
  cond_warn = 0;
  cond_high = 0;
  cond_halt = 0;
  throttle = record {
    soft_request = 2;
    hard_request = 0;
    host = record {
      events = 0;
      events_copy_b = 0;
      host_events = 0;
      smi_mask = 0;
      sci_mask = 0;
      wake_mask = 0;
      init_done = true;
      st_smi = false;
      st_sci = false;
      memmap = 0;
      wake_l = true;
      smi_pulses = 0;
      sci_pulses = 0;
    };
    chipset = 0;
  };
  shutdowns = 0;
  fan_needed = 0;
}

abbrev history : List (List (Option ℕ))
history =
    (some 345 ∷ some 300 ∷ [])
    ∷ (some 335 ∷ some 330 ∷ [])
    ∷ (none ∷ none ∷ [])
    ∷ (some 371 ∷ none ∷ [])
    ∷ []

hot_after-history : hot_after (λ s. s.warn) cool.sensors history false ≡ true
unfolding hot_after hot any_read
hot_after-history = refl

fan_percent-half : fan_percent 310 350 330 ≡ 50
unfolding fan_percent
fan_percent-half = refl

query_next-seen : query_next 3 0 6 ≡ (some 1, 4)
unfolding query_next
query_next-seen = refl
