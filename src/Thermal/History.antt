-- ===== src/Thermal/History.antt =====
-- The thermal control of common/thermal.c over a history of readings.
use chromium_ec.Common.{ℕ, ◌+◌, ◌≡◌, ◌≤◌, Bool, not, ◌&&◌, List, [], ◌∷◌, Option, if◌then◌else◌}
use chromium_ec.Thermal.{Thermal, control}
use chromium_ec.Thermal.Limits.{SameLimits, hot_next, hot_after, rises}
use chromium_ec.Thermal.Control.{Follows}

-- What one control leaves.
record Controlled (readings : List (Option ℕ)) (w h x : Bool) (s s' : Thermal) : Type 0 where
  follows :
      Follows
        (hot_next (λ s. s.warn) s.sensors readings w)
        (hot_next (λ s. s.high) s.sensors readings h)
        (hot_next (λ s. s.halt) s.sensors readings x)
        s'
  limits : SameLimits s.sensors s'.sensors
  fan_in : s.fan_needed ≤ 100 → s'.fan_needed ≤ 100
  shutdowns_is :
      s'.shutdowns
      ≡ s.shutdowns + (if hot_next (λ s. s.halt) s.sensors readings x && not x then 1 else 0)

-- The controls of a history of readings.
pub run : List (List (Option ℕ)) → Thermal → Thermal
run [] s = s
run (r ∷ rs) s = run rs (control r s)

-- The state after a history, in which the limits were exceeded as the flags say before.
pub record IsControlled (history : List (List (Option ℕ))) (w h x : Bool) (s s' : Thermal)
    : Type 0 where
  pub follows :
      Follows
        (hot_after (λ s. s.warn) s.sensors history w)
        (hot_after (λ s. s.high) s.sensors history h)
        (hot_after (λ s. s.halt) s.sensors history x)
        s'
  pub fan_in : s'.fan_needed ≤ 100
  pub shutdowns_is : s'.shutdowns ≡ s.shutdowns + rises (λ s. s.halt) s.sensors history x
