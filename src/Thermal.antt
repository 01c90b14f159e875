-- ===== src/Thermal.antt =====
-- common/thermal.c: the thermal control that runs each second, over the conditions of Util.Cond,
-- the throttling of Throttle and the host events. A temperature is in degrees K, and so not
-- negative; what `temp_sensor_read` gives, nothing if it fails, is an argument. The calls of
-- chipset_force_shutdown are counted, and the percentage for the fans (CONFIG_FANS) is a field.
pub mod Hot
pub mod Control
pub mod Limits
pub mod History
mod Tests
use chromium_ec.Common.{
  ℕ, zero, suc, ◌+◌, ◌-◌, ◌*◌, ◌/◌, ◌^◌, Bool, true, false, not, ◌&&◌, ◌||◌, List, [], ◌∷◌, ltb,
  leb, ◌==◌, nonzero, Option, some, none, if◌then◌else◌, bit_and, get_or, set,
}
use chromium_ec.HostEvent.{set_single_event, atomic_or, atomic_clear}
use chromium_ec.Throttle.{Throttle, throttle_ap, Level, on, off, soft, hard, thermal}
use chromium_ec.Util.Cond

-- EC_HOST_EVENT_THERMAL_THRESHOLD and EC_HOST_EVENT_THERMAL
abbrev pub thermal_threshold_event : ℕ
thermal_threshold_event = 9

abbrev pub thermal_event : ℕ
thermal_event = 11

-- An element of `dptf_threshold`; a temperature of -1 is `none`.
pub record Threshold : Type 0 where
  pub temp : Option ℕ
  pub over : ℕ

-- `struct ec_thermal_config` with the thresholds of the sensor.
pub record Sensor : Type 0 where
  pub warn : ℕ
  pub high : ℕ
  pub halt : ℕ
  pub fan_off : ℕ
  pub fan_max : ℕ
  pub thresholds : List Threshold

abbrev pub no_threshold : Threshold
no_threshold = record { temp = none; over = Cond.init false }

-- `cond_set` by the tests of `dpft_check_temp_threshold`; the hysteresis is 2.
pub watch : ℕ → Threshold → Threshold
watch t th = elim th.temp [
  | none ↦ th
  | some max ↦
      if leb max t
      then record th { over = Cond.set th.over true }
      else if leb (t + 2) max
      then record th { over = Cond.set th.over false }
      else th
]

-- The rest of its loop body, for a threshold that is enabled: whether it has been crossed.
pub crossed : Threshold → Bool × Threshold
crossed th = elim th.temp [
  | none ↦ (false, th)
  | some max ↦
      (let (rose, c) = Cond.went th.over true in
        let (fell, c') = Cond.went c false in (rose || fell, record th { over = c' }))
]

-- `dpft_check_temp_threshold`: whether any threshold is crossed, and `dptf_seen`.
pub check_thresholds : ℕ → ℕ → List Threshold → ℕ → List Threshold × Bool × ℕ
check_thresholds id t [] seen = ([], false, seen)
check_thresholds id t (th ∷ ths) seen =
    let (now, th') = crossed (watch t th) in
    let (ths', later, seen') =
      check_thresholds id t ths (if now then atomic_or seen (2 ^ id) else seen) in
    (th' ∷ ths', now || later, seen')

-- `fan_percent`. For `low`, `high` and `cur` all equal the source divides 0 by 0; a divide by 0 is
-- 0 here, as on the cores of the EC.
pub fan_percent : ℕ → ℕ → ℕ → ℕ
fan_percent low high cur =
    if ltb cur low then 0 else if ltb high cur then 100 else 100 * (cur - low) / (high - low)

-- The counters of one limit: `count_over[j]`, `count_under[j]` and `num_valid_limits[j]`.
pub record Count : Type 0 where
  pub over : ℕ
  pub under : ℕ
  pub valid : ℕ

-- The locals of `thermal_control` and `dptf_seen`.
pub record Locals : Type 0 where
  pub warn : Count
  pub high : Count
  pub halt : Count
  pub num_sensors_read : ℕ
  pub fmax : ℕ
  pub tripped : Bool
  pub seen : ℕ

abbrev pub no_count : Count
no_count = record { over = 0; under = 0; valid = 0 }

-- The body of the loop over the limits.
pub count_limit : ℕ → ℕ → Count → Count
count_limit limit t c =
    if nonzero limit
    then record {
      over = if ltb limit t then c.over + 1 else c.over;
      under = if ltb limit t then c.under else if ltb t limit then c.under + 1 else c.under;
      valid = c.valid + 1;
    }
    else c

-- The body of the loop over the sensors, for the sensor `id`.
pub visit : ℕ → Option ℕ → Sensor → Locals → Sensor × Locals
visit id none s l = (s, l)
visit id (some t) s l =
    let f = fan_percent s.fan_off s.fan_max t in
    let (ths, now, seen) = check_thresholds id t s.thresholds l.seen in
    (
      record s { thresholds = ths },
      record {
        num_sensors_read = l.num_sensors_read + 1;
        warn = count_limit s.warn t l.warn;
        high = count_limit s.high t l.high;
        halt = count_limit s.halt t l.halt;
        fmax = if (nonzero s.fan_off && nonzero s.fan_max) && ltb l.fmax f then f else l.fmax;
        tripped = l.tripped || now;
        seen = seen;
      },
    )

-- The loop, from the sensor `id` on, with a reading for each sensor.
pub visit_all : ℕ → List (Option ℕ) → List Sensor → Locals → List Sensor × Locals
visit_all id readings [] l = ([], l)
visit_all id [] (s ∷ ss) l = (s ∷ ss, l)
visit_all id (r ∷ rs) (s ∷ ss) l =
    let (s', l') = visit id r s l in let (ss', l'') = visit_all (id + 1) rs ss l' in (s' ∷ ss', l'')

-- The statics of the file, and what its calls change.
pub record Thermal : Type 0 where
  pub sensors : List Sensor
  pub seen : ℕ  -- `dptf_seen`
  pub cond_warn : ℕ  -- `cond_hot[]`
  pub cond_high : ℕ
  pub cond_halt : ℕ
  pub throttle : Throttle
  pub shutdowns : ℕ
  pub fan_needed : ℕ

-- The loop that aggregates the limits.
pub aggregate : Count → ℕ → ℕ
aggregate count c =
    if nonzero count.over
    then Cond.set c true
    else if count.under == count.valid
    then Cond.set c false
    else c

-- `if (cond_went_true(c)) ... else if (cond_went_false(c)) ...`: the edge that is taken.
pub edge : ℕ → Option Bool × ℕ
edge c =
    let (rose, c') = Cond.went c true in
    let (fell, c'') = Cond.went c' false in
    if rose then (some true, c') else (if fell then some false else none, c'')

-- What the edges of the three limits do.
abbrev pub on_halt : Option Bool → Thermal → Thermal
on_halt (some true) s = record s { shutdowns = s.shutdowns + 1 }
on_halt _ s = s

abbrev pub on_high : Option Bool → Throttle → Throttle
on_high (some true) s = throttle_ap on hard thermal s
on_high (some false) s = throttle_ap off hard thermal s
on_high none s = s

abbrev pub on_warn : Option Bool → Throttle → Throttle
on_warn (some true) s = throttle_ap on soft thermal s
on_warn (some false) s = throttle_ap off soft thermal s
on_warn none s = s

abbrev pub signal : ℕ → Throttle → Throttle
signal event s = record s { host = set_single_event event s.host }

-- `thermal_control` from the aggregated limits on.
pub react : Locals → Thermal → Thermal
react l s =
    let (halted, halt) = edge (aggregate l.halt s.cond_halt) in
    let (heated, high) = edge (aggregate l.high s.cond_high) in
    let (warned, warn) = edge (aggregate l.warn s.cond_warn) in
    let throttled = on_warn warned (on_high heated s.throttle) in
    on_halt halted (record s {
      cond_halt = halt;
      cond_high = high;
      cond_warn = warn;
      throttle = if l.tripped then signal thermal_threshold_event throttled else throttled;
      fan_needed = l.fmax;
    })

-- `thermal_control`, for a reading of each sensor.
pub control : List (Option ℕ) → Thermal → Thermal
control readings s =
    let start : Locals = record {
      warn = no_count;
      high = no_count;
      halt = no_count;
      num_sensors_read = 0;
      fmax = 0;
      tripped = false;
      seen = s.seen;
    } in
    let (sensors, l) = visit_all 0 readings s.sensors start in
    let s' = record s { sensors = sensors; seen = l.seen } in
    if nonzero l.num_sensors_read
    then react l s'
    else record s' { throttle = signal thermal_event s.throttle }

-- `dptf_query_next_sensor_event` with `count` sensors left, from the sensor `id` on; `none` is -1.
pub query_next : ℕ → ℕ → ℕ → Option ℕ × ℕ
query_next zero id seen = (none, seen)
query_next (suc count) id seen =
    let rest = query_next count (id + 1) seen in
    if nonzero (bit_and seen (2 ^ id)) then (some id, atomic_clear seen (2 ^ id)) else rest

-- `dptf_set_temp_threshold` on the thresholds of the sensor `id`, with `dptf_seen`.
pub set_temp_threshold : ℕ → ℕ → ℕ → Bool → List Threshold → ℕ → List Threshold × ℕ
set_temp_threshold id temp idx enable ths seen =
    let th = get_or ths idx no_threshold in
    if enable
    then (
      set ths idx (elim th.temp [
        | none ↦ record { temp = some temp; over = Cond.init false }
        | some old ↦ record th { temp = some temp }
      ]),
      atomic_clear seen (2 ^ id),
    )
    else (set ths idx (record th { temp = none }), seen)
