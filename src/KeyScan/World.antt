-- ===== src/KeyScan/World.antt =====
-- common/keyboard_scan.c over time: scans, and the calls of other tasks, in any order.
use chromium_ec.Common.{ℕ, ◌+◌, Bool, List, [], ◌∷◌}
use chromium_ec.KeyScan.{Matrix, State, Config, check_keys_changed, scan_enable, simulate_key}

-- What happens to the scanner: a scan `wait` microseconds after the last one, or a call of another
-- task. A run of these keeps the configuration and the time.
pub data Event : Type 0 where
  scan : (wait : ℕ) → (enabled : ℕ → Bool) → (rows : Matrix) → Event
  enable : Bool → (mask : ℕ) → Event
  simulate : (row col : ℕ) → (pressed : Bool) → Event
  configure : Config → Event

-- A scan as the pins and the other tasks have it: the rows of each column, the keys that are
-- simulated, the mask of the keys that exist, and whether scanning is enabled when a column comes
-- up.
pub record Seen : Type 0 where
  pub time : ℕ
  pub enabled : ℕ → Bool
  pub rows : Matrix
  pub simulated : Matrix
  pub mask : Matrix

-- The scanner, with the scans that it has made, the last one first.
pub record World : Type 0 where
  pub config : Config
  pub now : ℕ
  pub state : State
  pub seen : List Seen

unfoldable pub step : Event → World → World
step (scan wait enabled rows) w =
    let s = (check_keys_changed w.config (w.now + wait) enabled rows w.state).1 in
    record w {
      now = w.now + wait;
      state = s;
      seen =
          record {
            time = w.now + wait;
            enabled = enabled;
            rows = rows;
            simulated = w.state.simulated_key;
            mask = w.config.actual_key_mask;
          }
          ∷ w.seen;
    }
step (enable on mask) w = record w { state = scan_enable on mask w.state }
step (simulate row col pressed) w = record w { state = simulate_key row col pressed w.state }
step (configure config) w = record w { config = config }

unfoldable pub run : List Event → World → World
run [] w = w
run (e ∷ events) w = run events (step e w)
