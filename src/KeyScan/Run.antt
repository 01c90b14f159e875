-- ===== src/KeyScan/Run.antt =====
-- The debouncing of common/keyboard_scan.c over a whole run: what the keyboard reports has been
-- held.
use chromium_ec.Common.{
  ℕ, ◌+◌, ◌^◌, ◌<◌, ◌≡◌, ◌⊎◌, inl, inr, refl, ◌∙◌, subst, Bool, List, [], ◌∷◌, arith, bit_and, ◌==◌,
  if◌then◌else◌, Bool-cases,
}
use chromium_ec.Common.Bits.{test_bit, test_bit-zero}
use chromium_ec.KeyScan.{Matrix, Config, State, scan_enable, simulate_key, check_keys_changed}
use chromium_ec.KeyScan.Boot.{scan_init}
use chromium_ec.KeyScan.World.{World, Event, step, run, scan, enable, simulate, configure}
use chromium_ec.KeyScan.Held.{Scan}
use chromium_ec.KeyScan.Pins.{last_reading, scans, scan-last_reading}
use chromium_ec.KeyScan.Debounce.{IsDebounced, Settles, scan-Scanned}

-- What holds of the scanner between the events.
record IsWorld (w : World) : Type 0 where
  read : w.state.new_state ≡ last_reading w.seen
  keys : (c : ℕ) → c < 13 → IsDebounced w.now (scans w.seen) w.state c

-- The keys that other tasks simulate are read by the next scan only.
simulate_key-IsDebounced :
    (now c row col : ℕ) (pressed : Bool) (seen : List Scan) (s : State)
    → IsDebounced now seen s c
    → IsDebounced now seen (simulate_key row col pressed s) c
unfolding simulate_key
simulate_key-IsDebounced now c row col pressed seen s v =
    elim (Bool-cases
      (bit_and (s.simulated_key col) (2 ^ row) == (if pressed then 2 ^ row else 0))) [
        | inl same ↦ rw same v
        | inr other ↦ rw other (record { pending = v.pending; agreed = v.agreed })
      ]

scan_enable-IsDebounced :
    (now c mask : ℕ) (on : Bool) (seen : List Scan) (s : State)
    → IsDebounced now seen s c
    → IsDebounced now seen (scan_enable on mask s) c
unfolding scan_enable
scan_enable-IsDebounced now c mask on seen s v = record { pending = v.pending; agreed = v.agreed }

new_state-simulate_key :
    (row col : ℕ) (pressed : Bool) (s : State)
    → (simulate_key row col pressed s).new_state ≡ s.new_state
unfolding simulate_key
new_state-simulate_key row col pressed s = ground arith

new_state-scan_enable :
    (mask : ℕ) (on : Bool) (s : State) → (scan_enable on mask s).new_state ≡ s.new_state
unfolding scan_enable
new_state-scan_enable mask on s = refl

step-IsWorld : (e : Event) (w : World) → IsWorld w → IsWorld (step e w)
unfolding step
step-IsWorld (scan wait enabled rows) w v =
    let read = scan-last_reading w.config (w.now + wait) enabled rows w.seen w.state v.read in
    record {
      read = read;
      keys = λ c col.
          subst
            (λ m.
              IsDebounced (w.now + wait) (record { time = w.now + wait; matrix = m } ∷ scans w.seen)
                (check_keys_changed w.config (w.now + wait) enabled rows w.state).1 c)
            read
            (scan-Scanned w.config w.now (w.now + wait) c enabled rows (scans w.seen) w.state
              (omega arith) col (v.keys c col)).valid;
    }
step-IsWorld (enable on mask) w v = record {
  read = new_state-scan_enable mask on w.state ∙ v.read;
  keys = λ c col. scan_enable-IsDebounced w.now c mask on (scans w.seen) w.state (v.keys c col);
}
step-IsWorld (simulate row col' pressed) w v = record {
  read = new_state-simulate_key row col' pressed w.state ∙ v.read;
  keys = λ c col.
      simulate_key-IsDebounced w.now c row col' pressed (scans w.seen) w.state (v.keys c col);
}
step-IsWorld (configure config) w v = record {
  read = v.read;
  keys = λ c col. record { pending = (v.keys c col).pending; agreed = (v.keys c col).agreed };
}

run-IsWorld : (events : List Event) (w : World) → IsWorld w → IsWorld (run events w)
unfolding run
run-IsWorld [] w v = v
run-IsWorld (e ∷ events) w v = run-IsWorld events (step e w) (step-IsWorld e w v)

-- The scanner as keyboard_scan_init leaves it, which counts no scan before.
abbrev pub booted :
    (jumped reset_pin : Bool) → Config → (enabled : ℕ → Bool) → (rows : Matrix) → World
booted jumped reset_pin config enabled rows = record {
  config = config;
  now = 0;
  state = (scan_init jumped reset_pin config.actual_key_mask enabled rows).1;
  seen = [];
}

booted-IsWorld :
    (jumped reset_pin : Bool) (config : Config) (enabled : ℕ → Bool) (rows : Matrix)
    → IsWorld (booted jumped reset_pin config enabled rows)
unfolding scan_init
booted-IsWorld jumped reset_pin config enabled rows = record {
  read = refl;
  keys = λ c col. record {
    pending = λ i on row. absurd (ground (arith, on, test_bit-zero i));
    agreed = λ i off row. refl;
  };
}

-- From keyboard_scan_init on, after any scans, simulated keys, and changes of the configuration and
-- of whether scanning is enabled, also in the middle of a scan: new_state holds the last reading of
-- each column from the pins, which is of an earlier scan for a column that the last scan stopped
-- short of, and zero if no scan got as far; a key that is not being debounced is reported as
-- prev_state has it; and for one that is, the last reading at a scan at the stamped time or before,
-- and that at every scan since then whose last readings had no ghosting, is as prev_state has it.
pub run-IsDebounced :
    (jumped reset_pin : Bool) (config : Config) (enabled : ℕ → Bool) (rows : Matrix)
    (events : List Event) (c : ℕ)
    → c < 13
    → let w = run events (booted jumped reset_pin config enabled rows) in
      (w.state.new_state ≡ last_reading w.seen) × IsDebounced w.now (scans w.seen) w.state c
run-IsDebounced jumped reset_pin config enabled rows events c col =
    let v =
      run-IsWorld events (booted jumped reset_pin config enabled rows)
        (booted-IsWorld jumped reset_pin config enabled rows) in
    (v.read, v.keys c col)

-- From keyboard_scan_init on, after any scans, simulated keys, and changes of the configuration and
-- of whether scanning is enabled, also in the middle of a scan: a scan leaves the reported state of
-- a key as it is, or the time for which its new value is debounced has passed since a scan at which
-- this value was the key's last reading from the pins, and at every scan since then it was the last
-- reading too, or the last readings had ghosting. The last reading of a column is that of the last
-- scan that got as far as the column: a scan that is cut short reads nothing of the columns after,
-- which keep theirs.
pub scan-Settles :
    (jumped reset_pin : Bool) (config : Config) (enabled : ℕ → Bool) (rows : Matrix)
    (events : List Event) (wait : ℕ) (enabled' : ℕ → Bool) (rows' : Matrix) (c i : ℕ)
    → c < 13
    → i < 8
    → let w = run events (booted jumped reset_pin config enabled rows) in
      let w' = step (scan wait enabled' rows') w in
      (test_bit (w'.state.debounced_state c) i ≡ test_bit (w.state.debounced_state c) i)
      ⊎ Settles w.config w'.now (scans w'.seen) c i (test_bit (w'.state.debounced_state c) i)
unfolding step
scan-Settles jumped reset_pin config enabled rows events wait enabled' rows' c i col row =
    let w = run events (booted jumped reset_pin config enabled rows) in
    let v = run-IsDebounced jumped reset_pin config enabled rows events c col in
    let next = w.now + wait in
    let s' = (check_keys_changed w.config next enabled' rows' w.state).1 in
    subst
      (λ m.
        (test_bit (s'.debounced_state c) i ≡ test_bit (w.state.debounced_state c) i)
        ⊎ Settles w.config next (record { time = next; matrix = m } ∷ scans w.seen) c i
            (test_bit (s'.debounced_state c) i))
      (scan-last_reading w.config next enabled' rows' w.seen w.state v.0)
      ((scan-Scanned w.config w.now next c enabled' rows' (scans w.seen) w.state (omega arith) col
          v.1).changed
        i row)
