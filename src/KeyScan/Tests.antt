-- ===== src/KeyScan/Tests.antt =====
-- Runs of the code of KeyScan, and the theorems at concrete inputs.
use chromium_ec.Common.{ℕ, ◌≡◌, ◌<◌, ◌⊎◌, ◌↔◌, refl, Bool, true, false, List, [], ◌∷◌, ◌++◌, arith}
use chromium_ec.Common.Bits.{test_bit}
use chromium_ec.KeyScan.{
  Config, Matrix, has_ghosting, set_at, check_keys_changed, ghost_from, read_matrix, read_columns,
  save_time, ghost_with, many_bits, report, debounce, settle_all, notice_all, notice, settle_rows,
  check_runtime_keys, count_columns, mark_rows, settle,
}
use chromium_ec.KeyScan.Boot.{
  boot_esc, boot_other, check_boot_key, check_key, only_allowed, scan_init,
}
use chromium_ec.KeyScan.World.{Event, World, scan, run, step}
use chromium_ec.KeyScan.Ghosting.{Rectangle, has_ghosting-Rectangle}
use chromium_ec.KeyScan.Debounce.{IsDebounced, Settles}
use chromium_ec.KeyScan.Pins.{last_reading, scans}
use chromium_ec.KeyScan.Run.{booted, run-IsDebounced, scan-Settles}

abbrev config : Config
config = record { debounce_down_us = 9000; debounce_up_us = 30000; actual_key_mask = λ c. 255 }

abbrev no_keys : Matrix
no_keys c = 0

-- The key of row 1 in column 1.
abbrev esc : Matrix
esc = set_at 1 2 no_keys

abbrev always : ℕ → Bool
always c = true

abbrev start : World
start = booted false true config always no_keys

-- The key bounces once.
abbrev bouncing : List Event
bouncing =
    scan 3000 always esc
    ∷ scan 3000 always no_keys
    ∷ scan 3000 always esc
    ∷ scan 3000 always esc
    ∷ scan 5000 always esc
    ∷ []

not_yet : (run bouncing start).state.debounced_state 1 ≡ 0
unfolding run step check_keys_changed has_ghosting ghost_from read_matrix read_columns save_time
    scan_init ghost_with many_bits report debounce settle_all notice_all notice settle_rows
    check_runtime_keys count_columns mark_rows settle
not_yet = refl

settled : (run (bouncing ++ scan 3000 always esc ∷ []) start).state.debounced_state 1 ≡ 2
unfolding run step check_keys_changed has_ghosting ghost_from read_matrix read_columns save_time
    scan_init ghost_with many_bits report debounce settle_all notice_all notice settle_rows
    check_runtime_keys count_columns mark_rows settle
settled = refl

-- A scan that is stopped at its first column settles a key by the reading before.
abbrev never : ℕ → Bool
never c = false

settled_unread :
    (run (scan 3000 always esc ∷ scan 9000 never no_keys ∷ []) start).state.debounced_state 1 ≡ 2
unfolding run step check_keys_changed has_ghosting ghost_from read_matrix read_columns save_time
    scan_init ghost_with many_bits report debounce settle_all notice_all notice settle_rows
    check_runtime_keys count_columns mark_rows settle
settled_unread = refl

boot_key : check_boot_key false true esc ≡ boot_esc
unfolding check_boot_key check_key only_allowed
boot_key = refl

boot_key_ignored : check_boot_key true true esc ≡ boot_other
unfolding check_boot_key
boot_key_ignored = refl

-- Three corners of a rectangle, which read as four.
abbrev four : Matrix
four = set_at 3 6 (set_at 8 6 no_keys)

has_ghosting-Rectangle_example :
    (has_ghosting four ≡ true) ↔ ((a b : ℕ) × (a < b) × (b < 13) × Rectangle four a b)
has_ghosting-Rectangle_example = has_ghosting-Rectangle four (λ c. ground arith)

run-IsDebounced_example :
    ((run bouncing start).state.new_state ≡ last_reading (run bouncing start).seen)
    × IsDebounced
        (run bouncing start).now
        (scans (run bouncing start).seen)
        (run bouncing start).state
        1
run-IsDebounced_example = run-IsDebounced false true config always no_keys bouncing 1 (omega arith)

scan-Settles_example :
    (test_bit ((step (scan 3000 always esc) (run bouncing start)).state.debounced_state 1) 1
      ≡ test_bit ((run bouncing start).state.debounced_state 1) 1)
    ⊎ Settles
        (run bouncing start).config
        (step (scan 3000 always esc) (run bouncing start)).now
        (scans (step (scan 3000 always esc) (run bouncing start)).seen)
        1
        1
        (test_bit ((step (scan 3000 always esc) (run bouncing start)).state.debounced_state 1) 1)
scan-Settles_example =
    scan-Settles false true config always no_keys bouncing 3000 always esc 1 1 (omega arith)
      (omega arith)
