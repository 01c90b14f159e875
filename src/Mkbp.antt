-- ===== src/Mkbp.antt =====
-- common/keyboard_mkbp.c: the matrix keyboard protocol, by which the host reads scans of the
-- keyboard from a ring of sixteen, on an interrupt line. A scan is a list of KEYBOARD_COLS column
-- bytes. The record holds the statics of the file with the level of the line and the scan
-- configuration of keyboard_scan.c that the host commands set. Console output is left out, and the
-- calls here run whole. Host has the steps of keyboard_get_scan that other tasks may come between.
pub mod Ring
pub mod Fifo
pub mod Config
pub mod Host
pub mod Signal
mod Tests
use chromium_ec.Common.{
  ℕ, zero, suc, ◌+◌, ◌-◌, ◌%◌, ◌^◌, Bool, true, false, not, ◌&&◌, List, [], ◌∷◌, ltb, leb, max, min,
  nonzero, if◌then◌else◌, bit_and, bit_or, bit_xor, get_or, set, replicate,
}
use chromium_ec.Common.Bits.{complement}

-- KB_FIFO_DEPTH and KEYBOARD_COLS
abbrev pub fifo_depth : ℕ
fifo_depth = 16

abbrev pub keyboard_cols : ℕ
keyboard_cols = 13

-- EC_MKBP_FLAGS_ENABLE and `enum mkbp_config_valid`
abbrev pub flags_enable : ℕ
flags_enable = 1

abbrev pub valid_scan_period : ℕ
valid_scan_period = 2 ^ 0

abbrev pub valid_poll_timeout : ℕ
valid_poll_timeout = 2 ^ 1

abbrev pub valid_min_post_scan_delay : ℕ
valid_min_post_scan_delay = 2 ^ 3

abbrev pub valid_output_settle : ℕ
valid_output_settle = 2 ^ 4

abbrev pub valid_debounce_down : ℕ
valid_debounce_down = 2 ^ 5

abbrev pub valid_debounce_up : ℕ
valid_debounce_up = 2 ^ 6

abbrev pub valid_fifo_max_depth : ℕ
valid_fifo_max_depth = 2 ^ 7

-- The fields of `struct keyboard_scan_config` that the protocol sets.
pub record ScanConfig : Type 0 where
  pub output_settle_us : ℕ
  pub debounce_down_us : ℕ
  pub debounce_up_us : ℕ
  pub scan_period_us : ℕ
  pub min_post_scan_delay_us : ℕ
  pub poll_timeout_us : ℕ

-- `struct ec_mkbp_config`
pub record MkbpConfig : Type 0 where
  pub valid_mask : ℕ
  pub flags : ℕ
  pub valid_flags : ℕ
  pub fifo_max_depth : ℕ
  pub scan : ScanConfig

pub record Mkbp : Type 0 where
  pub fifo_start : ℕ  -- `kb_fifo_start`
  pub fifo_end : ℕ
  pub fifo_entries : ℕ
  pub fifo : List (List ℕ)  -- `kb_fifo`
  pub config : MkbpConfig  -- `config`, with the scan configuration
  pub line_active : Bool  -- GPIO_EC_INT, which is active low
  pub wakes : ℕ  -- the calls of `task_wake(TASK_ID_KEYSCAN)`

-- The result codes of `ec_error_list`.
pub data EcError : Type 0 where
  success unknown overflow : EcError

-- `kb_fifo_remove`: the code, the scan at `buffp`, and the FIFO.
pub fifo_remove : Mkbp → EcError × List ℕ × Mkbp
fifo_remove m =
    if nonzero m.fifo_entries
    then (
      success,
      get_or m.fifo m.fifo_start [],
      record m { fifo_start = (m.fifo_start + 1) % fifo_depth; fifo_entries = m.fifo_entries - 1 },
    )
    else (unknown, get_or m.fifo ((m.fifo_start + fifo_depth - 1) % fifo_depth) [], m)

-- `set_host_interrupt`
abbrev pub set_host_interrupt : Bool → Mkbp → Mkbp
set_host_interrupt active m = record m { line_active = active }

-- `keyboard_clear_buffer`
pub clear_buffer : Mkbp → Mkbp
clear_buffer m = record m {
  fifo_start = 0;
  fifo_end = 0;
  fifo_entries = 0;
  fifo = replicate fifo_depth (replicate keyboard_cols 0);
}

-- `keyboard_fifo_add`
pub fifo_add : List ℕ → Mkbp → EcError × Mkbp
fifo_add buffp m =
    if not (nonzero (bit_and m.config.flags flags_enable))
    then (success, m)
    else (if leb m.config.fifo_max_depth m.fifo_entries then (overflow, m) else (
      success,
      set_host_interrupt true (record m {
        fifo = set m.fifo m.fifo_end buffp;
        fifo_end = (m.fifo_end + 1) % fifo_depth;
        fifo_entries = m.fifo_entries + 1;
      }),
    ))

-- `keyboard_send_battery_key`, given what `keyboard_scan_get_state` returns and whether the chipset
-- is on. BATTERY_KEY_COL is 0 and BATTERY_KEY_ROW_MASK is bit 7.
pub send_battery_key : List ℕ → Bool → Mkbp → Mkbp
send_battery_key state is_on m =
    if is_on then (fifo_add (set state 0 (bit_xor (get_or state 0 0) (2 ^ 7))) m).1 else m

-- `keyboard_get_scan`, run without interruption: the response and the state. The command always
-- succeeds.
pub get_scan : Mkbp → List ℕ × Mkbp
get_scan m =
    let (code, scan, m') = fifo_remove m in
    (scan, if nonzero m'.fifo_entries then m' else set_host_interrupt false m')

-- One field of `set_keyscan_config`.
abbrev pub when : ℕ → ℕ → ℕ → ℕ → ℕ
when valid_mask valid new old = if nonzero (bit_and valid_mask valid) then new else old

-- The scan configuration that `set_keyscan_config` leaves.
pub set_scan_config : ScanConfig → ℕ → ScanConfig → ScanConfig
set_scan_config src valid_mask ksc = record {
  scan_period_us = when valid_mask valid_scan_period src.scan_period_us ksc.scan_period_us;
  poll_timeout_us = when valid_mask valid_poll_timeout src.poll_timeout_us ksc.poll_timeout_us;
  min_post_scan_delay_us =
      when valid_mask valid_min_post_scan_delay (max src.min_post_scan_delay_us 200)
        ksc.min_post_scan_delay_us;
  output_settle_us = when valid_mask valid_output_settle src.output_settle_us ksc.output_settle_us;
  debounce_down_us = when valid_mask valid_debounce_down src.debounce_down_us ksc.debounce_down_us;
  debounce_up_us = when valid_mask valid_debounce_up src.debounce_up_us ksc.debounce_up_us;
}

-- `set_keyscan_config`, which also wakes the scan task when the scan is being enabled.
pub set_keyscan_config : MkbpConfig → ℕ → ℕ → Mkbp → Mkbp
set_keyscan_config src valid_mask new_flags m =
    let m' = record m {
      config = record m.config { scan = set_scan_config src.scan valid_mask m.config.scan };
    } in
    if nonzero (bit_and new_flags flags_enable)
      && not (nonzero (bit_and m.config.flags flags_enable))
    then record m' { wakes = m.wakes + 1 }
    else m'

-- `keyscan_copy_config`
pub copy_config : MkbpConfig → ℕ → ℕ → Mkbp → Mkbp
copy_config src valid_mask valid_flags m =
    let depth =
      when valid_mask valid_fifo_max_depth (min src.fifo_max_depth fifo_depth)
        m.config.fifo_max_depth in
    let new_flags =
      bit_or (bit_and m.config.flags (complement 8 valid_flags)) (bit_and src.flags valid_flags) in
    let m' =
      set_keyscan_config src valid_mask new_flags
        (record m { config = record m.config { fifo_max_depth = depth } }) in
    record m' { config = record m'.config { flags = new_flags } }

-- `host_command_mkbp_set_config`
pub set_config : MkbpConfig → Mkbp → Mkbp
set_config req m =
    copy_config req (bit_and m.config.valid_mask req.valid_mask)
      (bit_and m.config.valid_flags req.valid_flags) m

-- `host_command_mkbp_get_config` with `get_keyscan_config`: the configuration that it answers.
abbrev pub get_config : Mkbp → MkbpConfig
get_config m = m.config
