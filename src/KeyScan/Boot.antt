-- ===== src/KeyScan/Boot.antt =====
-- common/keyboard_scan.c: the keys that are held at boot, and keyboard_scan_init.
use chromium_ec.Common.{
  ℕ, zero, suc, ◌+◌, ◌^◌, Bool, true, false, not, ◌&&◌, List, [], ◌∷◌, ◌==◌, if◌then◌else◌, nonzero,
  bit_and, bit_or,
}
use chromium_ec.Common.Bits.{complement}
use chromium_ec.KeyScan.{Matrix, State, Call, keyboard_cols, read_matrix, recovery}

-- check_key, with the masks of the allowed keys: the key itself and refresh.
abbrev pub allowed_mask : ℕ → ℕ → Matrix
allowed_mask index mask c = bit_or (if c == index then mask else 0) (if c == 2 then 2 ^ 2 else 0)

unfoldable pub only_allowed : ℕ → ℕ → Matrix → Matrix → Bool
only_allowed zero c allowed state = true
only_allowed (suc n) c allowed state =
    not (nonzero (bit_and (state c) (complement 8 (allowed c))))
    && only_allowed n (c + 1) allowed state

unfoldable pub check_key : Matrix → ℕ → ℕ → Bool
check_key state index mask =
    if nonzero mask && not (nonzero (bit_and (state index) mask))
    then false
    else only_allowed keyboard_cols 0 (allowed_mask index mask) state

-- `enum boot_key`
pub data BootKey : Type 0 where
  boot_none boot_esc boot_down_arrow boot_other : BootKey

-- check_boot_key, from system_jumped_to_this_image and RESET_FLAG_RESET_PIN; boot_key_list is
-- written out.
unfoldable pub check_boot_key : (jumped reset_pin : Bool) → Matrix → BootKey
check_boot_key jumped reset_pin state =
    if jumped
    then boot_other
    else if not reset_pin && not (nonzero (bit_and (state 2) (2 ^ 2)))
    then boot_other
    else if check_key state 0 0
    then boot_none
    else if check_key state 1 (2 ^ 1)
    then boot_esc
    else if check_key state 11 (2 ^ 6)
    then boot_down_arrow
    else boot_other

-- The statics before keyboard_scan_init.
abbrev pub cleared : State
cleared = record {
  debounced_state = λ c. 0;
  prev_state = λ c. 0;
  debouncing = λ c. 0;
  simulated_key = λ c. 0;
  new_state = λ c. 0;
  scan_time = λ k. 0;
  scan_time_index = 0;
  scan_edge_index = λ c i. 0;
  disable_scanning_mask = 0;
  kbd_polls = 0;
  calls = [];
}

-- keyboard_scan_init: the boot key, and the statics.
unfoldable pub scan_init :
    (jumped reset_pin : Bool) → Matrix → (enabled : ℕ → Bool) → (rows : Matrix) → BootKey × State
scan_init jumped reset_pin mask enabled rows =
    let (pressed, m) =
      read_matrix enabled rows cleared.simulated_key mask cleared.debounced_state in
    let key = check_boot_key jumped reset_pin m in
    let called : List Call = elim key [
      | boot_esc ↦ recovery ∷ []
      | boot_none ↦ []
      | boot_down_arrow ↦ []
      | boot_other ↦ []
    ] in
    (key, record cleared { debounced_state = m; prev_state = m; calls = called })
