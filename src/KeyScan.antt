-- ===== src/KeyScan.antt =====
-- common/keyboard_scan.c: the scan of the key matrix, ghosting, the debouncing of each key, the
-- keys at boot and at run time. An array is a function of its index; a byte has one bit for each
-- row. What the firmware calls on the way (CONFIG_KEYBOARD_PROTOCOL_8042 and _MKBP) is recorded.
-- The rows that the pins show, and whether scanning is still enabled at a column, are arguments.
pub mod Boot
pub mod World
pub mod Ghosting
pub mod Held
pub mod Notice
pub mod Settle
pub mod Debounce
pub mod Pins
pub mod Run
mod Tests
use chromium_ec.Common.{
  ℕ, zero, suc, ◌+◌, ◌-◌, ◌*◌, ◌%◌, ◌^◌, Bool, true, false, not, ◌&&◌, ◌||◌, List, [], ◌∷◌, ◌++◌,
  ltb, leb, ◌==◌, if◌then◌else◌, nonzero, bit_and, bit_or, bit_xor, Option, none, some,
}
use chromium_ec.Common.Bits.{complement, test_bit}

-- KEYBOARD_COLS, KEYBOARD_ROWS and SCAN_TIME_COUNT
abbrev pub keyboard_cols : ℕ
keyboard_cols = 13

abbrev pub keyboard_rows : ℕ
keyboard_rows = 8

abbrev pub scan_time_count : ℕ
scan_time_count = 32

-- A byte for each column.
abbrev pub Matrix : Type 0
Matrix = ℕ → ℕ

-- `a[i] = x`
abbrev pub set_at {ℓ} : {A : Type ℓ} → ℕ → A → (ℕ → A) → ℕ → A
set_at i x a k = if k == i then x else a k

-- The fields of `struct keyboard_scan_config` that the scan reads.
pub record Config : Type 0 where
  pub debounce_down_us : ℕ
  pub debounce_up_us : ℕ
  pub actual_key_mask : Matrix

-- What the scan calls: chipset_reset, system_hibernate, keyboard_clear_buffer, keyboard_fifo_add,
-- keyboard_state_changed, task_wake, keyboard_raw_drive_column of no column, and
-- host_set_single_event of EC_HOST_EVENT_KEYBOARD_RECOVERY.
pub data Call : Type 0 where
  reset hibernate clear_buffer wake_task drive_none recovery : Call
  fifo_add : Matrix → Call
  state_changed : (row col : ℕ) → (pressed : Bool) → Call

pub record State : Type 0 where
  pub debounced_state : Matrix
  pub prev_state : Matrix
  pub debouncing : Matrix
  pub simulated_key : Matrix
  pub new_state : Matrix
  pub scan_time : ℕ → ℕ
  pub scan_time_index : ℕ
  pub scan_edge_index : ℕ → ℕ → ℕ
  pub disable_scanning_mask : ℕ
  pub kbd_polls : ℕ
  pub calls : List Call

-- keyboard_scan_enable, on a mask of 32 bits.
unfoldable pub scan_enable : Bool → ℕ → State → State
scan_enable enable mask s =
    let m =
      if enable
      then bit_and s.disable_scanning_mask (complement 32 mask)
      else bit_or s.disable_scanning_mask mask in
    let called =
      if nonzero s.disable_scanning_mask && not (nonzero m)
      then wake_task ∷ []
      else if nonzero m && not (nonzero s.disable_scanning_mask)
      then drive_none ∷ clear_buffer ∷ []
      else [] in
    record s { disable_scanning_mask = m; calls = s.calls ++ called }

-- simulate_key, up to its waits for the scanning task.
pub simulate_key : ℕ → ℕ → Bool → State → State
simulate_key row col pressed s =
    if bit_and (s.simulated_key col) (2 ^ row) == (if pressed then 2 ^ row else 0)
    then s
    else record s {
      simulated_key = set_at col (bit_xor (s.simulated_key col) (2 ^ row)) s.simulated_key;
      calls = s.calls ++ wake_task ∷ [];
    }

-- mkbp_command_simulate_key: none where it returns an error.
pub simulate_command : Bool → ℕ → ℕ → Bool → State → Option State
simulate_command locked row col pressed s =
    if locked
    then none
    else if leb keyboard_cols col || leb keyboard_rows row
    then none
    else some (simulate_key row col pressed s)

-- The loop of read_matrix for the next columns: `pressed`, and the matrix.
pub read_columns :
    (enabled : ℕ → Bool) → (rows simulated mask : Matrix) → ℕ → ℕ → ℕ → Matrix → ℕ × Matrix
read_columns enabled rows simulated mask zero c pressed state = (pressed, state)
read_columns enabled rows simulated mask (suc n) c pressed state =
    let r = bit_or (rows c) (simulated c) in
    let rest =
      read_columns enabled rows simulated mask n (c + 1) (bit_or pressed r)
        (set_at c (bit_and r (mask c)) state) in
    if enabled c then rest else (pressed, state)

pub read_matrix : (enabled : ℕ → Bool) → (rows simulated mask : Matrix) → Matrix → Bool × Matrix
read_matrix enabled rows simulated mask state =
    let (pressed, m) = read_columns enabled rows simulated mask keyboard_cols 0 0 state in
    (nonzero pressed, m)

-- The columns with a key pressed.
pub count_columns : ℕ → ℕ → Matrix → ℕ
count_columns zero c state = 0
count_columns (suc n) c state = (if nonzero (state c) then 1 else 0) + count_columns n (c + 1) state

-- check_runtime_keys: whether it returns 1, and what it calls. The columns and masks are those of
-- include/keyboard_config.h.
pub check_runtime_keys : Matrix → Bool × List Call
check_runtime_keys state =
    if not (state 4 == 2 ^ 0)
    then (false, [])
    else if not (state 10 == 2 ^ 0) && not (state 10 == 2 ^ 6)
    then (false, [])
    else if not (count_columns keyboard_cols 0 state == 3)
    then (false, [])
    else if state 3 == 2 ^ 7
    then (true, clear_buffer ∷ reset ∷ [])
    else if state 6 == 2 ^ 1
    then (true, hibernate ∷ [])
    else (false, [])

-- `common & (common - 1)`; the byte is an `int` there, and 0 & -1 is 0.
pub many_bits : ℕ → Bool
many_bits common = nonzero (bit_and common (common - 1))

-- The loops of has_ghosting, over `c2` and over `c`.
pub ghost_with : ℕ → ℕ → ℕ → Matrix → Bool
ghost_with zero c c2 state = false
ghost_with (suc n) c c2 state =
    many_bits (bit_and (state c) (state c2)) || ghost_with n c (c2 + 1) state

pub ghost_from : ℕ → ℕ → Matrix → Bool
ghost_from zero c state = false
ghost_from (suc n) c state =
    (nonzero (state c) && ghost_with n c (c + 1) state) || ghost_from n (c + 1) state

pub has_ghosting : Matrix → Bool
has_ghosting state = ghost_from keyboard_cols 0 state

-- What the loop over the changes writes.
pub record Noticed : Type 0 where
  pub edge : ℕ → ℕ → ℕ
  pub debouncing : Matrix
  pub prev : Matrix

-- `if (diff & (1 << i)) scan_edge_index[c][i] = scan_time_index;` for the next rows.
pub mark_rows : ℕ → ℕ → ℕ → ℕ → (ℕ → ℕ) → ℕ → ℕ
mark_rows zero i diff index row = row
mark_rows (suc n) i diff index row =
    mark_rows n (i + 1) diff index
      (if nonzero (bit_and diff (2 ^ i)) then set_at i index row else row)

pub notice : Matrix → ℕ → ℕ → Noticed → Noticed
notice new index c s =
    let diff = bit_xor (new c) (s.prev c) in
    if diff == 0 then s else record {
      edge = set_at c (mark_rows keyboard_rows 0 diff index (s.edge c)) s.edge;
      debouncing = set_at c (bit_or (s.debouncing c) diff) s.debouncing;
      prev = set_at c (new c) s.prev;
    }

pub notice_all : Matrix → ℕ → ℕ → ℕ → Noticed → Noticed
notice_all new index zero c s = s
notice_all new index (suc n) c s = notice_all new index n (c + 1) (notice new index c s)

-- What the loop over the debounced keys writes.
pub record Settled : Type 0 where
  pub debouncing : Matrix
  pub state : Matrix
  pub any_change : Bool
  pub calls : List Call

-- What it reads: `time` and `edge` are scan_time and scan_edge_index.
pub record Reading : Type 0 where
  pub config : Config
  pub enabled : Bool
  pub now : ℕ
  pub new : Matrix
  pub time : ℕ → ℕ
  pub edge : ℕ → ℕ → ℕ

-- `tnow - scan_time[scan_edge_index[c][i]]`, on 32 bits.
abbrev pub waited : Reading → ℕ → ℕ → ℕ
waited r c i = (r.now % 2 ^ 32 + 2 ^ 32 - r.time (r.edge c i)) % 2 ^ 32

-- The time that a key is debounced for, when it is found down or up.
abbrev pub debounce_us : Config → Bool → ℕ
debounce_us config down = if down then config.debounce_down_us else config.debounce_up_us

-- One row of the loop, `debc` being the keys of the column that were debounced.
pub settle : Reading → ℕ → ℕ → ℕ → Settled → Settled
settle r c debc i s =
    let mask = 2 ^ i in
    let new_mask = bit_and (r.new c) mask in
    if not (nonzero (bit_and debc mask))
    then s
    else if ltb (waited r c i) (debounce_us r.config (nonzero new_mask))
    then s
    else (let debouncing = set_at c (bit_and (s.debouncing c) (complement 8 mask)) s.debouncing in
        if bit_and (s.state c) mask == new_mask
        then record s { debouncing = debouncing }
        else record {
          debouncing = debouncing;
          state = set_at c (bit_xor (s.state c) mask) s.state;
          any_change = true;
          calls = s.calls ++ (if r.enabled then state_changed i c (nonzero new_mask) ∷ [] else []);
        })

pub settle_rows : Reading → ℕ → ℕ → ℕ → ℕ → Settled → Settled
settle_rows r c debc zero i s = s
settle_rows r c debc (suc n) i s = settle_rows r c debc n (i + 1) (settle r c debc i s)

pub settle_all : Reading → ℕ → ℕ → Settled → Settled
settle_all r zero c s = s
settle_all r (suc n) c s =
    settle_all r n (c + 1)
      (if s.debouncing c == 0 then s else settle_rows r c (s.debouncing c) keyboard_rows 0 s)

-- `scan_time[++scan_time_index] = tnow`
pub save_time : ℕ → State → State
save_time now s =
    let index = if leb scan_time_count (s.scan_time_index + 1) then 0 else s.scan_time_index + 1 in
    record s { scan_time_index = index; scan_time = set_at index (now % 2 ^ 32) s.scan_time }

-- The two loops over the changes and the debounced keys, once `new_state` is read: also whether a
-- key changed.
pub debounce : Config → ℕ → State → Bool × State
debounce config now s =
    let n =
      notice_all s.new_state s.scan_time_index keyboard_cols 0
        (record { edge = s.scan_edge_index; debouncing = s.debouncing; prev = s.prev_state }) in
    let d =
      settle_all
        (record {
          config = config;
          enabled = not (nonzero s.disable_scanning_mask);
          now = now;
          new = s.new_state;
          time = s.scan_time;
          edge = n.edge;
        })
        keyboard_cols 0
        (record {
          debouncing = n.debouncing;
          state = s.debounced_state;
          any_change = false;
          calls = s.calls;
        }) in
    (
      d.any_change,
      record s {
        debounced_state = d.state;
        prev_state = n.prev;
        debouncing = d.debouncing;
        scan_edge_index = n.edge;
        calls = d.calls;
      },
    )

-- `if (any_change) { ... }` and the count of the polls: whether a runtime key is swallowed.
pub report : Bool → State → Bool × State
report changed s =
    let polled = record s { kbd_polls = s.kbd_polls + 1 } in
    if not changed
    then (false, polled)
    else (let (special, called) = check_runtime_keys s.debounced_state in
        if special
        then (true, record s { calls = s.calls ++ called })
        else (false, record polled { calls = s.calls ++ fifo_add s.debounced_state ∷ [] }))

-- check_keys_changed, on the time that the clock shows: what it returns, and the statics.
pub check_keys_changed : Config → ℕ → (enabled : ℕ → Bool) → (rows : Matrix) → State → Bool × State
check_keys_changed config now enabled rows s =
    let s1 = save_time now s in
    let (any_pressed, m) =
      read_matrix enabled rows s1.simulated_key config.actual_key_mask s1.new_state in
    let s2 = record s1 { new_state = m } in
    if has_ghosting m
    then (any_pressed, s2)
    else (let (changed, s3) = debounce config now s2 in
        let (special, s4) = report changed s3 in (any_pressed && not special, s4))
