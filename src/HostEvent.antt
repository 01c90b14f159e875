-- ===== src/HostEvent.antt =====
-- Host events: common/host_event_commands.c over the LPC registers of chip/lm4/lpc.c (CONFIG_LPC).
-- Both files keep a copy of the pending events, so one record holds the statics of both, the bits
-- of the LPC status register and the levels that the host sees, and a count of the pulses sent.
-- Console output and the delays inside a pulse are left out.
pub mod Sync
pub mod Query
pub mod History
mod Tests
use chromium_ec.Common.{
  ℕ, zero, suc, ◌+◌, ◌-◌, ◌^◌, Bool, true, false, not, ◌&&◌, ◌==◌, if◌then◌else◌, bit_and, bit_or,
  List, [], ◌∷◌, nonzero,
}
use chromium_ec.Common.Bits.{complement}

-- `enum lpc_host_event_type`
pub data MaskType : Type 0 where
  smi sci wake : MaskType

pub record HostEvents : Type 0 where
  pub events : ℕ  -- `events` of host_event_commands.c
  pub events_copy_b : ℕ
  pub host_events : ℕ  -- `host_events` of lpc.c
  pub smi_mask : ℕ  -- `event_mask[]`
  pub sci_mask : ℕ
  pub wake_mask : ℕ
  pub init_done : Bool
  pub st_smi : Bool  -- LM4_LPC_ST_SMI, LM4_LPC_ST_SCI
  pub st_sci : Bool
  pub memmap : ℕ  -- the word at EC_MEMMAP_HOST_EVENTS
  pub wake_l : Bool  -- the level of GPIO_PCH_WAKE_L
  pub smi_pulses : ℕ
  pub sci_pulses : ℕ

-- `*addr &= ~bits` and `*addr |= bits` on a uint32_t.
abbrev pub atomic_clear : ℕ → ℕ → ℕ
atomic_clear x bits = bit_and x (complement 32 bits)

abbrev pub atomic_or : ℕ → ℕ → ℕ
atomic_or x bits = bit_or x bits

-- EC_HOST_EVENT_MASK
abbrev pub event_mask : ℕ → ℕ
event_mask event_code = 2 ^ (event_code - 1)

-- EC_HOST_EVENT_POWER_BUTTON, EC_HOST_EVENT_THROTTLE_START and EC_HOST_EVENT_THROTTLE_STOP
abbrev pub power_button : ℕ
power_button = 3

abbrev pub throttle_start : ℕ
throttle_start = 18

abbrev pub throttle_stop : ℕ
throttle_stop = 19

-- The level that `lpc_update_wake` puts on the wake line: asserted is low.
abbrev pub update_wake : ℕ → Bool
update_wake wake_events = not (nonzero (atomic_clear wake_events (event_mask power_button)))

-- `update_host_event_status`
pub update_status : HostEvents → HostEvents
update_status h =
    if init_done
    then record h {
      smi_pulses = if smi_due && not st_smi then smi_pulses + 1 else smi_pulses;
      st_smi = smi_due;
      sci_pulses = if sci_due then sci_pulses + 1 else sci_pulses;
      st_sci = sci_due;
      memmap = host_events;
      wake_l = update_wake (bit_and host_events wake_mask);
    }
    else h
  where
    open h use {
      init_done, host_events, smi_mask, sci_mask, wake_mask, st_smi, smi_pulses, sci_pulses,
    }

    smi_due : Bool
    smi_due = nonzero (bit_and host_events smi_mask)

    sci_due : Bool
    sci_due = nonzero (bit_and host_events sci_mask)

-- `lpc_set_host_event_state`
pub set_state : ℕ → HostEvents → HostEvents
set_state mask h =
    if mask == h.host_events then h else update_status (record h { host_events = mask })

-- `lpc_set_host_event_mask`
pub set_mask : MaskType → ℕ → HostEvents → HostEvents
set_mask smi mask h = update_status (record h { smi_mask = mask })
set_mask sci mask h = update_status (record h { sci_mask = mask })
set_mask wake mask h = update_status (record h { wake_mask = mask })

-- `lpc_get_host_event_mask`
pub get_mask : MaskType → HostEvents → ℕ
get_mask smi h = h.smi_mask
get_mask sci h = h.sci_mask
get_mask wake h = h.wake_mask

-- `host_set_events`
pub set_events : ℕ → HostEvents → HostEvents
set_events mask h =
    let e = atomic_or h.events mask in
    set_state e (record h { events = e; events_copy_b = atomic_or h.events_copy_b mask })

-- `host_set_single_event`
pub set_single_event : ℕ → HostEvents → HostEvents
set_single_event event = set_events (event_mask event)

-- `host_clear_events`
pub clear_events : ℕ → HostEvents → HostEvents
clear_events mask h = let e = atomic_clear h.events mask in set_state e (record h { events = e })

-- `host_clear_events_b`
pub clear_events_b : ℕ → HostEvents → HostEvents
clear_events_b mask h = record h { events_copy_b = atomic_clear h.events_copy_b mask }

-- `host_throttle_cpu`
pub throttle_cpu : ℕ → HostEvents → HostEvents
throttle_cpu throttle =
    if nonzero throttle then set_single_event throttle_start else set_single_event throttle_stop

-- `any_mask`, which `lpc_query_host_event_state` reads once, before its loop.
abbrev pub any_mask : HostEvents → ℕ
any_mask h = bit_or (bit_or h.smi_mask h.sci_mask) h.wake_mask

-- The loop of `lpc_query_host_event_state` with `rounds` rounds left, at index `i`.
pub query_from : ℕ → ℕ → ℕ → HostEvents → ℕ × HostEvents
query_from any zero i h = (0, h)
query_from any (suc rounds) i h = elim (nonzero (bit_and h.host_events (2 ^ i))) [
  | true ↦ elim (nonzero (bit_and (2 ^ i) any)) [
    | true ↦ (i + 1, clear_events (2 ^ i) h)
    | false ↦ query_from any rounds (i + 1) (clear_events (2 ^ i) h)
  ]
  | false ↦ query_from any rounds (i + 1) h
]

pub query_state : HostEvents → ℕ × HostEvents
query_state h = query_from (any_mask h) 32 0 h

-- The calls of the EC and the commands of the host, as `DECLARE_HOST_COMMAND` names them: the
-- handlers of the SMI, SCI and wake masks, of CLEAR and CLEAR_B, and the ACPI query.
-- The last two statements of lpc_init, up to which the host sees nothing.
pub lpc_init : HostEvents → HostEvents
lpc_init h = update_status (record h { init_done = true })

pub data Call : Type 0 where
  initialise : Call
  set : ℕ → Call
  clear : ℕ → Call
  clear_b : ℕ → Call
  mask : MaskType → ℕ → Call
  throttle : ℕ → Call
  query : Call

pub call : Call → HostEvents → HostEvents
call (set m) h = set_events m h
call (clear m) h = clear_events m h
call (clear_b m) h = clear_events_b m h
call (mask t m) h = set_mask t m h
call (throttle t) h = throttle_cpu t h
call query h = (query_state h).1
call initialise h = lpc_init h

pub run : List Call → HostEvents → HostEvents
run [] h = h
run (c ∷ cs) h = run cs (call c h)
