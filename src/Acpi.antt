-- ===== src/Acpi.antt =====
-- common/acpi.c: the ACPI port, by which the host reads and writes one byte of the controller's
-- ACPI memory at a time and asks for host events. All of CONFIG_PWM_KBLIGHT, CONFIG_FANS,
-- CONFIG_TEMP_SENSOR, CONFIG_CHARGER and CONFIG_LPC is built in. What the backlight, thermal.c and
-- the charger answer is an argument, and what the port asks of them is a list of calls, latest
-- first.
pub mod Protocol
mod Tests
use chromium_ec.Common.{
  ℕ, zero, suc, ◌+◌, ◌-◌, ◌*◌, ◌/◌, ◌%◌, Bool, true, false, not, ◌&&◌, List, [], ◌∷◌, Option, none,
  some, ◌==◌, nonzero, if◌then◌else◌, bit_and,
}
use chromium_ec.HostEvent.{HostEvents, query_state}

-- EC_CMD_ACPI_READ, EC_CMD_ACPI_WRITE and EC_CMD_ACPI_QUERY_EVENT
abbrev pub cmd_read : ℕ
cmd_read = 0x80

abbrev pub cmd_write : ℕ
cmd_write = 0x81

abbrev pub cmd_query_event : ℕ
cmd_query_event = 0x84

-- The calls of pwm_set_duty, dptf_set_fan_duty_target, dptf_set_temp_threshold and
-- dptf_set_charging_current_limit, where `none` stands for -1.
pub data Call : Type 0 where
  set_kblight : ℕ → Call
  set_fan_duty : ℕ → Call
  set_temp_threshold : ℕ → ℕ → ℕ → Bool → Call
  set_charging_limit : Option ℕ → Call

-- What pwm_get_duty, dptf_get_fan_duty_target and dptf_query_next_sensor_event answer, as the byte
-- that is sent, and what dptf_get_charging_current_limit answers, `none` for a negative number.
pub record Answers : Type 0 where
  pub kblight_duty : ℕ
  pub fan_duty : ℕ
  pub sensor_event : ℕ
  pub charging_limit : Option ℕ

pub record Acpi : Type 0 where
  pub cmd : ℕ  -- `acpi_cmd`
  pub addr : ℕ
  pub data_count : ℕ
  pub mem_test : ℕ
  pub temp_sensor_id : ℕ  -- `dptf_temp_sensor_id`
  pub temp_threshold : ℕ
  pub host : HostEvents
  pub calls : List Call

-- EC_ACPI_MEM_CHARGING_LIMIT, read.
abbrev pub limit_byte : Option ℕ → ℕ
limit_byte none = 0xff
limit_byte (some ma) = ma / 64 % 256

-- The switch of a read.
abbrev pub read_mem : Answers → Acpi → ℕ
read_mem a s =
    if s.addr == 0x00
    then 1
    else if s.addr == 0x01
    then s.mem_test
    else if s.addr == 0x02
    then 0xff - s.mem_test
    else if s.addr == 0x03
    then a.kblight_duty
    else if s.addr == 0x04
    then a.fan_duty
    else if s.addr == 0x05
    then a.sensor_event
    else if s.addr == 0x08
    then limit_byte a.charging_limit
    else 0xff

abbrev pub called : Call → Acpi → Acpi
called c s = record s { calls = c ∷ s.calls }

-- The switch of a write; EC_TEMP_SENSOR_OFFSET is 200.
abbrev pub write_mem : ℕ → Acpi → Acpi
write_mem value s =
    if s.addr == 0x01
    then record s { mem_test = value }
    else if s.addr == 0x03
    then called (set_kblight value) s
    else if s.addr == 0x04
    then called (set_fan_duty value) s
    else if s.addr == 0x05
    then record s { temp_sensor_id = value }
    else if s.addr == 0x06
    then record s { temp_threshold = value + 200 }
    else if s.addr == 0x07
    then called
        (set_temp_threshold s.temp_sensor_id s.temp_threshold (bit_and value 1)
          (nonzero (bit_and value 2)))
        s
    else if s.addr == 0x08
    then called (set_charging_limit (if value == 0xff then none else some (value * 64))) s
    else s

-- The first part of `acpi_ap_to_ec`: what the byte is.
abbrev pub take_byte : Bool → ℕ → Acpi → Acpi
take_byte true value s = record s { cmd = value; data_count = 0 }
take_byte false value s = record s {
  addr = if s.data_count == 0 then value else s.addr;
  data_count = s.data_count + 1;
}

-- The second part: a complete command, with the byte that answers it, if one does.
abbrev pub complete : ℕ → Answers → Acpi → Option ℕ × Acpi
complete value a s =
    if s.cmd == cmd_read && s.data_count == 1
    then (some (read_mem a s), s)
    else if s.cmd == cmd_write && s.data_count == 2
    then (none, write_mem value s)
    else if s.cmd == cmd_query_event && s.data_count == 0
    then (let (index, host) = query_state s.host in (some index, record s { host = host }))
    else (none, s)

-- `acpi_ap_to_ec`
pub ap_to_ec : Bool → ℕ → Answers → Acpi → Option ℕ × Acpi
ap_to_ec is_cmd value a s = complete value a (take_byte is_cmd value s)
