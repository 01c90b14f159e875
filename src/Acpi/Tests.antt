-- ===== src/Acpi/Tests.antt =====
-- common/acpi.c on a concrete state.
use chromium_ec.Common.{◌-◌, ◌≡◌, true, false, [], ◌∷◌, some}
use chromium_ec.Acpi.{Acpi, Answers, set_kblight}
use chromium_ec.Acpi.Protocol.{read_byte, write_byte, read_byte-write_byte}

abbrev answers : Answers
answers = record { kblight_duty = 40; fan_duty = 55; sensor_event = 2; charging_limit = some 1024 }

-- A write that the host left after its address.
abbrev unfinished : Acpi
unfinished = record {
  cmd = 0x81;
  addr = 3;
  data_count = 1;
  mem_test = 0;
  temp_sensor_id = 0;
  temp_threshold = 0;
  host = record {
    events = 0;
    events_copy_b = 0;
    host_events = 0;
    smi_mask = 0;
    sci_mask = 0;
    wake_mask = 0;
    init_done = true;
    st_smi = false;
    st_sci = false;
    memmap = 0;
    wake_l = true;
    smi_pulses = 0;
    sci_pulses = 0;
  };
  calls = [];
}

abbrev finished : Acpi
finished = record unfinished { data_count = 2; calls = set_kblight 9 ∷ [] }

read_byte-write_byte_example :
    let s' = write_byte 1 0x5a answers unfinished in
    ((read_byte 1 answers s').0 ≡ some 0x5a)
    × ((read_byte 2 answers s').0 ≡ some (0xff - 0x5a))
    × ((read_byte 2 answers s').1.calls ≡ [])
    × ((read_byte 2 answers s').1.host ≡ unfinished.host)
read_byte-write_byte_example = read_byte-write_byte 0x5a answers answers unfinished
