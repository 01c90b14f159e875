-- ===== src/Acpi/Protocol.antt =====
-- What the host can rely on when it speaks the protocol of common/acpi.c.
use chromium_ec.Common.{
  ℕ, ◌+◌, ◌-◌, ◌≡◌, ◌≤◌, refl, true, false, ◌∷◌, Option, none, some, arith, nonzero, bit_and,
}
use chromium_ec.Acpi.{Acpi, Answers, set_temp_threshold, ap_to_ec}

-- The host's two transactions: a command byte, an address, and for a write the value.
pub read_byte : ℕ → Answers → Acpi → Option ℕ × Acpi
read_byte addr a s = ap_to_ec false addr a (ap_to_ec true 0x80 a s).1

pub write_byte : ℕ → ℕ → Answers → Acpi → Acpi
write_byte addr value a s =
    (ap_to_ec false value a (ap_to_ec false addr a (ap_to_ec true 0x81 a s).1).1).1

-- From any state, whatever was left unfinished on the port: a byte written to the test address is
-- read back there, and at the next address its complement is read; and neither transaction asks
-- anything of another part or touches the host events.
pub read_byte-write_byte :
    (value : ℕ) (a b : Answers) (s : Acpi)
    → let s' = write_byte 1 value a s in
      ((read_byte 1 b s').0 ≡ some value)
      × ((read_byte 2 b s').0 ≡ some (0xff - value))
      × ((read_byte 2 b s').1.calls ≡ s.calls)
      × ((read_byte 2 b s').1.host ≡ s.host)
unfolding read_byte write_byte ap_to_ec
read_byte-write_byte value a b s = (refl, refl, refl, refl)

-- From any state, writing a sensor, a temperature and a commit asks thermal.c exactly once, for the
-- threshold that the lowest bit of the commit selects on that sensor, at the temperature plus the
-- offset of 200, enabled as the second bit of the commit says.
pub write_byte-threshold :
    (sensor temp commit : ℕ) (a : Answers) (s : Acpi)
    → (write_byte 7 commit a (write_byte 6 temp a (write_byte 5 sensor a s))).calls
      ≡ set_temp_threshold sensor (temp + 200) (bit_and commit 1) (nonzero (bit_and commit 2))
        ∷ s.calls
unfolding write_byte ap_to_ec
write_byte-threshold sensor temp commit a s = refl

-- A byte of data after two others is not answered, whatever the command, and changes nothing but
-- the count of the bytes.
pub ap_to_ec-idle :
    (value : ℕ) (a : Answers) (s : Acpi)
    → 2 ≤ s.data_count
    → ((ap_to_ec false value a s).0 ≡ none)
      × ((ap_to_ec false value a s).1 ≡ record s { data_count = s.data_count + 1 })
unfolding ap_to_ec
ap_to_ec-idle value a s h = ground arith
