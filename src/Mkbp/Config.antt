-- ===== src/Mkbp/Config.antt =====
-- The host command of common/keyboard_mkbp.c that sets the configuration, as one record.
use chromium_ec.Common.{
  ℕ, ◌+◌, ◌^◌, ◌<◌, ◌≡◌, refl, ap, ◌∙◌, not, ◌&&◌, arith, nonzero, if◌then◌else◌, min, bit_and,
  bit_or, Bool-cases, inl, inr,
}
use chromium_ec.Common.Bits.{
  test_bit, nonzero-bit_and, test_bit-bit_and, test_bit-bit_or, test_bit-complement, bit_and-lt,
  complement,
}
use chromium_ec.Mkbp.{
  Mkbp, MkbpConfig, set_config, copy_config, set_keyscan_config, set_scan_config, when,
}

-- Bits of the configuration words.
pub depth_bit : (x : ℕ) → nonzero (bit_and (bit_and 251 x) (2 ^ 7)) ≡ test_bit x 7
depth_bit x = nonzero-bit_and (bit_and 251 x) 7 ∙ test_bit-bit_and 251 x 7

-- A flag is copied where its valid bit is set, and kept elsewhere.
pub flag-copied :
    (old new valid i : ℕ)
    → i < 8
    → valid < 2 ^ 8
    → test_bit (bit_or (bit_and old (complement 8 valid)) (bit_and new valid)) i
      ≡ (if test_bit valid i then test_bit new i else test_bit old i)
flag-copied old new valid i k v = ground (
  arith,
  test_bit-bit_or (bit_and old (complement 8 valid)) (bit_and new valid) i,
  test_bit-bit_and old (complement 8 valid) i,
  test_bit-bit_and new valid i,
  test_bit-complement 8 valid i v k,
)

pub enable_bit :
    (old new x : ℕ)
    → test_bit (bit_or (bit_and old (complement 8 (bit_and 1 x))) (bit_and new (bit_and 1 x))) 0
      ≡ (if test_bit x 0 then test_bit new 0 else test_bit old 0)
enable_bit old new x =
    flag-copied old new (bit_and 1 x) 0 (omega arith) (bit_and-lt 8 1 x (omega arith))
    ∙ ap (λ b. if b then test_bit new 0 else test_bit old 0) (test_bit-bit_and 1 x 0)

-- `host_command_mkbp_set_config` in one record: only the configuration and the count of wakes
-- change.
pub set_config_lem :
    (req : MkbpConfig) (m : Mkbp)
    → let mask = bit_and m.config.valid_mask req.valid_mask in
      let valid = bit_and m.config.valid_flags req.valid_flags in
      let flags = bit_or (bit_and m.config.flags (complement 8 valid)) (bit_and req.flags valid) in
      set_config req m ≡ record m {
        config = record {
          valid_mask = m.config.valid_mask;
          valid_flags = m.config.valid_flags;
          flags = flags;
          fifo_max_depth = when mask (2 ^ 7) (min req.fifo_max_depth 16) m.config.fifo_max_depth;
          scan = set_scan_config req.scan mask m.config.scan;
        };
        wakes =
            if nonzero (bit_and flags 1) && not (nonzero (bit_and m.config.flags 1))
            then m.wakes + 1
            else m.wakes;
      }
unfolding set_config copy_config set_keyscan_config
set_config_lem req m =
    let valid = bit_and m.config.valid_flags req.valid_flags in
    let flags = bit_or (bit_and m.config.flags (complement 8 valid)) (bit_and req.flags valid) in
    elim (Bool-cases (nonzero (bit_and flags 1) && not (nonzero (bit_and m.config.flags 1)))) [
      | inl w ↦ rw w refl
      | inr w ↦ rw w refl
    ]
