-- ===== src/Mkbp/Fifo/Refinement.antt =====
-- The ring, the interrupt line and the configuration of common/keyboard_mkbp.c implement the
-- specification of `Mkbp.Fifo`.
use chromium_ec.Common.{◌≡◌, refl, ap, ap₂, ◌∙◌, List, [], ◌∷◌, arith, if◌then◌else◌, min}
use chromium_ec.Common.Bits.{test_bit}
use chromium_ec.Mkbp.{Mkbp, MkbpConfig, set_config}
use chromium_ec.Mkbp.Fifo.{
  Op, add, battery, get, clear, configure, status, scan, step, run, Spec, spec_step, spec_run,
}
use chromium_ec.Mkbp.Config.{set_config_lem, depth_bit, enable_bit}
use chromium_ec.Mkbp.Fifo.Held.{Holds, add-Holds, get_from-Holds, clear-Holds, battery-Holds}

configure-Holds :
    (req : MkbpConfig) {s : Spec} {m : Mkbp}
    → Holds s m
    → Holds (spec_step (configure req) s).1 (set_config req m)
unfolding spec_step
configure-Holds req {s} {m} h = rw (set_config_lem req m) (record {
  ring = record {
    storage = h.ring.storage;
    start_in = h.ring.start_in;
    entries_in = h.ring.entries_in;
    end_is = h.ring.end_is;
  };
  queue_is = h.queue_is;
  last_is = h.last_is;
  enabled_is =
      rw h.valid_flags_is (enable_bit m.config.flags req.flags req.valid_flags)
      ∙ ap (λ b. if test_bit req.valid_flags 0 then test_bit req.flags 0 else b) h.enabled_is;
  depth_is = rw h.valid_mask_is (
      ap₂ (λ b d. if b then min req.fifo_max_depth 16 else d) (depth_bit req.valid_mask)
        h.depth_is);
  depth_in = ground (arith, h.depth_in);
  line_is = h.line_is;
  valid_mask_is = h.valid_mask_is;
  valid_flags_is = h.valid_flags_is;
})

step-Holds :
    (op : Op) {s : Spec} {m : Mkbp}
    → Holds s m
    → ((step op m).0 ≡ (spec_step op s).0) × Holds (spec_step op s).1 (step op m).1
unfolding step spec_step
step-Holds (add x) h = let (code, rest) = add-Holds x h in (ap status code, rest)
step-Holds (battery x is_on) h = (refl, battery-Holds x is_on h)
step-Holds get {s} h = let (x, rest) = get_from-Holds s.queue refl h in (ap scan x, rest)
step-Holds clear h = (refl, clear-Holds h)
step-Holds (configure req) h = (refl, configure-Holds req h)

-- From a state that holds the abstract sequence `s`, any sequence of keyboard scans added
-- (`keyboard_fifo_add`, `keyboard_send_battery_key`), scans read by the host (`keyboard_get_scan`),
-- clearings and reconfigurations by the host, each of which runs whole, gives the answers, and puts
-- the interrupt line at the levels, of a bounded first-in first-out sequence: scans are read in the
-- order they were added; a scan is refused exactly when as many wait as the host allows, which is
-- never more than 16, and dropped silently while the host has the keyboard disabled; a read of
-- nothing repeats the last scan read; an added scan asserts the line, and the read that takes the
-- last one releases it.
pub run-answers : (ops : List Op) {s : Spec} {m : Mkbp} → Holds s m → run ops m ≡ spec_run ops s
unfolding run spec_run
run-answers [] h = refl
run-answers (op ∷ ops) h =
    let (same, rest) = step-Holds op h in
    ap₂ ◌∷◌ (λ i. (same i, rest.line_is i)) (run-answers ops rest)
