-- ===== src/Mkbp/Tests.antt =====
-- common/keyboard_mkbp.c on a concrete ring.
use chromium_ec.Common.{ℕ, ◌≡◌, refl, true, false, ◌++◌, List, [], ◌∷◌, arith, replicate}
use chromium_ec.Mkbp.{Mkbp, MkbpConfig, fifo_add, fifo_remove}
use chromium_ec.Mkbp.Fifo.{Op, add, battery, get, configure, run, step, spec_run, Spec}
use chromium_ec.Mkbp.Fifo.Refinement.{run-answers}
use chromium_ec.Mkbp.Host.{Event, Host, outside, call, host, host_step, after}

abbrev blank : List ℕ
blank = replicate 13 0

abbrev key : ℕ → List ℕ
key k = k ∷ replicate 12 0

abbrev config : MkbpConfig
config = record {
  valid_mask = 251;
  flags = 1;
  valid_flags = 1;
  fifo_max_depth = 2;
  scan = record {
    output_settle_us = 50;
    debounce_down_us = 9000;
    debounce_up_us = 30000;
    scan_period_us = 3000;
    min_post_scan_delay_us = 1000;
    poll_timeout_us = 100000;
  };
}

-- A scan waits in the last slot of the ring.
abbrev waiting : Mkbp
waiting = record {
  fifo_start = 15;
  fifo_end = 0;
  fifo_entries = 1;
  fifo =
      blank
      ∷ blank
      ∷ blank
      ∷ blank
      ∷ blank
      ∷ blank
      ∷ blank
      ∷ blank
      ∷ blank
      ∷ blank
      ∷ blank
      ∷ blank
      ∷ blank
      ∷ blank
      ∷ key 8
      ∷ key 9
      ∷ [];
  config = config;
  line_active = true;
  wakes = 0;
}

abbrev abstract : Spec
abstract = record { queue = key 9 ∷ []; last = key 8; enabled = true; depth = 2; line = true }

abbrev calls : List Op
calls =
    add (key 1)
    ∷ add (key 2)
    ∷ get
    ∷ battery (key 1) true
    ∷ get
    ∷ get
    ∷ get
    ∷ configure (record config { flags = 0; fifo_max_depth = 40 })
    ∷ add (key 3)
    ∷ get
    ∷ []

run-answers_example : run calls waiting ≡ spec_run calls abstract
run-answers_example = run-answers calls (record {
  ring = record { storage = refl; start_in = omega arith; entries_in = omega arith; end_is = refl };
  queue_is = refl;
  last_is = λ more. refl;
  enabled_is = refl;
  depth_is = refl;
  depth_in = omega arith;
  line_is = refl;
  valid_mask_is = refl;
  valid_flags_is = refl;
})

-- A scan is added before the host reads, and another one between the reading and the test.
abbrev events : List Event
events = call (add (key 1)) ∷ host ∷ call (add (key 2)) ∷ host ∷ call get ∷ host ∷ host ∷ host ∷ []

abbrev start : Host
start = record { mkbp = waiting; point = outside }

-- A scan that is added between the test and the clearing waits with an inactive line, until
-- another one is added.
abbrev race : List Event
race = host ∷ host ∷ call (add (key 1)) ∷ host ∷ []

missed :
    ((after race start).mkbp.fifo_entries ≡ 1)
    × ((after race start).mkbp.line_active ≡ false)
    × ((after (race ++ (call (add (key 2)) ∷ [])) start).mkbp.line_active ≡ true)
unfolding step host_step fifo_add fifo_remove
missed = (refl, refl, refl)
