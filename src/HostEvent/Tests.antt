-- ===== src/HostEvent/Tests.antt =====
-- The host events on concrete states.
use chromium_ec.Common.{◌≡◌, refl, true, false, List, [], ◌∷◌, arith}
use chromium_ec.Common.Bits.{test_bit}
use chromium_ec.HostEvent.{
  HostEvents, sci, set, clear, clear_b, mask, throttle, query, initialise, Call, run, query_state,
  query_from, set_state, clear_events, update_status,
}
use chromium_ec.HostEvent.Sync.{IsSynced, run-IsSynced}
use chromium_ec.HostEvent.Query.{Answers, query_state-Answers}
use chromium_ec.HostEvent.History.{remembers, run-copy_b}

abbrev quiet : HostEvents
quiet = record {
  events = 0;
  events_copy_b = 0;
  host_events = 0;
  smi_mask = 0;
  sci_mask = 0;
  wake_mask = 0;
  init_done = true;
  st_smi = false;
  st_sci = false;
  memmap = 0;
  wake_l = true;
  smi_pulses = 0;
  sci_pulses = 0;
}

quiet-IsSynced : IsSynced quiet
quiet-IsSynced = record {
  same = refl;
  word = omega arith;
  word_b = omega arith;
  shown = λ i. record { shown_smi = refl; shown_sci = refl; shown_map = refl; shown_wake = refl };
}

-- Events 2 and 4 are pending, and only 4 is let through to SCI.
abbrev busy : HostEvents
busy = record quiet {
  events = 10;
  events_copy_b = 10;
  host_events = 10;
  sci_mask = 8;
  st_sci = true;
  memmap = 10;
}

busy-IsSynced : IsSynced busy
busy-IsSynced = record {
  same = refl;
  word = omega arith;
  word_b = omega arith;
  shown = λ i. record { shown_smi = refl; shown_sci = refl; shown_map = refl; shown_wake = refl };
}

abbrev calls : List Call
calls = set 0x22 ∷ mask sci 0x2 ∷ query ∷ throttle 1 ∷ clear 0x20 ∷ clear_b 0x2 ∷ []

query_busy : (query_state busy).0 ≡ 4
unfolding query_state query_from clear_events set_state update_status
query_busy = refl

-- Before lpc_init, with a mapped memory that shows nothing of the events.
abbrev early : HostEvents
early = record busy { init_done = false; memmap = 0; st_sci = false }

run-IsSynced_example : IsSynced (run (set 0x22 ∷ initialise ∷ calls) early)
run-IsSynced_example =
    run-IsSynced (set 0x22 ∷ initialise ∷ calls) early (omega arith) refl refl (omega arith)
      (omega arith)

query_state-Answers_example : Answers 8 0 busy (query_state busy)
query_state-Answers_example = query_state-Answers busy-IsSynced

run-copy_b_example : test_bit (run calls quiet).events_copy_b 5 ≡ remembers 5 calls false
run-copy_b_example = run-copy_b calls 5 (omega arith) (omega arith) quiet-IsSynced
