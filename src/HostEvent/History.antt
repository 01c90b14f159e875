-- ===== src/HostEvent/History.antt =====
-- What the second copy of the events remembers of the calls, and which calls pulse the host.
use chromium_ec.Common.{
  nonzero, ℕ, ◌+◌, ◌^◌, ◌<◌, ◌≡◌, refl, ◌∙◌, ap, Bool, true, not, ◌&&◌, ◌||◌, ◌==◌, if◌then◌else◌,
  bit_and, bit_or, arith, Bool-cases, inl, inr, List, [], ◌∷◌,
}
use chromium_ec.Common.Bits.{
  test_bit, test_bit-bit_and, test_bit-bit_or, test_bit-complement, test_bit-set, complement,
}
use chromium_ec.HostEvent.{
  MaskType, smi, sci, wake, HostEvents, update_status, set_state, set_mask, set_events,
  set_single_event, clear_events, clear_events_b, throttle_cpu, Call, set, clear, clear_b, mask,
  throttle, query, initialise, lpc_init, call, run, throttle_start, throttle_stop,
}
use chromium_ec.HostEvent.Sync.{
  IsSynced, set_state-Kept, update_status-Kept, CallFits, CallsFit, call-IsSynced,
}
use chromium_ec.HostEvent.Query.{query_state-Answers}

-- One event in the second copy, by the calls alone: setting it, with a throttle request for the two
-- throttle events, makes it pending, and only a clear of the second copy makes it go.
pub remembers : ℕ → List Call → Bool → Bool
remembers i [] b = b
remembers i (set m ∷ cs) b = remembers i cs (b || test_bit m i)
remembers i (clear_b m ∷ cs) b = remembers i cs (b && not (test_bit m i))
remembers i (throttle t ∷ cs) b =
    remembers i cs (b || ((if nonzero t then throttle_start else throttle_stop) == (i + 1)))
remembers i (clear m ∷ cs) b = remembers i cs b
remembers i (mask t m ∷ cs) b = remembers i cs b
remembers i (query ∷ cs) b = remembers i cs b
remembers i (initialise ∷ cs) b = remembers i cs b

set_events-copy_b :
    (m : ℕ) (h : HostEvents) → (set_events m h).events_copy_b ≡ bit_or h.events_copy_b m
unfolding set_events
set_events-copy_b m h = (set_state-Kept _ _).kept_b

clear_events-copy_b : (m : ℕ) (h : HostEvents) → (clear_events m h).events_copy_b ≡ h.events_copy_b
unfolding clear_events
clear_events-copy_b m h = (set_state-Kept _ _).kept_b

set_mask-copy_b :
    (t : MaskType) (m : ℕ) (h : HostEvents) → (set_mask t m h).events_copy_b ≡ h.events_copy_b
unfolding set_mask
set_mask-copy_b smi m h = (update_status-Kept _).kept_b
set_mask-copy_b sci m h = (update_status-Kept _).kept_b
set_mask-copy_b wake m h = (update_status-Kept _).kept_b

pub throttle_cpu-copy_b :
    (t i : ℕ) (h : HostEvents)
    → test_bit (throttle_cpu t h).events_copy_b i ≡ (
        test_bit h.events_copy_b i
        || ((if nonzero t then throttle_start else throttle_stop) == (i + 1)))
unfolding throttle_cpu set_single_event
throttle_cpu-copy_b t i h = elim (Bool-cases (nonzero t)) [
  | inl on ↦ rw (on) (
      ap (λ x. test_bit x i) (set_events-copy_b (2 ^ 17) h)
      ∙ test_bit-set h.events_copy_b 17 i
      ∙ ground arith)
  | inr off ↦ rw (off) (
      ap (λ x. test_bit x i) (set_events-copy_b (2 ^ 18) h)
      ∙ test_bit-set h.events_copy_b 18 i
      ∙ ground arith)
]

call-copy_b :
    (c : Call) (cs : List Call) (i : ℕ) {h : HostEvents}
    → i < 32
    → CallFits c
    → IsSynced h
    → remembers i cs (test_bit (call c h).events_copy_b i)
      ≡ remembers i (c ∷ cs) (test_bit h.events_copy_b i)
unfolding call remembers
call-copy_b (set m) cs i {h} lt w s =
    ap (remembers i cs)
      (ap (λ x. test_bit x i) (set_events-copy_b m h) ∙ test_bit-bit_or h.events_copy_b m i)
call-copy_b (clear m) cs i {h} lt w s =
    ap (λ x. remembers i cs (test_bit x i)) (clear_events-copy_b m h)
call-copy_b (clear_b m) cs i {h} lt w s = ap (remembers i cs) (
    unfold clear_events_b in
    test_bit-bit_and h.events_copy_b (complement 32 m) i
    ∙ ap (λ b. test_bit h.events_copy_b i && b) (test_bit-complement 32 m i w lt))
call-copy_b (mask t m) cs i {h} lt w s =
    ap (λ x. remembers i cs (test_bit x i)) (set_mask-copy_b t m h)
call-copy_b (throttle t) cs i {h} lt w s = ap (remembers i cs) (throttle_cpu-copy_b t i h)
call-copy_b query cs i {h} lt w s =
    ap (λ x. remembers i cs (test_bit x i)) (query_state-Answers s).copy_b
call-copy_b initialise cs i {h} lt w s =
    ap (λ x. remembers i cs (test_bit x i))
      (unfold lpc_init in (update_status-Kept (record h { init_done = true })).kept_b)

-- In any state in which the copies agree, after any calls the second copy of the events holds
-- exactly the events that were set, or asked for by a throttle request, and not cleared from the
-- second copy since: the host's clears of the first copy, its queries and its masks change nothing.
pub run-copy_b :
    (cs : List Call) (i : ℕ) {h : HostEvents}
    → i < 32
    → CallsFit cs
    → IsSynced h
    → test_bit (run cs h).events_copy_b i ≡ remembers i cs (test_bit h.events_copy_b i)
unfolding run
run-copy_b [] i lt w s = unfold remembers in refl
run-copy_b (c ∷ cs) i lt w s =
    run-copy_b cs i lt w.1 (call-IsSynced c w.0 s) ∙ call-copy_b c cs i lt w.0 s

-- In a state in which the copies agree and the LPC module is initialised, passing on new pending
-- events sends one SMI pulse exactly when an event let through by the SMI mask appears where none
-- was, and one SCI pulse exactly when the events differ from before and some event is let through
-- by the SCI mask.
pub set_state-pulses :
    (e : ℕ) {h : HostEvents}
    → IsSynced h
    → h.init_done ≡ true
    → ((set_state e h).smi_pulses
        ≡ h.smi_pulses
          + (if nonzero (bit_and e h.smi_mask) && not (nonzero (bit_and h.events h.smi_mask))
              then 1
              else 0))
      × ((set_state e h).sci_pulses
          ≡ h.sci_pulses + (if nonzero (bit_and e h.sci_mask) && not (e == h.events) then 1 else 0))
unfolding set_state update_status
set_state-pulses e {h} s i = ground (arith, s.shown i)
