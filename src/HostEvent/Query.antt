-- ===== src/HostEvent/Query.antt =====
-- `lpc_query_host_event_state`: the ACPI query takes the lowest event that some mask lets through.
use chromium_ec.Common.{
  nonzero, ℕ, zero, suc, ◌+◌, ◌^◌, ◌<◌, ◌≤◌, ◌≡◌, ◌⊎◌, refl, ◌∙◌, ap, Bool, true, false, not, ◌&&◌,
  ◌||◌, ◌==◌, ltb, leb, bit_and, arith, Bool-cases, inl, inr, dec_lt, ℕ_discrete,
}
use chromium_ec.Common.Bits.{nonzero-bit_and, nonzero-pow_and, test_bit, test_bit-clear}
use chromium_ec.HostEvent.{HostEvents, clear_events, query_from, query_state, any_mask}
use chromium_ec.HostEvent.Sync.{IsSynced, set_state-Kept, clear_events-IsSynced}

-- An event is ready if it is pending and some mask lets it through.
abbrev pub is_ready : ℕ → HostEvents → ℕ → Bool
is_ready any h j = test_bit h.events j && test_bit any j

-- What the loop answers from index `i` on: `n` is 0, or one more than the lowest ready event. All
-- pending events from `i` up to the answer are gone (all, if there is no answer), the others stay,
-- and the second copy of the events stays.
pub record Answers (any i : ℕ) (h : HostEvents) (out : ℕ × HostEvents) : Type 0 where
  pub beyond : (out.0 ≡ 0) ⊎ (i < out.0)
  pub found : (k : ℕ) → out.0 ≡ suc k → (i ≤ k) × (k < 32) × (is_ready any h k ≡ true)
  pub lowest : (j : ℕ) → i ≤ j → j < 32 → ((out.0 ≡ 0) ⊎ (j + 1 < out.0)) → is_ready any h j ≡ false
  pub left :
      (j : ℕ)
      → j < 32
      → test_bit out.1.events j
        ≡ (test_bit h.events j && (ltb j i || (not (out.0 == 0) && leb out.0 j)))
  pub copy_b : out.1.events_copy_b ≡ h.events_copy_b

clear_events-bit :
    (i j : ℕ) (h : HostEvents)
    → i < 32
    → j < 32
    → test_bit (clear_events (2 ^ i) h).events j ≡ (test_bit h.events j && not (i == j))
unfolding clear_events
clear_events-bit i j h hi hj =
    ap (λ x. test_bit x j) (set_state-Kept _ _).kept_events ∙ test_bit-clear 32 h.events i j hi hj

clear_events-copy_b : (m : ℕ) (h : HostEvents) → (clear_events m h).events_copy_b ≡ h.events_copy_b
unfolding clear_events
clear_events-copy_b m h = (set_state-Kept _ _).kept_b

module _ (any i : ℕ) (h : HostEvents) (out : ℕ × HostEvents) (small : i < 32) where
  -- Event `i` is not pending.
  Answers-skip : test_bit h.events i ≡ false → Answers any (i + 1) h out → Answers any i h out
  Answers-skip off a = record {
    beyond = omega (arith, a.beyond);
    found = λ k p. ground (arith, a.found k p);
    lowest = λ j le lt c. elim (dec_lt i j) [
      | yes gt ↦ a.lowest j (omega arith) lt c
      | no ge ↦ let same : j ≡ i = omega arith in rw (same, off)
    ];
    left = λ j lt. elim (ℕ_discrete j i) [
      | yes same ↦ rw same (a.left i small ∙ rw off refl)
      | no other ↦ a.left j lt ∙ ground arith
    ];
    copy_b = a.copy_b;
  }

  -- Event `i` is pending, and no mask lets it through: it is dropped.
  Answers-drop :
      test_bit any i ≡ false
      → Answers any (i + 1) (clear_events (2 ^ i) h) out
      → Answers any i h out
  Answers-drop masked a = record {
    beyond = omega (arith, a.beyond);
    found = λ k p. ground (arith, a.found k p, clear_events-bit i k h small);
    lowest = λ j le lt c. elim (dec_lt i j) [
      | yes gt ↦ ground (arith, a.lowest j (omega arith) lt c, clear_events-bit i j h small lt)
      | no ge ↦ let same : j ≡ i = omega arith in rw same (ground arith)
    ];
    left = λ j lt. ground (arith, a.left j lt, clear_events-bit i j h small lt, a.beyond);
    copy_b = a.copy_b ∙ clear_events-copy_b (2 ^ i) h;
  }

-- Event `i` is ready: it is the answer.
Answers-hit :
    (any i : ℕ) (h : HostEvents)
    → i < 32
    → is_ready any h i ≡ true
    → Answers any i h (i + 1, clear_events (2 ^ i) h)
Answers-hit any i h small ready = record {
  beyond = inr (omega arith);
  found = λ k p. let same : k ≡ i = omega arith in rw same (omega arith, small, ready);
  lowest = λ j le lt c. absurd (omega arith);
  left = λ j lt. clear_events-bit i j h small lt ∙ ground arith;
  copy_b = clear_events-copy_b (2 ^ i) h;
}

query_from-Answers :
    (any rounds i : ℕ) {h : HostEvents}
    → i + rounds ≡ 32
    → IsSynced h
    → Answers any i h (query_from any rounds i h)
unfolding query_from
query_from-Answers any zero i {h} e s = record {
  beyond = inl refl;
  found = λ k p. cc;
  lowest = λ j a b c. absurd (omega arith);
  left = λ j b. ground arith;
  copy_b = refl;
}
query_from-Answers any (suc rounds) i {h} e s =
    let pending = ap (λ x. nonzero (bit_and x (2 ^ i))) s.same ∙ nonzero-bit_and h.events i in
    let skip = Answers-skip any i h (query_from any rounds (i + 1) h) (omega arith) in
    let h' : HostEvents = clear_events (2 ^ i) h in
    let drop = Answers-drop any i h (query_from any rounds (i + 1) h') (omega arith) in
    elim (Bool-cases (test_bit h.events i)) [
      | inl on ↦ elim (Bool-cases (test_bit any i)) [
        | inl open' ↦
            rw (pending ∙ on, nonzero-pow_and any i ∙ open', query_from)
              (Answers-hit any i h (omega arith) (rw (on, open') refl))
        | inr masked ↦
            rw (pending ∙ on, nonzero-pow_and any i ∙ masked, query_from)
              (drop masked (
                query_from-Answers any rounds (i + 1) (omega arith)
                  (clear_events-IsSynced (2 ^ i) s)))
      ]
      | inr off ↦
          rw (pending ∙ off, query_from)
            (skip off (query_from-Answers any rounds (i + 1) (omega arith) s))
    ]

-- From a state in which the copies of the events agree, the ACPI query answers 0 exactly when no
-- pending event is let through by the SMI, SCI or wake mask, and otherwise the 1-based code of the
-- lowest such event. It clears that event and every pending event below it (all of them, if the
-- answer is 0), leaves the events above it, and leaves the second copy of the events alone.
pub query_state-Answers : {h : HostEvents} → IsSynced h → Answers (any_mask h) 0 h (query_state h)
unfolding query_state
query_state-Answers {h} s = query_from-Answers (any_mask h) 32 0 refl s
