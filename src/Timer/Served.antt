-- ===== src/Timer/Served.antt =====
-- What process_timers of common/timer.c is to do for the timers that are due, and for the clock.
use chromium_ec.Common.{
  ℕ, ◌≤◌, ◌<◌, ◌≡◌, ◌⊎◌, ap, ◌∙◌, true, ◌&&◌, ltb, leb, Option, some, none, if◌then◌else◌, arith,
}
use chromium_ec.Common.Bits.{test_bit}
use chromium_ec.HostEvent.{atomic_or}
use chromium_ec.Timer.{Timers, event_timer, hi, lo}
use chromium_ec.Timer.Pass.{Passed}

-- The timers that are due at `now` have run out and their tasks have the event; the others go on.
pub record Served (now : ℕ) (t t' : Timers) : Type 0 where
  pub deadline_same : t'.deadline ≡ t.deadline
  pub running_left :
      (i : ℕ) → i < 32 → test_bit t'.running i ≡ (test_bit t.running i && ltb now (t.deadline i))
  pub woken :
      (i : ℕ)
      → i < 32
      → t'.events i ≡ (
          if test_bit t.running i && leb (t.deadline i) now
          then atomic_or (t.events i) event_timer
          else t.events i)

-- The running timer `i` ends in the 2^32 microseconds of `now`.
abbrev pub Near : ℕ → Timers → ℕ → Type 0
Near now t i = (i < 32) × (test_bit t.running i ≡ true) × (hi (t.deadline i) ≡ hi now)

-- The clock has an event at the first deadline of those, which `after` has not reached, or has none
-- and no such timer runs, but for one at the last microsecond, which the overflow serves.
abbrev pub Armed : ℕ → ℕ → Timers → Type 0
Armed now after t =
    ((i : ℕ) × Near now t i
      × (t.hw_event ≡ some (lo (t.deadline i)))
      × (after < t.deadline i)
      × ((j : ℕ) → Near now t j → lo (t.deadline i) ≤ lo (t.deadline j)))
    ⊎ ((t.hw_event ≡ none) × ((j : ℕ) → Near now t j → lo (t.deadline j) ≡ 0xffffffff))

-- A running timer that is due.
abbrev pub Due : ℕ → Timers → Type 0
Due now t = (i : ℕ) × (i < 32) × (test_bit t.running i ≡ true) × (t.deadline i ≤ now)

pub Passed-Served :
    (now next : ℕ) (t : Timers) (next' : ℕ) (t' : Timers)
    → Passed t.running now next t next' t'
    → Served now t t'
Passed-Served now next t next' t' p = record {
  deadline_same = p.deadline_same;
  running_left = λ i li. ground (arith, p.running_left i li);
  woken = λ i li. p.woken i li;
}

pub event-Served :
    (e : Option ℕ) (d : ℕ) {now : ℕ} {t t' : Timers}
    → Served now t t'
    → Served now t (record t' { next_deadline = d; hw_event = e })
event-Served e d s = record {
  deadline_same = s.deadline_same;
  running_left = s.running_left;
  woken = s.woken;
}

-- Two rounds serve what one at the later time would.
pub Served-Served :
    (now now' : ℕ) (t t' t'' : Timers)
    → now ≤ now'
    → Served now t t'
    → Served now' t' t''
    → Served now' t t''
Served-Served now now' t t' t'' h s r = record {
  deadline_same = r.deadline_same ∙ s.deadline_same;
  running_left = λ i li.
      ground (arith, r.running_left i li, s.running_left i li, ap (λ f. f i) s.deadline_same);
  woken = λ i li.
      ground
        (arith, r.woken i li, s.woken i li, s.running_left i li, ap (λ f. f i) s.deadline_same);
}
