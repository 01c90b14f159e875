-- ===== src/PowerButton/Held.antt =====
-- When the stretched press of common/power_button_x86.c comes to show the button as it is: not
-- before four seconds, and surely once the two delays are over, whatever other rounds the task
-- makes.
use chromium_ec.Common.{
  ℕ, ◌+◌, ◌-◌, ◌*◌, ◌≤◌, ◌≡◌, ◌≢◌, ◌⊎◌, ◌∙◌, refl, ap, false, List, [], ◌∷◌, ◌++◌, arith, inl, inr,
  dec_lt,
}
use chromium_ec.PowerButton.{
  Button, pressed, t0, t1, held, task, step, run, state_machine, change_phase, delay_t0, delay_t1,
}
use chromium_ec.PowerButton.Stretch.{
  Round, rounds_of, AllBefore, too_early, in_time, press_round, pause_round, held_round,
}

-- The state after rounds of the task.
abbrev pub after : List Round → Button → Button
after rounds b = run (rounds_of rounds) b

after-append : (xs ys : List Round) (b : Button) → after (xs ++ ys) b ≡ after ys (after xs b)
unfolding run
after-append [] ys b = refl
after-append (x ∷ xs) ys b = after-append xs ys (step x.inputs (task x.now x.later) b)

abbrev one : Round → Button → Button
one r b = state_machine r.inputs r.now r.later b

-- The button is shown.
abbrev Shown : Button → Type 0
Shown b = (b.phase ≡ held) × (b.high ≡ false)

-- The pause, which is over by `limit`.
abbrev Paused : ℕ → Button → Type 0
Paused limit b = (b.phase ≡ t1) × (b.tnext ≤ limit)

one-Shown : (r : Round) (b : Button) → Shown b → Shown (one r b)
unfolding change_phase
one-Shown r b (phase, low) = elim (dec_lt r.now b.tnext) [
  | yes early ↦ rw (too_early r.inputs r.now r.later b early) (phase, low)
  | no due ↦
      let e = in_time r.inputs r.now r.later b (omega (arith, due)) in
      (ap (λ c. c.phase) e ∙ rw phase refl, ap (λ c. c.high) e ∙ rw phase low)
]

after-Shown : (rounds : List Round) (b : Button) → Shown b → Shown (after rounds b)
unfolding run step
after-Shown [] b s = s
after-Shown (r ∷ rounds) b s = after-Shown rounds (one r b) (one-Shown r b s)

-- A round in the pause keeps it, or shows the button.
one-Paused :
    (limit : ℕ) (r : Round) (b : Button) → Paused limit b → Paused limit (one r b) ⊎ Shown (one r b)
one-Paused limit r b (phase, by) = elim (dec_lt r.now b.tnext) [
  | yes early ↦ inl (rw (too_early r.inputs r.now r.later b early) (phase, by))
  | no due ↦
      let e = held_round r.inputs r.now r.later b phase (omega (arith, due)) r.awake r.charged in
      inr (ap (λ c. c.phase) e, ap (λ c. c.high) e)
]

after-Paused :
    (limit : ℕ) (rounds : List Round) (b : Button)
    → Paused limit b ⊎ Shown b
    → Paused limit (after rounds b) ⊎ Shown (after rounds b)
unfolding run step
after-Paused limit [] b h = h
after-Paused limit (r ∷ rounds) b (inr s) = inr (after-Shown rounds (one r b) (one-Shown r b s))
after-Paused limit (r ∷ rounds) b (inl p) =
    after-Paused limit rounds (one r b) (one-Paused limit r b p)

-- A round once the pause is over.
last-Paused :
    (limit : ℕ) (r : Round) (b : Button)
    → limit ≤ r.now
    → Paused limit b ⊎ Shown b
    → Shown (one r b)
last-Paused limit r b over (inr s) = one-Shown r b s
last-Paused limit r b over (inl (phase, by)) =
    let e = held_round r.inputs r.now r.later b phase (omega (arith, over, by)) r.awake r.charged in
    (ap (λ c. c.phase) e, ap (λ c. c.high) e)

-- The first pulse, until `start + delay_t0`; or a later phase, where the pause began by `u` at the
-- latest.
abbrev Pulsing : ℕ → Button → Type 0
Pulsing start b = (b.phase ≡ t0) × (b.tnext ≡ start + delay_t0)

abbrev Begun : ℕ → ℕ → Button → Type 0
Begun start u b = Pulsing start b ⊎ (Paused (u + delay_t1) b ⊎ Shown b)

one-Begun :
    (start u : ℕ) (r : Round) (b : Button) → r.now ≤ u → Begun start u b → Begun start u (one r b)
one-Begun start u r b le (inr (inr s)) = inr (inr (one-Shown r b s))
one-Begun start u r b le (inr (inl p)) = inr (one-Paused (u + delay_t1) r b p)
one-Begun start u r b le (inl (phase, next)) = elim (dec_lt r.now b.tnext) [
  | yes early ↦ inl (rw (too_early r.inputs r.now r.later b early) (phase, next))
  | no due ↦
      let e = pause_round r.inputs r.now r.later b phase (omega (arith, due)) in
      inr (inl (ap (λ c. c.phase) e, rw (ap (λ c. c.tnext) e) (omega (arith, le))))
]

after-Begun :
    (start u : ℕ) (rounds : List Round) (b : Button)
    → AllBefore (u + 1) rounds
    → Begun start u b
    → Begun start u (after rounds b)
unfolding run step
after-Begun start u [] b before h = h
after-Begun start u (r ∷ rounds) b before h =
    after-Begun start u rounds (one r b) before.1
      (one-Begun start u r b (omega (arith, before.0)) h)

-- A round once the pulse is over.
last-Begun :
    (start : ℕ) (r : Round) (b : Button)
    → start + delay_t0 ≤ r.now
    → Begun start r.now b
    → Paused (r.now + delay_t1) (one r b) ⊎ Shown (one r b)
last-Begun start r b over (inr (inr s)) = inr (one-Shown r b s)
last-Begun start r b over (inr (inl p)) = one-Paused (r.now + delay_t1) r b p
last-Begun start r b over (inl (phase, next)) =
    let e = pause_round r.inputs r.now r.later b phase (omega (arith, over, next)) in
    inl (ap (λ c. c.phase) e, rw (ap (λ c. c.tnext) e) (omega arith))

first-Pulsing :
    (first : Round) (b : Button)
    → b.phase ≡ pressed
    → b.tnext ≤ first.now
    → Pulsing first.now (one first b)
first-Pulsing first b phase due =
    let e = press_round first.inputs first.now first.later b phase due first.awake first.charged in
    (ap (λ c. c.phase) e, ap (λ c. c.tnext) e)

-- Before 4 seconds.
after-early :
    (t : ℕ) (rounds : List Round) (b : Button)
    → AllBefore t rounds
    → t ≤ b.tnext
    → after rounds b ≡ b
unfolding run step
after-early t [] b before wait = refl
after-early t (r ∷ rounds) b before wait =
    ap (after rounds) (too_early r.inputs r.now r.later b (omega (arith, before.0, wait)))
    ∙ after-early t rounds b before.1 wait

early-Pulsing :
    (start : ℕ) (rounds : List Round) (b : Button)
    → AllBefore (start + 4 * 1000000) rounds
    → Pulsing start b
    → ((after rounds b).phase ≡ t0) ⊎ ((after rounds b).phase ≡ t1)
unfolding run step
early-Pulsing start [] b before (phase, next) = inl phase
early-Pulsing start (r ∷ rounds) b before (phase, next) = elim (dec_lt r.now b.tnext) [
  | yes early ↦
      early-Pulsing start rounds (one r b) before.1
        (rw (too_early r.inputs r.now r.later b early) (phase, next))
  | no due ↦
      let e = pause_round r.inputs r.now r.later b phase (omega (arith, due)) in
      let wait : start + 4 * 1000000 ≤ (one r b).tnext =
        rw (ap (λ c. c.tnext) e) (omega (arith, due, next)) in
      inr (
        ap (λ c. c.phase) (after-early (start + 4 * 1000000) rounds (one r b) before.1 wait)
        ∙ ap (λ c. c.phase) e)
]

not-held : (b : Button) → (b.phase ≡ t0) ⊎ (b.phase ≡ t1) → b.phase ≢ held
not-held b (inl e) = λ h. ground (arith, e, h)
not-held b (inr e) = λ h. ground (arith, e, h)

-- After a press, with the chipset on and the battery not too low in all the rounds of the task that
-- follow: rounds that all come before 4 seconds after the first one do not bring the state to
-- `held`. And if one round comes 32 ms or more after the first and no round before it is later than
-- it, and a round after it comes at least the rest of 4 seconds later, then whatever other rounds
-- there are before, between and after, the state ends as `held` and the signal as asserted.
pub press-held :
    (first : Round) (b : Button)
    → b.phase ≡ pressed
    → b.tnext ≤ first.now
    → ((rounds : List Round)
        → AllBefore (first.now + 4 * 1000000) rounds
        → (run (rounds_of (first ∷ rounds)) b).phase ≢ held)
      × ((before : List Round) (second : Round) (between : List Round) (third : Round)
            (later : List Round)
          → AllBefore (second.now + 1) before
          → first.now + 32 * 1000 ≤ second.now
          → second.now + (4 * 1000000 - 32 * 1000) ≤ third.now
          → let out =
              run (rounds_of (first ∷ (before ++ (second ∷ (between ++ (third ∷ later)))))) b in
            (out.phase ≡ held) × (out.high ≡ false))
unfolding run step
press-held first b phase due = (
  λ rounds early.
      not-held (after rounds (one first b))
        (early-Pulsing first.now rounds (one first b) early (first-Pulsing first b phase due)),
  λ before second between third later earlier pulse_over pause_over.
      let b1 = after before (one first b) in
      let begun =
        after-Begun first.now second.now before (one first b) earlier
          (inl (first-Pulsing first b phase due)) in
      let b2 = after between (one second b1) in
      let paused =
        after-Paused (second.now + delay_t1) between (one second b1)
          (last-Begun first.now second b1 pulse_over begun) in
      let shown = last-Paused (second.now + delay_t1) third b2 pause_over paused in
      let all =
        after-append before (second ∷ (between ++ (third ∷ later))) (one first b)
        ∙ after-append between (third ∷ later) (one second b1) in
      rw all (after-Shown later (one third b2) shown),
)
