-- ===== src/PowerButton/Stretch.antt =====
-- The stretched press of common/power_button_x86.c: a short pulse, a pause until four seconds after
-- the press, and then the button as it is, so that the chipset resets after eight seconds and not
-- after four.
use chromium_ec.Common.{
  ℕ, ◌+◌, ◌*◌, ◌≤◌, ◌<◌, ◌≡◌, ◌∙◌, refl, ap, Bool, true, false, ◌||◌, List, [], ◌∷◌, arith, ltb,
  leb, Bool-cases, inl, inr,
}
use chromium_ec.PowerButton.{
  Button, Inputs, Event, pressed, t0, t1, held, task, step, run, change_phase, state_machine,
  set_pwrbtn_to_pch, delay_t0, delay_t1,
}

-- A round of the task while the chipset is on and the battery is not too low.
pub record Round : Type 0 where
  pub inputs : Inputs
  pub now : ℕ
  pub later : ℕ
  pub awake : inputs.any_off ≡ false
  pub charged : inputs.want_shutdown ≡ false

abbrev pub rounds_of : List Round → List (Inputs × Event)
rounds_of [] = []
rounds_of (r ∷ rounds) = (r.inputs, task r.now r.later) ∷ rounds_of rounds

abbrev pub AllBefore : ℕ → List Round → Type 0
AllBefore t [] = Unit
AllBefore t (r ∷ rounds) = (r.now < t) × AllBefore t rounds

-- One of the rounds is at `t` or later.
abbrev pub any_from : ℕ → List Round → Bool
any_from t [] = false
any_from t (r ∷ rounds) = leb t r.now || any_from t rounds

pub too_early :
    (x : Inputs) (now later : ℕ) (b : Button) → now < b.tnext → state_machine x now later b ≡ b
unfolding state_machine
too_early x now later b h = let early : ltb now b.tnext ≡ true = ground (arith, h) in rw early refl

pub in_time :
    (x : Inputs) (now later : ℕ) (b : Button)
    → b.tnext ≤ now
    → state_machine x now later b ≡ change_phase x now later b.phase (record b { tnext = 0 })
unfolding state_machine
in_time x now later b h = let due : ltb now b.tnext ≡ false = ground (arith, h) in rw due refl

-- In the pause.
paused :
    (t : ℕ) (rounds : List Round) (b : Button)
    → AllBefore t rounds
    → t ≤ b.tnext
    → b.high ≡ true
    → (run (rounds_of rounds) b).high ≡ true
unfolding run step
paused t [] b before wait h = h
paused t (r ∷ rounds) b before wait h =
    ap (λ c. (run (rounds_of rounds) c).high)
      (too_early r.inputs r.now r.later b (omega (arith, before.0, wait)))
    ∙ paused t rounds b before.1 wait h

-- The three rounds that matter.
pub press_round :
    (x : Inputs) (now later : ℕ) (b : Button)
    → b.phase ≡ pressed
    → b.tnext ≤ now
    → x.any_off ≡ false
    → x.want_shutdown ≡ false
    → state_machine x now later b ≡ record b { phase = t0; tnext = now + delay_t0; high = false }
unfolding change_phase set_pwrbtn_to_pch
press_round x now later b phase due awake charged =
    in_time x now later b due ∙ rw (phase, awake, charged) refl

pub pause_round :
    (x : Inputs) (now later : ℕ) (b : Button)
    → b.phase ≡ t0
    → b.tnext ≤ now
    → state_machine x now later b ≡ record b { phase = t1; tnext = now + delay_t1; high = true }
unfolding change_phase set_pwrbtn_to_pch
pause_round x now later b phase due = in_time x now later b due ∙ rw phase refl

pub held_round :
    (x : Inputs) (now later : ℕ) (b : Button)
    → b.phase ≡ t1
    → b.tnext ≤ now
    → x.any_off ≡ false
    → x.want_shutdown ≡ false
    → state_machine x now later b ≡ record b { phase = held; tnext = 0; high = false }
unfolding change_phase set_pwrbtn_to_pch
held_round x now later b phase due awake charged =
    in_time x now later b due ∙ rw (phase, awake, charged) refl

-- In the first pulse.
pulsing :
    (t : ℕ) (rounds : List Round) (b : Button)
    → AllBefore (t + 4 * 1000000) rounds
    → b.phase ≡ t0
    → b.tnext ≡ t + delay_t0
    → b.high ≡ false
    → (run (rounds_of rounds) b).high ≡ any_from (t + delay_t0) rounds
unfolding run step
pulsing t [] b before phase next h = h
pulsing t (r ∷ rounds) b before phase next h = elim (Bool-cases (leb (t + delay_t0) r.now)) [
  | inr early ↦
      ap (λ c. (run (rounds_of rounds) c).high)
        (too_early r.inputs r.now r.later b (ground (arith, early, next)))
      ∙ rw early (pulsing t rounds b before.1 phase next h)
  | inl due ↦
      ap (λ c. (run (rounds_of rounds) c).high)
        (pause_round r.inputs r.now r.later b phase (ground (arith, due, next)))
      ∙ rw due (
          paused (t + 4 * 1000000) rounds
            (record b { phase = t1; tnext = r.now + delay_t1; high = true }) before.1
            (ground (arith, due)) refl)
]

-- After a press with the chipset on, whose first round of the task is at `first`, as long as the
-- rounds that follow come before 4 seconds after that one and nothing else happens, with the
-- chipset on and the battery not too low: the signal is asserted until the first round at 32 ms or
-- later, and then it is not.
pub press-high :
    (first : Round) (rounds : List Round) (b : Button)
    → b.phase ≡ pressed
    → b.tnext ≤ first.now
    → AllBefore (first.now + 4 * 1000000) rounds
    → (run (rounds_of (first ∷ rounds)) b).high ≡ any_from (first.now + delay_t0) rounds
unfolding run step
press-high first rounds b phase due before =
    ap (λ c. (run (rounds_of rounds) c).high)
      (press_round first.inputs first.now first.later b phase due first.awake first.charged)
    ∙ pulsing first.now rounds (record b { phase = t0; tnext = first.now + delay_t0; high = false })
        before refl refl refl
