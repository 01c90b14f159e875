-- ===== src/Timer/Round.antt =====
-- One round of process_timers of common/timer.c.
use chromium_ec.Common.{
  ℕ, ◌^◌, ◌≤◌, ◌<◌, ◌≡◌, ◌≢◌, inl, inr, refl, sym, ap, ◌∙◌, Bool, true, false, ◌==◌, some, none,
  arith, ℕ_discrete,
}
use mathlib.Core.Option
use chromium_ec.Common.Bits.{test_bit}
use chromium_ec.Timer.{Timers, hi, lo, never, set_next, round}
use chromium_ec.Timer.Pass.{Passed, pass-Passed}
use chromium_ec.Timer.Served.{Served, Near, Armed, Due, Passed-Served, event-Served}

-- One round, which is the last unless a timer has become due.
pub record Rounded (now after : ℕ) (t : Timers) (done : Bool) (t' : Timers) : Type 0 where
  pub served : Served now t t'
  pub small : t'.running < 2 ^ 32
  pub armed : done ≡ true → Armed now after t'
  pub more : done ≡ false → Due after t'

-- The clock event after a pass over all the timers.
module _ {now : ℕ} {t : Timers} {next' : ℕ} {t' : Timers}
    (p : Passed t.running now never t next' t') where
  same_deadline : (j : ℕ) → t'.deadline j ≡ t.deadline j
  same_deadline j = ap (λ f. f j) p.deadline_same

  next-least : (j : ℕ) → Near now t' j → lo next' ≤ lo (t'.deadline j)
  next-least j (li, on, same) =
      let before = p.running_left j li in
      let is_on : test_bit t.running j ≡ true = ground (arith, before, on) in
      let later : now < t.deadline j = ground (arith, before, on) in
      omega (
        arith,
        p.next_below j li is_on later (ap hi (sym (same_deadline j)) ∙ same),
        ap lo (same_deadline j),
      )

  set_next-none :
      (after : ℕ)
      → hi next' ≡ 0xffffffff
      → hi now < 0xffffffff
      → ((j : ℕ) → Near now t' j → lo (t'.deadline j) ≡ 0xffffffff)
  set_next-none after last early j near = elim p.next_from [
    | inl e ↦ omega (arith, next-least j near, e)
    | inr (i, li, on, later, same, from) ↦ absurd (omega (arith, last, early, same, ap hi from))
  ]

  -- The timer that `next` comes from.
  source_timer : hi next' ≢ 0xffffffff → (i : ℕ) × Near now t' i × (next' ≡ t'.deadline i)
  source_timer first = elim p.next_from [
    | inl e ↦ absurd (first (omega (arith, e)))
    | inr (i, li, on, later, same, from) ↦ (
      i,
      (li, ground (arith, p.running_left i li, on, later), ap hi (same_deadline i) ∙ same),
      from ∙ sym (same_deadline i),
    )
  ]

  set_next-Rounded :
      (after : ℕ)
      → hi now < 0xffffffff
      → t.running < 2 ^ 32
      → Rounded now after t (set_next next' after t').0 (set_next next' after t').1
  unfolding set_next
  set_next-Rounded after early h = elim (ℕ_discrete (hi next') 0xffffffff) [
    | yes last ↦
        let is_last : (hi next' == 0xffffffff) ≡ true = ground (arith, last) in
        rw is_last (record {
          served = event-Served none 0xffffffff (Passed-Served now never t next' t' p);
          small = p.word h;
          armed = λ d. inr (refl, set_next-none after last early);
          more = λ d. absurd (ground (arith, d));
        })
    | no first ↦
        let not_last : (hi next' == 0xffffffff) ≡ false = ground (arith, first) in
        let (i, near, from) = source_timer first in
        rw not_last (record {
          served = event-Served (some (lo next')) (lo next') (Passed-Served now never t next' t' p);
          small = p.word h;
          armed = λ d. inl (
            i,
            near,
            ap (λ x. some (lo x)) from,
            ground (arith, d, from),
            λ j near_j. omega (arith, next-least j near_j, ap lo from),
          );
          more = λ d. (i, near.0, near.1, ground (arith, d, from));
        })
  ]

pub round-Rounded :
    (now after : ℕ) (t : Timers)
    → hi now < 0xffffffff
    → t.running < 2 ^ 32
    → (done : Bool) × (t' : Timers) × (round now after t ≡ some (done, t'))
      × Rounded now after t done t'
unfolding round
round-Rounded now after t early h =
    let (next', t', e, p) =
      pass-Passed 32 t.running now never t (λ i li ni. absurd (omega arith)) h in
    (
      (set_next next' after t').0,
      (set_next next' after t').1,
      ap (Option.map (λ out. set_next out.0 after out.1)) e,
      set_next-Rounded p after early h,
    )
