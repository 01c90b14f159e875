-- ===== src/Timer/Service.antt =====
-- process_timers of common/timer.c ends, and serves the timers that are due.
use chromium_ec.Common.{
  ℕ, zero, suc, ◌+◌, ◌-◌, ◌*◌, ◌%◌, ◌^◌, ◌≤◌, ◌<◌, ◌≡◌, inl, inr, ap, ◌∙◌, subst, Bool, some,
  if◌then◌else◌, arith, Bool-cases,
}
use native.Mathlib.Nat.{le_refl, le_trans}
use chromium_ec.Common.Bits.{test_bit-zero}
use chromium_ec.Timer.{Timers, hi, after_round, process, process_timers}
use chromium_ec.Timer.Count.{count, count-le, count-lt}
use chromium_ec.Timer.Served.{Served, Armed, Due, Served-Served}
use chromium_ec.Timer.Round.{round-Rounded}

-- The loop from a round at which some timer is due: each such round leaves fewer timers running.
module _ (clock : ℕ → ℕ) (onward : (k : ℕ) → clock k ≤ clock (suc k))
    (early : (k : ℕ) → hi (clock k) < 0xffffffff) where
  abbrev pub Ends : ℕ → ℕ → Timers → Type 0
  Ends fuel k t =
      (last : ℕ) × (t' : Timers) × (process fuel clock k t ≡ some t')
      × (k ≤ last)
      × Served (clock (2 * last)) t t'
      × Armed (clock (2 * last)) (clock (2 * last + 1)) t'

  onward_by : (i n : ℕ) → clock i ≤ clock (n + i)
  onward_by i zero =
      let start : i ≡ 0 + i = omega arith in
      subst (λ x. clock i ≤ clock x) start (le_refl (clock i))
  onward_by i (suc n) =
      let next : suc (n + i) ≡ suc n + i = omega arith in
      le_trans (onward_by i n) (subst (λ x. clock (n + i) ≤ clock x) next (onward (n + i)))

  later : (i j : ℕ) → i ≤ j → clock i ≤ clock j
  later i j h =
      let there : j - i + i ≡ j = omega arith in
      subst (λ x. clock i ≤ clock x) there (onward_by i (j - i))

  -- A round, and the rounds after it.
  round-Ends :
      (fuel k : ℕ) (t : Timers)
      → t.running < 2 ^ 32
      → ((t' : Timers)
          → t'.running < 2 ^ 32
          → Served (clock (2 * k)) t t'
          → Due (clock (2 * (k + 1))) t'
          → Ends fuel (k + 1) t')
      → Ends (suc fuel) k t
  unfolding process after_round
  round-Ends fuel k t h again =
      let (done, t', e, r) =
        round-Rounded (clock (2 * k)) (clock (2 * k + 1)) t (early (2 * k)) h in
      let run = ap (λ x. after_round x (process fuel clock (k + 1))) e in
      elim (Bool-cases done) [
        | inl last ↦ (
          k,
          t',
          run ∙ ap (λ d. after_round (some (d, t')) (process fuel clock (k + 1))) last,
          omega arith,
          r.served,
          r.armed last,
        )
        | inr more ↦
            let (i, li, on, due) = r.more more in
            let (last, t'', e', h', s, a) =
              again t' r.small r.served
                (i, li, on, le_trans due (later (2 * k + 1) (2 * (k + 1)) (omega arith))) in
            (
              last,
              t'',
              run ∙ ap (λ d. after_round (some (d, t')) (process fuel clock (k + 1))) more ∙ e',
              omega arith,
              Served-Served (clock (2 * k)) (clock (2 * last)) t t' t''
                  (later (2 * k) (2 * last) (omega (arith, h'))) r.served s,
              a,
            )
      ]

  -- A round that a due timer starts leaves fewer timers running.
  process-Ends :
      (fuel k : ℕ) (t : Timers)
      → t.running < 2 ^ 32
      → count 32 t.running ≤ fuel
      → Due (clock (2 * k)) t
      → Ends fuel k t
  process-Ends zero k t h few (i, li, on, due) = absurd (
      omega (
        arith,
        few,
        count-lt 32 t.running 0 i (λ j lj set. absurd (ground (arith, set, test_bit-zero j))) li on
            (test_bit-zero i),
      ))
  process-Ends (suc fuel) k t h few (i, li, on, due) = round-Ends fuel k t h (λ t' small s due'.
      process-Ends fuel (k + 1) t' small
        (omega (
          arith,
          few,
          count-lt 32 t.running t'.running i (λ j lj set. ground (arith, s.running_left j lj, set))
              li on (ground (arith, s.running_left i li, on, due)),
        ))
        due')

-- On a clock that does not go back and is not in its last 2^32 microseconds, process_timers ends,
-- in at most 33 rounds, whichever timers run: every running timer whose deadline the last reading
-- for a pass has reached has run out and its task has the timer event; every other timer that ran
-- runs on, and the events of every other task are as they were; and the clock hardware has an event
-- at the first deadline left in these 2^32 microseconds, which the last reading has not reached, or
-- has none and there is no such deadline but the last microsecond of them.
pub process_timers-Served :
    (clock : ℕ → ℕ) (overflow : Bool) (t : Timers)
    → ((k : ℕ) → clock k ≤ clock (suc k))
    → ((k : ℕ) → hi (clock k) < 0xffffffff)
    → t.running < 2 ^ 32
    → (last : ℕ) × (t' : Timers) × (process_timers 33 clock overflow t ≡ some t')
      × Served (clock (2 * last)) t t'
      × Armed (clock (2 * last)) (clock (2 * last + 1)) t'
unfolding process_timers
process_timers-Served clock overflow t onward early h =
    let start = record t {
      clksrc_high = if overflow then (t.clksrc_high + 1) % 2 ^ 32 else t.clksrc_high;
    } in
    let (last, t', e, _, s, a) = round-Ends clock onward early 32 0 start h (λ t1 small s1 due1.
      process-Ends clock onward early 32 1 t1 small (count-le 32 t1.running) due1) in
    (
      last,
      t',
      e,
      record { deadline_same = s.deadline_same; running_left = s.running_left; woken = s.woken },
      a,
    )
