-- ===== src/Timer/Pass.antt =====
-- One pass over the running timers of common/timer.c.
use chromium_ec.Common.{
  ℕ, zero, suc, ◌^◌, ◌≤◌, ◌<◌, ◌≡◌, ◌⊎◌, inl, inr, refl, ap, ◌∙◌, true, false, not, ◌&&◌, ltb, leb,
  ◌==◌, nonzero, some, if◌then◌else◌, arith, Bool-cases, ℕ_discrete,
}
use chromium_ec.Common.Bits.{
  test_bit, test_bit-clear, test_bit-zero, bit_and-lt, complement, zero_of_test_bit,
}
use chromium_ec.HostEvent.{atomic_clear, atomic_or}
use chromium_ec.Task.{highest}
use chromium_ec.Task.Highest.{IsHighest, highest-IsHighest}
use chromium_ec.Timer.{Timers, event_timer, hi, lo, expire_timer, sooner, pass}

-- What a pass over the timers in `check` makes of the timers `t` and of `next`.
pub record Passed (check now next : ℕ) (t : Timers) (next' : ℕ) (t' : Timers) : Type 0 where
  pub deadline_same : t'.deadline ≡ t.deadline
  pub word : t.running < 2 ^ 32 → t'.running < 2 ^ 32
  pub running_left :
      (i : ℕ)
      → i < 32
      → test_bit t'.running i
        ≡ (test_bit t.running i && not (test_bit check i && leb (t.deadline i) now))
  pub woken :
      (i : ℕ)
      → i < 32
      → t'.events i ≡ (
          if test_bit check i && leb (t.deadline i) now
          then atomic_or (t.events i) event_timer
          else t.events i)
  pub next_least : lo next' ≤ lo next
  pub next_below :
      (i : ℕ)
      → i < 32
      → test_bit check i ≡ true
      → now < t.deadline i
      → hi (t.deadline i) ≡ hi now
      → lo next' ≤ lo (t.deadline i)
  pub next_from :
      (next' ≡ next)
      ⊎ ((i : ℕ) × (i < 32)
          × (test_bit check i ≡ true)
          × (now < t.deadline i)
          × (hi (t.deadline i) ≡ hi now)
          × (next' ≡ t.deadline i))

-- Some bit of a word is set, or none is.
any_bit :
    (n x : ℕ)
    → ((i : ℕ) × (i < n) × (test_bit x i ≡ true)) ⊎ ((i : ℕ) → i < n → test_bit x i ≡ false)
any_bit zero x = inr (λ i h. absurd (omega arith))
any_bit (suc n) x = elim (Bool-cases (test_bit x n)) [
  | inl set ↦ inl (n, omega arith, set)
  | inr clear ↦ elim (any_bit n x) [
    | inl (i, h, e) ↦ inl (i, omega arith, e)
    | inr none_set ↦ inr (λ i h. ground (arith, clear, none_set i))
  ]
]

highest-nonzero : (x : ℕ) → x < 2 ^ 32 → nonzero x ≡ true → IsHighest 32 x (highest 32 x)
highest-nonzero x h e = elim (any_bit 32 x) [
  | inl (i, lt, set) ↦ highest-IsHighest 32 x i lt set
  | inr none_set ↦ absurd (ground (arith, zero_of_test_bit 32 x h none_set, e))
]

-- The first timer that is looked at, and the rest.
expired-Passed :
    (check now next : ℕ) (t : Timers) (next' : ℕ) (t' : Timers) (h : ℕ)
    → h < 32
    → test_bit check h ≡ true
    → t.deadline h ≤ now
    → Passed (atomic_clear check (2 ^ h)) now next (expire_timer h t) next' t'
    → Passed check now next t next' t'
unfolding expire_timer
expired-Passed check now next t next' t' h lt set due p = record {
  deadline_same = p.deadline_same;
  word = λ b. p.word (bit_and-lt 32 t.running (complement 32 (2 ^ h)) b);
  running_left = λ i hi. ground (
    arith,
    p.running_left i hi,
    test_bit-clear 32 check h i lt hi,
    test_bit-clear 32 t.running h i lt hi,
    set,
    due,
    ap t.deadline {x = h} {y = i},
    ap (test_bit check) {x = h} {y = i},
  );
  woken = λ i hi. elim (ℕ_discrete h i) [
    | yes same ↦ ground (
      arith,
      p.woken i hi,
      test_bit-clear 32 check h i lt hi,
      set,
      due,
      same,
      ap t.deadline {x = h} {y = i},
      ap (test_bit check) {x = h} {y = i},
      ap (λ j. atomic_or (t.events j) event_timer) {x = h} {y = i},
    )
    | no other ↦ ground (arith, p.woken i hi, test_bit-clear 32 check h i lt hi, other)
  ];
  next_least = p.next_least;
  next_below = λ i hi e later same.
      p.next_below i hi
        (ground (arith, test_bit-clear 32 check h i lt hi, e, ap t.deadline {x = h} {y = i})) later
        same;
  next_from = elim p.next_from [
    | inl e ↦ inl e
    | inr (i, hi, e, later, same, from) ↦
        inr (i, hi, ground (arith, test_bit-clear 32 check h i lt hi, e), later, same, from)
  ];
}

sooner-due : (now next d : ℕ) → leb d now ≡ true → sooner now next d ≡ next
unfolding sooner
sooner-due now next d due = rw due refl

-- `next` after a timer that is not due.
sooner-later :
    (now next d : ℕ)
    → now < d
    → (lo (sooner now next d) ≤ lo next)
      × (hi d ≡ hi now → lo (sooner now next d) ≤ lo d)
      × ((sooner now next d ≡ next) ⊎ ((hi d ≡ hi now) × (sooner now next d ≡ d)))
unfolding sooner
sooner-later now next d later = elim (Bool-cases ((hi d == hi now) && ltb (lo d) (lo next))) [
  | inl nearer ↦
      let after : leb d now ≡ false = ground (arith, later) in
      rw (after, nearer)
        (ground (arith, nearer), λ e. omega arith, inr (ground (arith, nearer), refl))
  | inr not_nearer ↦
      let after : leb d now ≡ false = ground (arith, later) in
      rw (after, not_nearer) (omega arith, λ e. ground (arith, not_nearer, e), inl refl)
]

waiting-Passed :
    (check now next : ℕ) (t : Timers) (next' : ℕ) (t' : Timers) (h : ℕ)
    → h < 32
    → test_bit check h ≡ true
    → now < t.deadline h
    → Passed (atomic_clear check (2 ^ h)) now (sooner now next (t.deadline h)) t next' t'
    → Passed check now next t next' t'
waiting-Passed check now next t next' t' h lt set later p =
    let (least, below, from) = sooner-later now next (t.deadline h) later in
    record {
      deadline_same = p.deadline_same;
      word = p.word;
      running_left = λ i li. ground (
        arith,
        p.running_left i li,
        test_bit-clear 32 check h i lt li,
        later,
        ap t.deadline {x = h} {y = i},
      );
      woken = λ i li. ground (
        arith,
        p.woken i li,
        test_bit-clear 32 check h i lt li,
        later,
        ap t.deadline {x = h} {y = i},
      );
      next_least = omega (arith, least, p.next_least);
      next_below = λ i li e after same. elim (ℕ_discrete h i) [
        | yes here ↦
            let moved : t.deadline h ≡ t.deadline i = ap t.deadline here in
            omega (arith, below (ap hi moved ∙ same), ap lo moved, p.next_least)
        | no other ↦
            p.next_below i li (ground (arith, test_bit-clear 32 check h i lt li, e, other)) after
              same
      ];
      next_from = elim p.next_from [
        | inl e ↦ elim from [
          | inl kept ↦ inl (e ∙ kept)
          | inr (same, taken) ↦ inr (h, lt, set, later, same, e ∙ taken)
        ]
        | inr (i, li, e, after, same, from_i) ↦
            inr (i, li, ground (arith, test_bit-clear 32 check h i lt li, e), after, same, from_i)
      ];
    }

abbrev pub Result : ℕ → ℕ → ℕ → ℕ → Timers → Type 0
Result fuel check now next t =
    (next' : ℕ) × (t' : Timers) × (pass fuel check now next t ≡ some (next', t'))
    × Passed check now next t next' t'

pass-empty :
    (fuel check now next : ℕ) (t : Timers)
    → nonzero check ≡ false
    → Result (suc fuel) check now next t
unfolding pass
pass-empty fuel check now next t empty =
    let zeros : (i : ℕ) → test_bit check i ≡ false =
      λ i. ap (λ x. test_bit x i) {x = check} {y = 0} (ground (arith, empty)) ∙ test_bit-zero i in
    (
      next,
      t,
      rw empty refl,
      record {
        deadline_same = refl;
        word = λ b. b;
        running_left = λ i li. ground (arith, zeros i);
        woken = λ i li. ground (arith, zeros i);
        next_least = omega arith;
        next_below = λ i li e. absurd (ground (arith, zeros i, e));
        next_from = inl refl;
      },
    )

-- A pass ends, with fuel for one round more than the bits of the timers looked at.
pub pass-Passed :
    (n check now next : ℕ) (t : Timers)
    → ((i : ℕ) → i < 32 → n ≤ i → test_bit check i ≡ false)
    → check < 2 ^ 32
    → Result (suc n) check now next t
unfolding pass
pass-Passed zero check now next t none_above h =
    let all_clear = zero_of_test_bit 32 check h (λ i li. none_above i li (omega arith)) in
    pass-empty zero check now next t (ground (arith, all_clear))
pass-Passed (suc n) check now next t none_above h = elim (Bool-cases (nonzero check)) [
  | inr empty ↦ pass-empty (suc n) check now next t empty
  | inl some_left ↦
      let top = highest-nonzero check h some_left in
      let tskid = highest 32 check in
      let below : tskid < suc n = ground (arith, none_above tskid top.below, top.bit) in
      let bits : (i : ℕ) → i < 32 → n ≤ i → test_bit (atomic_clear check (2 ^ tskid)) i ≡ false =
        λ i li ni.
          ground (arith, test_bit-clear 32 check tskid i top.below li, top.none_above i, below) in
      let small = bit_and-lt 32 check (complement 32 (2 ^ tskid)) h in
      elim (Bool-cases (leb (t.deadline tskid) now)) [
        | inl due ↦
            let (next', t', e, p) =
              pass-Passed n (atomic_clear check (2 ^ tskid)) now next (expire_timer tskid t) bits
                small in
            (
              next',
              t',
              rw (some_left, due)
                  (ap
                      (λ x.
                        pass (suc n) (atomic_clear check (2 ^ tskid)) now x (expire_timer tskid t))
                      (sooner-due now next (t.deadline tskid) due)
                    ∙ e),
              expired-Passed check now next t next' t' tskid top.below top.bit (ground (arith, due))
                  p,
            )
        | inr waits ↦
            let (next', t', e, p) =
              pass-Passed n (atomic_clear check (2 ^ tskid)) now
                (sooner now next (t.deadline tskid)) t bits small in
            (
              next',
              t',
              rw (some_left, waits) e,
              waiting-Passed check now next t next' t' tskid top.below top.bit
                  (ground (arith, waits)) p,
            )
      ]
]
