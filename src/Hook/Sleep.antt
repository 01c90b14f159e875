-- ===== src/Hook/Sleep.antt =====
-- The sleep of the hook task of common/hooks.c.
use chromium_ec.Common.{
  ℕ, zero, suc, ◌+◌, ◌-◌, ◌≡◌, ◌≤◌, ◌<◌, refl, ap, ◌∙◌, ◌⊎◌, inl, inr, false, List, [], ◌∷◌, Option,
  some, none, arith, ltb, if◌then◌else◌, get_or, set, length, Bool-cases, ℕ_discrete,
}
use chromium_ec.Hook.{
  Deferred, Interrupt, find_routine, call_found, call_deferred, serve, next_from, sleep, nearer,
}

get_or-set_zero :
    (xs : List ℕ) (i j : ℕ)
    → (get_or (set xs i 0) j 0 ≡ 0) ⊎ (get_or (set xs i 0) j 0 ≡ get_or xs j 0)
get_or-set_zero [] i j = inl refl
get_or-set_zero (x ∷ xs) zero zero = inl refl
get_or-set_zero (x ∷ xs) zero (suc j) = inr refl
get_or-set_zero (x ∷ xs) (suc i) zero = inr refl
get_or-set_zero (x ∷ xs) (suc i) (suc j) = get_or-set_zero xs i j

-- What happened since `h` asked for no new call: alarms were only cancelled.
record Quieter (h h' : Deferred) : Type 0 where
  before : h.new_call ≡ false
  kept :
      (j : ℕ)
      → (get_or h'.defer_until j 0 ≡ 0) ⊎ (get_or h'.defer_until j 0 ≡ get_or h.defer_until j 0)

Quieter-trans : {h h' h'' : Deferred} → Quieter h h' → Quieter h' h'' → Quieter h h''
Quieter-trans p q = record { before = p.before; kept = λ j. ground (arith, p.kept j, q.kept j) }

call_found-Quieter :
    (i us : Option ℕ) (now : ℕ) (h : Deferred)
    → (call_found i us now h).1.new_call ≡ false
    → Quieter h (call_found i us now h).1
call_found-Quieter none us now h e = record { before = e; kept = λ j. inr refl }
call_found-Quieter (some i) none now h e = record {
  before = e;
  kept = λ j. get_or-set_zero h.defer_until i j;
}
call_found-Quieter (some i) (some us) now h e = absurd (cc)

serve-Quieter :
    (cs : List Interrupt) (h : Deferred) → (serve cs h).new_call ≡ false → Quieter h (serve cs h)
unfolding serve call_deferred
serve-Quieter [] h e = record { before = e; kept = λ j. inr refl }
serve-Quieter (c ∷ cs) h e =
    let rest = serve-Quieter cs (call_deferred c.routine c.us c.now h).1 e in
    Quieter-trans (call_found-Quieter (find_routine c.routine h.routines) c.us c.now h rest.before)
      rest

-- From index `i` on, no routine is armed for a time before `t + next`.
record Sleeps (t next i count : ℕ) (h : Deferred) : Type 0 where
  late :
      (j : ℕ)
      → i ≤ j
      → j < i + count
      → (get_or h.defer_until j 0 ≡ 0) ⊎ (t + next ≤ get_or h.defer_until j 0)

record Looked (t next i count : ℕ) (h : Deferred) (out : ℕ × Deferred) : Type 0 where
  quieter : Quieter h out.1
  sooner : out.0 ≤ next
  late : Sleeps t out.0 i count out.1

next_from-Looked :
    (irqs : ℕ → List Interrupt) (t count i next : ℕ) (h : Deferred)
    → (next_from irqs t count i next h).1.new_call ≡ false
    → 0 < (next_from irqs t count i next h).0
    → Looked t next i count h (next_from irqs t count i next h)
unfolding next_from
next_from-Looked irqs t zero i next h e p = record {
  quieter = record { before = e; kept = λ j. inr refl };
  sooner = omega arith;
  late = record { late = λ j lo hi. absurd (omega arith) };
}
next_from-Looked irqs t (suc count) i next h e p = elim (Bool-cases (ltb 0 next)) [
  | inl some_time ↦
      let h' = serve (irqs i) h in
      let until = get_or h'.defer_until i 0 in
      let awake : 0 < (next_from irqs t count (i + 1) (nearer t next until) h').0 =
        rw some_time at p in
      let rest =
        next_from-Looked irqs t count (i + 1) (nearer t next until) h' (rw some_time at e) awake in
      let served = serve-Quieter (irqs i) h rest.quieter.before in
      rw some_time (record {
        quieter = Quieter-trans served rest.quieter;
        sooner = ground (arith, rest.sooner);
        late = record {
          late = λ j lo hi. elim (ℕ_discrete j i) [
            | yes same ↦ rw same (ground (arith, rest.quieter.kept i, rest.sooner, awake))
            | no other ↦ rest.late.late j (omega (arith, other, lo)) (omega (arith, hi))
          ];
        };
      })
  | inr no_time ↦ absurd (ground (arith, no_time, p))
]

-- What holds of the hook state when the task goes to sleep at `t` for `us`.
pub record IsAsleep (t us last_tick interval : ℕ) (h : Deferred) : Type 0 where
  pub some_time : 0 < us
  pub before_tick : t + us ≤ last_tick + interval
  pub before_calls :
      (j : ℕ)
      → j < length h.routines
      → (get_or h.defer_until j 0 ≡ 0) ⊎ (t + us ≤ get_or h.defer_until j 0)

routines-call_found :
    (i us : Option ℕ) (now : ℕ) (h : Deferred) → (call_found i us now h).1.routines ≡ h.routines
routines-call_found none us now h = refl
routines-call_found (some i) none now h = refl
routines-call_found (some i) (some us) now h = refl

routines-serve : (cs : List Interrupt) (h : Deferred) → (serve cs h).routines ≡ h.routines
unfolding serve call_deferred
routines-serve [] h = refl
routines-serve (c ∷ cs) h =
    routines-serve cs (call_deferred c.routine c.us c.now h).1
    ∙ routines-call_found (find_routine c.routine h.routines) c.us c.now h

routines-next_from :
    (irqs : ℕ → List Interrupt) (t count i next : ℕ) (h : Deferred)
    → (next_from irqs t count i next h).1.routines ≡ h.routines
unfolding next_from
routines-next_from irqs t zero i next h = refl
routines-next_from irqs t (suc count) i next h = elim (Bool-cases (ltb 0 next)) [
  | inl some_time ↦
      let h' = serve (irqs i) h in
      rw some_time (
        routines-next_from irqs t count (i + 1) (nearer t next (get_or h'.defer_until i 0)) h'
        ∙ routines-serve (irqs i) h)
  | inr no_time ↦ rw no_time refl
]

-- When the hook task goes to sleep, it wakes before the next tick is due, and before or when every
-- deferred call is due, whatever calls interrupts ask for or cancel while it works out the time: a
-- call that comes too late to be counted keeps the task awake for another round.
pub sleep-IsAsleep :
    (irqs : ℕ → List Interrupt) (interval last_tick t us : ℕ) (h : Deferred)
    → (sleep irqs interval last_tick t h).0 ≡ some us
    → IsAsleep t us last_tick interval (sleep irqs interval last_tick t h).1
unfolding sleep
sleep-IsAsleep irqs interval last_tick t us h e =
    let tick : ℕ = if ltb t (last_tick + interval) then last_tick + interval - t else 0 in
    let h0 = record h { new_call = false } in
    let count = length h.routines in
    let out = next_from irqs t count 0 tick h0 in
    let end = serve (irqs count) out.1 in
    let slept : (0 < out.0) × (end.new_call ≡ false) × (out.0 ≡ us) = ground (arith, e) in
    let served = serve-Quieter (irqs count) out.1 slept.1 in
    let looked = next_from-Looked irqs t count 0 tick h0 served.before slept.0 in
    let same : length end.routines ≡ count =
      ap length (routines-serve (irqs count) out.1 ∙ routines-next_from irqs t count 0 tick h0) in
    record {
      some_time = omega (arith, slept.0, slept.2);
      before_tick = ground (arith, slept.0, slept.2, looked.sooner);
      before_calls = λ j lt. ground (
        arith,
        slept.2,
        served.kept j,
        looked.late.late j (omega arith) (omega (arith, lt, same)),
      );
    }
