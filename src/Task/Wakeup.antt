-- ===== src/Task/Wakeup.antt =====
-- No event is lost by the scheduler of core/cortex-m/task.c, and the highest ready task runs.
use chromium_ec.Common.{
  ℕ, ◌≡◌, ◌<◌, ◌⊎◌, inl, inr, refl, sym, ap, subst, ◌∙◌, Bool, true, false, nonzero, arith,
  Bool-cases, ℕ_discrete,
}
use mathlib.Core.Path.{fun_ext}
use chromium_ec.Common.Bits.{test_bit, test_bit-set}
use chromium_ec.Task.{
  Pc, computing, posting, checking, blocking, update, Kernel, svc_handler, set_event_irq,
  resched_if_needed, set_event, schedule_posted, wait_event, check_events, schedule_blocked,
}
use chromium_ec.Task.Soundness.{
  Step, irq, irq_return, post, posted, wait, check, block, is_checking, IsSound, svc_handler-ready,
  svc_handler-IsHighest, Kept-IsSound, Poster-update,
}

irq-IsSound : (t event : ℕ) (k : Kernel) → t < 32 → IsSound k → IsSound (set_event_irq t event k)
unfolding set_event_irq
irq-IsSound t event k h v = record {
  current_in = v.current_in;
  current_ready = ground (arith, test_bit-set k.tasks_ready t k.current, v.current_ready);
  chosen = λ e. absurd (cc);
  awake = λ i lt e. ground (arith, test_bit-set k.tasks_ready t i, v.awake i);
  pending = λ i lt e. elim (ℕ_discrete t i) [
    | yes same ↦ inl (ground (arith, test_bit-set k.tasks_ready t i, same))
    | no other ↦ elim (v.pending i lt (λ z. e (ground (arith, z, other)))) [
      | inl r ↦ inl (ground (arith, test_bit-set k.tasks_ready t i, r))
      | inr q ↦ inr q
    ]
  ];
}

post-IsSound :
    (t event : ℕ) (k : Kernel)
    → t < 32
    → k.pc k.current ≡ computing
    → IsSound k
    → IsSound (set_event t event k)
unfolding set_event
post-IsSound t event k h pc v =
    Kept-IsSound k (set_event t event k)
      (record {
        ready_same = refl;
        current_same = refl;
        need_same = refl;
        pc_same = λ i ne. ground (arith, ne);
      })
      (λ i lt e. elim (ℕ_discrete t i) [
        | yes same ↦ inr (k.current, v.current_in, ground (arith, same))
        | no other ↦ elim (v.pending i lt (λ z. e (ground (arith, z, other)))) [
          | inl r ↦ inl r
          | inr q ↦ inr (Poster-update k (posting t) i (λ z. cc) q)
        ]
      ])
      v

-- The service call, from a task that then stands at `pc`.
svc_handler-IsSound :
    (desched : Bool) (resched : ℕ) (pc : Pc) (k : Kernel)
    → resched < 32
    → (desched ≡ true → is_checking pc ≡ true)
    → ((i : ℕ) → k.pc k.current ≡ posting i → (i ≡ resched) ⊎ (pc ≡ posting i))
    → IsSound k
    → IsSound (svc_handler desched resched (record k { pc = update k.pc k.current pc }))
svc_handler-IsSound desched resched pc k r d p v =
    let k1 = record k { pc = update k.pc k.current pc } in
    let k' = svc_handler desched resched k1 in
    let top = svc_handler-IsHighest desched resched k1 v.current_in r in
    let ready = svc_handler-ready desched resched k1 in
    record {
      current_in = top.below;
      current_ready = top.bit;
      chosen = λ e. top;
      awake = λ i lt e.
          unfold svc_handler in
          ground (
            arith,
            ready i v.current_in lt,
            e,
            d,
            v.awake i lt,
            v.current_ready,
            ap (test_bit k.tasks_ready) {x = k.current} {y = i},
          );
      pending = λ i lt e. elim (v.pending i lt (unfold svc_handler in e)) [
        | inl q ↦ inl (
            unfold svc_handler in
            ground (arith, ready i v.current_in lt, q, e, ap k.events {x = k.current} {y = i}))
        | inr (j, hj, q) ↦ elim (ℕ_discrete j k.current) [
          | yes same ↦ elim (p i (ap k.pc (sym same) ∙ q)) [
            | inl target ↦ inl (ground (arith, ready i v.current_in lt, target))
            | inr still ↦ inr (j, hj, unfold svc_handler in ground (arith, same, still))
          ]
          | no other ↦ inr (j, hj, unfold svc_handler in ground (arith, q, other))
        ]
      ];
    }

wait-IsSound : (k : Kernel) → k.pc k.current ≡ computing → IsSound k → IsSound (wait_event k)
unfolding wait_event
wait-IsSound k h v =
    Kept-IsSound k (wait_event k)
      (record {
        ready_same = refl;
        current_same = refl;
        need_same = refl;
        pc_same = λ i ne. ground (arith, ne);
      })
      (λ i lt e. elim (v.pending i lt e) [
        | inl r ↦ inl r
        | inr q ↦ inr (Poster-update k (checking 0) i (λ z. cc) q)
      ])
      v

check-IsSound :
    (r : ℕ) (k : Kernel) → k.pc k.current ≡ checking r → IsSound k → IsSound (check_events r k)
unfolding check_events
check-IsSound r k h v = elim (Bool-cases (nonzero (k.events k.current))) [
  | inl some ↦ rw some (
      Kept-IsSound k
        (record k { events = update k.events k.current 0; pc = update k.pc k.current computing })
        (record {
          ready_same = refl;
          current_same = refl;
          need_same = refl;
          pc_same = λ i ne. ground (arith, ne);
        })
        (λ i lt e. elim (v.pending i lt (λ z. e (ground (arith, z)))) [
          | inl q ↦ inl q
          | inr q ↦ inr (Poster-update k computing i (λ z. cc) q)
        ])
        v)
  | inr none ↦ rw none (
      Kept-IsSound k (record k { pc = update k.pc k.current (blocking r) })
        (record {
          ready_same = refl;
          current_same = refl;
          need_same = refl;
          pc_same = λ i ne. ground (arith, ne);
        })
        (λ i lt e. elim (v.pending i lt e) [
          | inl q ↦ inl q
          | inr q ↦ inr (Poster-update k (blocking r) i (λ z. cc) q)
        ])
        v)
]

-- The end of an interrupt is a service call that moves nobody.
irq_return-IsSound : (k : Kernel) → IsSound k → IsSound (resched_if_needed k)
unfolding resched_if_needed
irq_return-IsSound k v =
    let same : update k.pc k.current (k.pc k.current) ≡ k.pc =
      fun_ext (λ j. ground (arith, ap k.pc {x = k.current} {y = j})) in
    let moved =
      svc_handler-IsSound false 0 (k.pc k.current) k (omega arith) (λ z. absurd (cc)) (λ i q. inr q)
        v in
    elim (Bool-cases k.need_resched) [
      | inl due ↦
          simp due (subst (λ pc. IsSound (svc_handler false 0 (record k { pc = pc }))) same moved)
      | inr calm ↦ simp calm v
    ]

Step-IsSound : {k k' : Kernel} → Step k k' → IsSound k → IsSound k'
Step-IsSound {k} (irq t event h e) v = subst IsSound (sym e) (irq-IsSound t event k h v)
Step-IsSound {k} (irq_return e) v = subst IsSound (sym e) (irq_return-IsSound k v)
Step-IsSound {k} (post t event h c e) v = subst IsSound (sym e) (post-IsSound t event k h c v)
Step-IsSound {k} (posted t h c e) v = subst IsSound (sym e) (
    unfold schedule_posted in
    svc_handler-IsSound false t computing k h (λ z. cc) (λ i q. inl (ground (arith, q, c))) v)
Step-IsSound {k} (wait c e) v = subst IsSound (sym e) (wait-IsSound k c v)
Step-IsSound {k} (check r c e) v = subst IsSound (sym e) (check-IsSound r k c v)
Step-IsSound {k} (block r h c e) v = subst IsSound (sym e) (
    unfold schedule_blocked in
    svc_handler-IsSound true r (checking 0) k h (λ z. refl) (λ i q. absurd (cc)) v)

-- What steps lead to.
pub data Reach (k : Kernel) : Kernel → Type 0 where
  here : Reach k k
  next : {k' k'' : Kernel} → Reach k k' → Step k' k'' → Reach k k''

-- From a sound state, such as the first one, in which every task is ready and none has an event, no
-- interleaving of tasks and interrupts loses an event or runs the wrong task: a task with an event
-- pending is ready, or a task that is itself ready is about to make it so; and whenever no
-- rescheduling is due, the running task is the ready task of the highest number.
pub Reach-IsSound : {k k' : Kernel} → Reach k k' → IsSound k → IsSound k'
Reach-IsSound here v = v
Reach-IsSound (next r s) v = Step-IsSound s (Reach-IsSound r v)
