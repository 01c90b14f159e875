-- ===== src/Task/Soundness.antt =====
-- The steps of core/cortex-m/task.c, and what every step keeps.
use chromium_ec.Common.{
  ℕ, ◌^◌, ◌≡◌, ◌≢◌, ◌<◌, ◌⊎◌, inl, inr, sym, ap, ap₂, subst, ◌∙◌, Bool, true, false, not, ◌&&◌,
  ◌||◌, ◌==◌, nonzero, arith, Bool-cases, ℕ_discrete,
}
use chromium_ec.Common.Bits.{test_bit, test_bit-clear, test_bit-set}
use chromium_ec.HostEvent.{atomic_clear}
use chromium_ec.Task.{
  Pc, computing, posting, checking, blocking, update, Kernel, svc_handler, set_event_irq,
  resched_if_needed, set_event, schedule_posted, wait_event, check_events, schedule_blocked,
}
use chromium_ec.Task.Highest.{IsHighest, highest-IsHighest}

-- One step of the current task or of an interrupt. No task of the firmware passes a `wait` of 1 to
-- task_set_event; only tests do.
pub data Step (k k' : Kernel) : Type 0 where
  irq : (t event : ℕ) → t < 32 → k' ≡ set_event_irq t event k → Step k k'
  irq_return : k' ≡ resched_if_needed k → Step k k'
  post : (t event : ℕ) → t < 32 → k.pc k.current ≡ computing → k' ≡ set_event t event k → Step k k'
  posted : (t : ℕ) → t < 32 → k.pc k.current ≡ posting t → k' ≡ schedule_posted t k → Step k k'
  wait : k.pc k.current ≡ computing → k' ≡ wait_event k → Step k k'
  check : (r : ℕ) → k.pc k.current ≡ checking r → k' ≡ check_events r k → Step k k'
  block : (r : ℕ) → r < 32 → k.pc k.current ≡ blocking r → k' ≡ schedule_blocked r k → Step k k'

-- A task that is about to make `i` ready.
abbrev pub Poster : Kernel → ℕ → Type 0
Poster k i = (j : ℕ) × (j < 32) × (k.pc j ≡ posting i)

-- Only a task that has yet to read its events sleeps.
abbrev pub is_checking : Pc → Bool
is_checking (checking r) = true
is_checking computing = false
is_checking (posting t) = false
is_checking (blocking r) = false

pub record IsSound (k : Kernel) : Type 0 where
  pub current_in : k.current < 32
  pub current_ready : test_bit k.tasks_ready k.current ≡ true
  pub chosen : k.need_resched ≡ false → IsHighest 32 k.tasks_ready k.current
  pub awake : (i : ℕ) → i < 32 → is_checking (k.pc i) ≡ false → test_bit k.tasks_ready i ≡ true
  pub pending : (i : ℕ) → i < 32 → k.events i ≢ 0 → (test_bit k.tasks_ready i ≡ true) ⊎ Poster k i

pub svc_handler-ready :
    (desched : Bool) (resched : ℕ) (k : Kernel) (j : ℕ)
    → k.current < 32
    → j < 32
    → test_bit (svc_handler desched resched k).tasks_ready j ≡ (
        (test_bit k.tasks_ready j
          && not ((desched && not (nonzero (k.events k.current))) && (k.current == j)))
        || (resched == j))
unfolding svc_handler
svc_handler-ready desched resched k j c h =
    elim (Bool-cases (desched && not (nonzero (k.events k.current)))) [
      | inl off ↦ rw off (
          test_bit-set (atomic_clear k.tasks_ready (2 ^ k.current)) resched j
          ∙ ap (λ b. b || (resched == j)) (test_bit-clear 32 k.tasks_ready k.current j c h))
      | inr stay ↦ rw stay (test_bit-set k.tasks_ready resched j ∙ ground arith)
    ]

-- After a choice the running task is the highest that is ready.
pub svc_handler-IsHighest :
    (desched : Bool) (resched : ℕ) (k : Kernel)
    → k.current < 32
    → resched < 32
    → IsHighest 32
        (svc_handler desched resched k).tasks_ready
        (svc_handler desched resched k).current
svc_handler-IsHighest desched resched k c r =
    unfold svc_handler in
    highest-IsHighest 32 (svc_handler desched resched k).tasks_ready resched r
      (svc_handler-ready desched resched k resched c r ∙ ground arith)

-- A change of the events and of where the current task stands, with no task made unready.
pub record Kept (k k' : Kernel) : Type 0 where
  pub ready_same : k'.tasks_ready ≡ k.tasks_ready
  pub current_same : k'.current ≡ k.current
  pub need_same : k'.need_resched ≡ k.need_resched
  pub pc_same : (i : ℕ) → k.current ≢ i → k'.pc i ≡ k.pc i

pub Kept-IsSound :
    (k k' : Kernel)
    → Kept k k'
    → ((i : ℕ) → i < 32 → k'.events i ≢ 0 → (test_bit k.tasks_ready i ≡ true) ⊎ Poster k' i)
    → IsSound k
    → IsSound k'
Kept-IsSound k k' c p v = record {
  current_in = omega (arith, v.current_in, c.current_same);
  current_ready = ap₂ test_bit c.ready_same c.current_same ∙ v.current_ready;
  chosen = λ e.
      subst (λ x. x) (λ i. IsHighest 32 (sym c.ready_same i) (sym c.current_same i))
        (v.chosen (sym c.need_same ∙ e));
  awake = λ i lt e. elim (ℕ_discrete k.current i) [
    | yes same ↦ ap₂ test_bit c.ready_same (sym same) ∙ v.current_ready
    | no other ↦
        ap (λ x. test_bit x i) c.ready_same
        ∙ v.awake i lt (ap is_checking (sym (c.pc_same i other)) ∙ e)
  ];
  pending = λ i lt e. elim (p i lt e) [
    | inl r ↦ inl (ap (λ x. test_bit x i) c.ready_same ∙ r)
    | inr q ↦ inr q
  ];
}

-- A poster that is not the current task goes on posting.
pub Poster-update :
    (k : Kernel) (pc : Pc) (i : ℕ)
    → k.pc k.current ≢ posting i
    → Poster k i
    → Poster (record k { pc = update k.pc k.current pc }) i
Poster-update k pc i h (j, lt, e) = (j, lt, ground (arith, e, h, ap k.pc {x = j} {y = k.current}))
