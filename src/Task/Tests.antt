-- ===== src/Task/Tests.antt =====
-- core/cortex-m/task.c with three tasks.
use chromium_ec.Common.{ℕ, zero, suc, ◌≡◌, refl, true, false, arith, ltb, if◌then◌else◌, ◌==◌}
use chromium_ec.Common.Bits.{test_bit}
use chromium_ec.Task.{
  Kernel, set_event_wait, computing, checking, highest, svc_handler, set_event_irq, wait_event,
  check_events, schedule_blocked,
}
use chromium_ec.Task.Highest.{highest-IsHighest}
use chromium_ec.Task.Soundness.{is_checking, irq, wait, check, block, IsSound}
use chromium_ec.Task.Wakeup.{Reach, here, next, Reach-IsSound}

-- Tasks 0, 1 and 2 are ready, and 2 runs.
abbrev boot : Kernel
boot = record {
  tasks_ready = 7;
  current = 2;
  events = λ i. 0;
  need_resched = false;
  pc = λ i. if ltb i 3 then computing else checking 0;
}

three-ready : (i : ℕ) → is_checking (boot.pc i) ≡ false → test_bit 7 i ≡ true
three-ready zero e = refl
three-ready (suc zero) e = refl
three-ready (suc (suc zero)) e = refl
three-ready (suc (suc (suc i))) e = ground (arith, e)

boot-IsSound : IsSound boot
unfolding highest
boot-IsSound = record {
  current_in = omega arith;
  current_ready = refl;
  chosen = λ e. highest-IsHighest 32 7 0 (omega arith) refl;
  awake = λ i lt e. three-ready i e;
  pending = λ i lt e. absurd (e refl);
}

-- Task 2 waits, and finds nothing; before it blocks, an interrupt sends it an event; so it does not
-- stop, and reads the event.
abbrev waiting : Kernel
waiting = wait_event boot

abbrev blocked : Kernel
blocked = check_events 0 waiting

abbrev interrupted : Kernel
interrupted = set_event_irq 2 1 blocked

abbrev resumed : Kernel
resumed = schedule_blocked 0 interrupted

Reach-resumed : Reach boot resumed
unfolding wait_event check_events set_event_irq
Reach-resumed =
    next (next (next (next here (wait refl refl)) (check 0 refl refl)) (irq 2 1 (omega arith) refl))
      (block 0 (omega arith) refl refl)

Reach-IsSound_example : IsSound resumed
Reach-IsSound_example = Reach-IsSound Reach-resumed boot-IsSound

resumed-runs : (check_events 0 resumed).pc 2 ≡ computing
unfolding check_events schedule_blocked svc_handler set_event_irq wait_event highest
resumed-runs = refl

-- task_set_event with `wait`, by a task that has an event itself: it goes on at once, and the
-- receiver has an event but is not ready.
abbrev asleep : Kernel
asleep = record boot { tasks_ready = 5; events = λ i. if i == 2 then 1 else 0 }

asleep-set_event_wait : (check_events 1 (set_event_wait 1 1 asleep)).tasks_ready ≡ 5
unfolding set_event_wait check_events
asleep-set_event_wait = refl
