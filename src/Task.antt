-- ===== src/Task.antt =====
-- core/cortex-m/task.c: the scheduler, without CONFIG_TASK_PROFILING. Tasks are numbered from 0,
-- the idle task, and a higher number is a higher priority. A step is what one task or one interrupt
-- handler does between two points at which another may come in: `svc_handler` runs with interrupts
-- off, and the atomic operations are one step each. Saved stacks are left out: a task goes on where
-- its `Pc` says once it is the current task. The timer of a wait is only another source of events.
pub mod Highest
pub mod Soundness
pub mod Wakeup
pub mod Mutex
mod Tests
use chromium_ec.Common.{
  ℕ, zero, suc, ◌+◌, ◌^◌, Bool, true, false, not, ◌&&◌, ◌==◌, ◌<◌, ◌≡◌, nonzero, if◌then◌else◌,
}
use chromium_ec.Common.Bits.{test_bit}
use chromium_ec.HostEvent.{atomic_clear, atomic_or}

-- Where a task stands: in its own code; in task_set_event, with the event set and `__schedule(0,
-- t)` to come; in `__wait_evt`, about to read its events, and about to call `__schedule(1,
-- resched)`.
pub data Pc : Type 0 where
  computing : Pc
  posting : ℕ → Pc
  checking : ℕ → Pc
  blocking : ℕ → Pc

abbrev pub update {ℓ} : {A : Type ℓ} → (ℕ → A) → ℕ → A → ℕ → A
update f i a j = if i == j then a else f j

pub record Kernel : Type 0 where
  pub tasks_ready : ℕ
  pub current : ℕ  -- `current_task`
  pub events : ℕ → ℕ  -- the field of each task
  pub need_resched : Bool
  pub pc : ℕ → Pc

-- `31 - __builtin_clz(x)` for n = 32 and an x that is not 0: the highest bit of x below n.
unfoldable pub highest : ℕ → ℕ → ℕ
highest zero x = 0
highest (suc n) x = let rest = highest n x in if test_bit x n then n else rest

-- `svc_handler`
pub svc_handler : Bool → ℕ → Kernel → Kernel
svc_handler desched resched k =
    let ready =
      if desched && not (nonzero (k.events k.current))
      then atomic_clear k.tasks_ready (2 ^ k.current)
      else k.tasks_ready in
    let ready' = atomic_or ready (2 ^ resched) in
    record k { tasks_ready = ready'; current = highest 32 ready'; need_resched = false }

-- `task_set_event` by an interrupt handler.
pub set_event_irq : ℕ → ℕ → Kernel → Kernel
set_event_irq t event k = record k {
  events = update k.events t (atomic_or (k.events t) event);
  tasks_ready = atomic_or k.tasks_ready (2 ^ t);
  need_resched = true;
}

-- `task_resched_if_needed`, at the end of an interrupt that has not come in another.
pub resched_if_needed : Kernel → Kernel
resched_if_needed k = if k.need_resched then svc_handler false 0 k else k

-- `task_set_event` by the current task, up to `__schedule`.
pub set_event : ℕ → ℕ → Kernel → Kernel
set_event t event k = record k {
  events = update k.events t (atomic_or (k.events t) event);
  pc = update k.pc k.current (posting t);
}

-- `__schedule(0, t)` at its end. With `wait` the task goes on to wait, and `__wait_evt` is given
-- the receiver; the receiver is not made ready before the first check.
pub schedule_posted : ℕ → Kernel → Kernel
schedule_posted t k = svc_handler false t (record k { pc = update k.pc k.current computing })

pub set_event_wait : ℕ → ℕ → Kernel → Kernel
set_event_wait t event k = record k {
  events = update k.events t (atomic_or (k.events t) event);
  pc = update k.pc k.current (checking t);
}

-- The call of `__wait_evt` by task_wait_event.
pub wait_event : Kernel → Kernel
wait_event k = record k { pc = update k.pc k.current (checking 0) }

-- `while (!(evt = atomic_read_clear(&tsk->events)))`
pub check_events : ℕ → Kernel → Kernel
check_events resched k =
    if nonzero (k.events k.current)
    then record k { events = update k.events k.current 0; pc = update k.pc k.current computing }
    else record k { pc = update k.pc k.current (blocking resched) }

-- `__schedule(1, resched); resched = TASK_ID_IDLE;`
pub schedule_blocked : ℕ → Kernel → Kernel
schedule_blocked resched k =
    svc_handler true resched (record k { pc = update k.pc k.current (checking 0) })
