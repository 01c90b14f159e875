-- ===== src/Task/Mutex.antt =====
-- The mutex of core/cortex-m/task.c, over the events of its tasks. A step is one atomic access to
-- the mutex or to the events. `task_wait_event(0)` is modelled by what its caller sees: it returns
-- when the task has an event, and the events are then cleared; Task has its steps.
pub mod Exclusion
mod Tests
use chromium_ec.Common.{ℕ, zero, suc, ◌+◌, ◌^◌, Bool, true, false, ◌==◌, nonzero, if◌then◌else◌}
use chromium_ec.HostEvent.{atomic_clear, atomic_or}
use chromium_ec.Task.{update, highest}

-- TASK_EVENT_MUTEX
abbrev pub event_mutex : ℕ
event_mutex = 0x40000000

-- Where a task stands: outside; in mutex_lock about to try, in `task_wait_event(0)`, and with the
-- lock taken; with the lock held after it; and in mutex_unlock, with the waiters read, and about to
-- send events to the waiters.
pub data Phase : Type 0 where
  outside : Phase
  trying : Phase
  waiting : Phase
  taken : Phase
  holding : Phase
  releasing : ℕ → Phase
  waking : ℕ → Phase

-- `struct mutex`, the events of the tasks and where these stand.
pub record Mutex : Type 0 where
  pub lock : ℕ
  pub waiters : ℕ
  pub events : ℕ → ℕ
  pub phase : ℕ → Phase

-- The accesses of mutex_lock by the task `i`: the registration, one round of the loop, the return
-- of `task_wait_event(0)`, and the end.
pub register : ℕ → Mutex → Mutex
register i m = record m { waiters = atomic_or m.waiters (2 ^ i); phase = update m.phase i trying }

-- `stored` is whether `strexeq` succeeds.
pub try_lock : Bool → ℕ → Mutex → Mutex
try_lock stored i m =
    if m.lock == 0
    then if stored then record m { lock = 2; phase = update m.phase i taken } else m
    else record m { phase = update m.phase i waiting }

pub wake_up : ℕ → Mutex → Mutex
wake_up i m =
    if nonzero (m.events i)
    then record m { events = update m.events i 0; phase = update m.phase i trying }
    else m

pub finish_lock : ℕ → Mutex → Mutex
finish_lock i m = record m {
  waiters = atomic_clear m.waiters (2 ^ i);
  phase = update m.phase i holding;
}

-- The accesses of mutex_unlock: `ldr`, `str`, and the loop over the waiters that were read.
pub read_waiters : ℕ → Mutex → Mutex
read_waiters i m = record m { phase = update m.phase i (releasing m.waiters) }

pub store_lock : ℕ → ℕ → Mutex → Mutex
store_lock w i m = record m { lock = 0; phase = update m.phase i (waking w) }

pub wake_next : ℕ → ℕ → Mutex → Mutex
wake_next w i m =
    let id = highest 32 w in
    if nonzero w
    then record m {
      events = update m.events id (atomic_or (m.events id) event_mutex);
      phase = update m.phase i (waking (atomic_clear w (2 ^ id)));
    }
    else record m {
      events = update m.events i (atomic_clear (m.events i) event_mutex);
      phase = update m.phase i outside;
    }
