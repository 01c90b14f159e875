-- ===== src/Task/Mutex/Tests.antt =====
-- The mutex of core/cortex-m/task.c with two tasks.
use chromium_ec.Common.{◌≡◌, refl, true, arith}
use chromium_ec.Task.Mutex.{
  Mutex, outside, waiting, register, try_lock, finish_lock, read_waiters, store_lock, wake_next,
}
use chromium_ec.Task.Mutex.Exclusion.{
  begin, try, enter, leave, IsExclusive, Reach, here, next, Reach-IsExclusive,
}

abbrev free : Mutex
free = record { lock = 0; waiters = 0; events = λ i. 0; phase = λ i. outside }

free-IsExclusive : IsExclusive free
free-IsExclusive = record {
  one_owner = λ i j hi hj a. absurd (ground (arith, a));
  locked = λ i h a. absurd (ground (arith, a));
  owned = λ n. absurd (n refl);
  registered = λ i h a. absurd (ground (arith, a));
}

-- The task 1 takes the mutex and reads the waiters of its unlock; before it stores 0, the task 2
-- registers, finds the lock taken and waits.
abbrev overtaken : Mutex
overtaken =
    try_lock true 2
      (register 2 (read_waiters 1 (finish_lock 1 (try_lock true 1 (register 1 free)))))

Reach-overtaken : Reach free overtaken
unfolding register try_lock finish_lock read_waiters
Reach-overtaken =
    next
      (next
        (next
          (next
            (next (next here (begin 1 (omega arith) refl refl))
              (try true 1 (omega arith) refl refl))
            (enter 1 (omega arith) refl refl))
          (leave 1 (omega arith) refl refl))
        (begin 2 (omega arith) refl refl))
      (try true 2 (omega arith) refl refl)

Reach-IsExclusive_example : IsExclusive overtaken
Reach-IsExclusive_example = Reach-IsExclusive Reach-overtaken free-IsExclusive

-- Then the unlock ends with the mutex free and no event for the task 2, which goes on waiting.
abbrev forgotten : Mutex
forgotten = wake_next 0 1 (store_lock 0 1 overtaken)

forgotten-waits : (forgotten.phase 2 ≡ waiting) × (forgotten.lock ≡ 0) × (forgotten.events 2 ≡ 0)
unfolding register try_lock finish_lock read_waiters store_lock wake_next
forgotten-waits = (refl, refl, refl)
