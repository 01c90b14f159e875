-- ===== src/Hook/Tests.antt =====
-- common/hooks.c on concrete tables.
use chromium_ec.Common.{ℕ, ◌-◌, ◌^◌, ◌≡◌, refl, true, List, [], ◌∷◌, some, none, arith}
use chromium_ec.Hook.{
  HookData, Deferred, Interrupt, notify, notify_from, lowest, with_prio, sleep, next_from, serve,
  call_deferred, find_routine, run_deferred, periodic,
}
use chromium_ec.Hook.Order.{Ascends, notify-Notified}
use chromium_ec.Hook.Sleep.{IsAsleep, sleep-IsAsleep}

abbrev hook : ℕ → ℕ → HookData
hook routine priority = record { routine = routine; priority = priority }

abbrev table : List HookData
table = hook 1 5000 ∷ hook 2 3 ∷ hook 3 5000 ∷ hook 4 1 ∷ []

notify-table : notify 5 table ≡ some (hook 4 1 ∷ hook 2 3 ∷ hook 1 5000 ∷ hook 3 5000 ∷ [])
unfolding notify notify_from lowest with_prio
notify-table = refl

notify-Notified_example :
    (calls : List HookData) × (notify 5 table ≡ some calls)
    × Ascends 1 calls
    × ((q : ℕ) → with_prio q calls ≡ with_prio q table)
notify-Notified_example = notify-Notified table (omega arith)

-- Routine 8 is due 400 us after the time 1000, and routine 9 is armed while the task looks.
abbrev waiting : Deferred
waiting = record {
  routines = 8 ∷ 9 ∷ [];
  defer_until = 1400 ∷ 0 ∷ [];
  new_call = true;
  task_started = true;
  wakes = 0;
}

abbrev quiet : ℕ → List Interrupt
quiet i = []

abbrev noisy : ℕ → List Interrupt
noisy i = record { routine = 9; us = some 50; now = 1000 } ∷ []

sleep-quiet : (sleep quiet 500 900 1000 waiting).0 ≡ some 400
unfolding sleep next_from serve
sleep-quiet = refl

sleep-noisy : (sleep noisy 500 900 1000 waiting).0 ≡ none
unfolding sleep next_from serve call_deferred find_routine
sleep-noisy = refl

sleep-IsAsleep_example : IsAsleep 1000 400 900 500 (sleep quiet 500 900 1000 waiting).1
sleep-IsAsleep_example = sleep-IsAsleep quiet 500 900 1000 400 waiting sleep-quiet

run_deferred-due : (run_deferred (λ r h. h) 1401 2 0 waiting).0 ≡ 8 ∷ []
unfolding run_deferred
run_deferred-due = refl

-- Before the first notification the last time is minus the interval.
periodic-first : periodic 1000000 5 (2 ^ 64 - 1000000) ≡ (true, 5)
unfolding periodic
periodic-first = refl
