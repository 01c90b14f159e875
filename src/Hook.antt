-- ===== src/Hook.antt =====
-- common/hooks.c: the hooks of a type, called in order of priority, and the deferred calls and
-- periodic hooks of the hook task. A routine is a number. What a deferred routine does to the hooks
-- (it may ask for calls itself), the time, and the board's tick interval are arguments. The
-- statistics of CONFIG_HOOK_DEBUG are left out.
pub mod Order
pub mod Sleep
mod Tests
use chromium_ec.Common.{
  ℕ, zero, suc, ◌+◌, ◌-◌, ◌*◌, ◌%◌, ◌^◌, Bool, true, false, not, ◌&&◌, List, [], ◌∷◌, ◌++◌, ltb,
  leb, ◌==◌, nonzero, Option, some, none, if◌then◌else◌, get_or, set, length, map,
}
use mathlib.Core.Option

-- `struct hook_data`
pub record HookData : Type 0 where
  pub routine : ℕ
  pub priority : ℕ

-- HOOK_PRIO_FIRST and HOOK_PRIO_LAST
abbrev pub prio_first : ℕ
prio_first = 1

abbrev pub prio_last : ℕ
prio_last = 9999

-- `for (p = start, ...) if (p->priority < prio && p->priority > last_prio) prio = p->priority;`
pub lowest : ℕ → List HookData → ℕ → ℕ
lowest last_prio [] prio = prio
lowest last_prio (p ∷ ps) prio =
    lowest last_prio ps
      (if ltb p.priority prio && ltb last_prio p.priority then p.priority else prio)

-- The hooks that `for (p = start; ...) if (p->priority == prio) ...` calls, in order.
pub with_prio : ℕ → List HookData → List HookData
with_prio prio [] = []
with_prio prio (p ∷ ps) =
    let rest = with_prio prio ps in if p.priority == prio then p ∷ rest else rest

-- The loop `while (called < count)`, with the hooks that it calls; `none` if the fuel runs out.
pub notify_from : ℕ → List HookData → ℕ → ℕ → Option (List HookData)
notify_from zero hooks last_prio called = none
notify_from (suc fuel) hooks last_prio called =
    let prio = lowest last_prio hooks (prio_last + 1) in
    let now = with_prio prio hooks in
    let rest = notify_from fuel hooks prio (called + length now) in
    if ltb called (length hooks) then Option.map (λ l. now ++ l) rest else some []

-- `hook_notify`
pub notify : ℕ → List HookData → Option (List HookData)
notify fuel hooks = notify_from fuel hooks (prio_first - 1) 0

-- The deferred calls: `__deferred_funcs`, and the statics of the file.
pub record Deferred : Type 0 where
  pub routines : List ℕ
  pub defer_until : List ℕ
  pub new_call : Bool  -- `defer_new_call`
  pub task_started : Bool  -- `hook_task_started`
  pub wakes : ℕ  -- the calls of `task_wake(TASK_ID_HOOKS)`

-- The search of `hook_call_deferred`.
pub find_routine : ℕ → List ℕ → Option ℕ
find_routine routine [] = none
find_routine routine (r ∷ rs) =
    let rest = Option.map suc (find_routine routine rs) in if r == routine then some 0 else rest

-- `hook_call_deferred` from its index on; `none` is the -1 that cancels. Other negative times are
-- not modelled.
abbrev pub set_alarm : ℕ → Option ℕ → ℕ → Deferred → Deferred
set_alarm i none now h = record h { defer_until = set h.defer_until i 0 }
set_alarm i (some us) now h = record h {
  defer_until = set h.defer_until i (now + us);
  new_call = true;
  wakes = if h.task_started then h.wakes + 1 else h.wakes;
}

abbrev pub call_found : Option ℕ → Option ℕ → ℕ → Deferred → Bool × Deferred
call_found none us now h = (false, h)
call_found (some i) us now h = (true, set_alarm i us now h)

-- `hook_call_deferred`: whether the routine is registered (EC_SUCCESS, or EC_ERROR_INVAL).
pub call_deferred : ℕ → Option ℕ → ℕ → Deferred → Bool × Deferred
call_deferred routine us now h = call_found (find_routine routine h.routines) us now h

-- The first loop of `hook_task` with `count` routines left, at `i`: the routines called, in order.
pub run_deferred : (ℕ → Deferred → Deferred) → ℕ → ℕ → ℕ → Deferred → List ℕ × Deferred
run_deferred act t zero i h = ([], h)
run_deferred act t (suc count) i h =
    let until = get_or h.defer_until i 0 in
    let due = nonzero until && ltb until t in
    let r = get_or h.routines i 0 in
    let h' = if due then act r (record h { defer_until = set h.defer_until i 0 }) else h in
    let (rs, h'') = run_deferred act t count (i + 1) h' in (if due then r ∷ rs else rs, h'')

-- A call of `hook_call_deferred` by an interrupt.
pub record Interrupt : Type 0 where
  pub routine : ℕ
  pub us : Option ℕ
  pub now : ℕ

pub serve : List Interrupt → Deferred → Deferred
serve [] h = h
serve (c ∷ cs) h = serve cs (call_deferred c.routine c.us c.now h).1

-- The new `next` after a routine with the time `until`.
abbrev pub nearer : ℕ → ℕ → ℕ → ℕ
nearer t next until =
    if until == 0
    then next
    else if ltb until t
    then 0
    else if ltb (until - t) next
    then until - t
    else next

-- The last loop of `hook_task` with `count` routines left, at `i`, where the interrupts `irqs i`
-- come before the routine `i` is looked at.
pub next_from : (ℕ → List Interrupt) → ℕ → ℕ → ℕ → ℕ → Deferred → ℕ × Deferred
next_from irqs t zero i next h = (next, h)
next_from irqs t (suc count) i next h =
    let h' = serve (irqs i) h in
    let rest = next_from irqs t count (i + 1) (nearer t next (get_or h'.defer_until i 0)) h' in
    if ltb 0 next then rest else (next, h)

-- The end of one round of `hook_task`, from the second reading of the time on: how long the task
-- sleeps, if it does. The interrupts `irqs count` come after the loop.
pub sleep : (ℕ → List Interrupt) → ℕ → ℕ → ℕ → Deferred → Option ℕ × Deferred
sleep irqs interval last_tick t h =
    let tick = if ltb t (last_tick + interval) then last_tick + interval - t else 0 in
    let count = length h.routines in
    let (next, h') = next_from irqs t count 0 tick (record h { new_call = false }) in
    let h'' = serve (irqs count) h' in
    (if ltb 0 next && not h''.new_call then some next else none, h'')

-- The periodic hooks of one round: whether a hook of this interval is notified at `t`, and the new
-- time of the last. The difference is that of two uint64_t.
pub periodic : ℕ → ℕ → ℕ → Bool × ℕ
periodic interval t last =
    if leb interval ((t + 2 ^ 64 - last) % 2 ^ 64) then (true, t) else (false, last)
