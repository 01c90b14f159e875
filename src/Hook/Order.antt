-- ===== src/Hook/Order.antt =====
-- `hook_notify` of common/hooks.c calls every hook once, in order of priority.
use chromium_ec.Common.{
  ℕ, zero, suc, ◌+◌, ◌≡◌, ◌≤◌, ◌<◌, refl, ◌&&◌, ◌⊎◌, List, [], ◌∷◌, ◌++◌, arith, ltb, leb, ◌==◌,
  length, if◌then◌else◌, some, Bool-cases, inl, inr,
}
use mathlib.Core.List.{append-nil}
use chromium_ec.Hook.{HookData, lowest, with_prio, notify_from, notify}

-- Every priority lies between HOOK_PRIO_FIRST and HOOK_PRIO_LAST.
abbrev pub AllInRange : List HookData → Type 0
AllInRange [] = Unit
AllInRange (p ∷ ps) = (1 ≤ p.priority) × (p.priority ≤ 9999) × AllInRange ps

-- Priorities do not fall, from `low` on.
abbrev pub Ascends : ℕ → List HookData → Type 0
Ascends low [] = Unit
Ascends low (p ∷ ps) = (low ≤ p.priority) × Ascends p.priority ps

-- How many hooks have a priority of at most `last`.
up_to : ℕ → List HookData → ℕ
up_to last [] = 0
up_to last (p ∷ ps) = (if leb p.priority last then 1 else 0) + up_to last ps

-- No priority lies strictly between.
AllOutside : ℕ → ℕ → List HookData → Type 0
AllOutside last prio [] = Unit
AllOutside last prio (p ∷ ps) =
    ((p.priority ≤ last) ⊎ (prio ≤ p.priority)) × AllOutside last prio ps

-- What the search for the lowest remaining priority finds.
record Found (last start : ℕ) (hooks : List HookData) (prio : ℕ) : Type 0 where
  above : last < prio
  at_most : prio ≤ start
  outside : AllOutside last prio hooks
  hit : (prio ≡ start) ⊎ (0 < length (with_prio prio hooks))

lowest-Found :
    (last start : ℕ) (hooks : List HookData)
    → last < start
    → Found last start hooks (lowest last hooks start)
unfolding lowest with_prio AllOutside
lowest-Found last start [] h = record {
  above = h;
  at_most = omega arith;
  outside = tt;
  hit = inl refl;
}
lowest-Found last start (p ∷ ps) h =
    let s' : ℕ = if ltb p.priority start && ltb last p.priority then p.priority else start in
    let rest = lowest-Found last s' ps (ground arith) in
    record {
      above = rest.above;
      at_most = ground (arith, rest.at_most);
      outside = (ground (arith, rest.at_most), rest.outside);
      hit = ground (arith, rest.hit);
    }

up_to-outside :
    (last prio : ℕ) (hooks : List HookData)
    → last < prio
    → AllOutside last prio hooks
    → up_to prio hooks ≡ up_to last hooks + length (with_prio prio hooks)
unfolding up_to with_prio AllOutside
up_to-outside last prio [] h o = omega arith
up_to-outside last prio (p ∷ ps) h o = ground (arith, up_to-outside last prio ps h o.1)

up_to-length : (last : ℕ) (hooks : List HookData) → up_to last hooks ≤ length hooks
unfolding up_to
up_to-length last [] = omega arith
up_to-length last (p ∷ ps) = ground (arith, up_to-length last ps)

up_to-all :
    (last prio : ℕ) (hooks : List HookData)
    → AllInRange hooks
    → AllOutside last prio hooks
    → 9999 < prio
    → up_to last hooks ≡ length hooks
unfolding up_to AllOutside
up_to-all last prio [] r o h = refl
up_to-all last prio (p ∷ ps) r o h = ground (arith, up_to-all last prio ps r.2 o.1 h)

up_to-last :
    (last : ℕ) (hooks : List HookData)
    → AllInRange hooks
    → 9999 ≤ last
    → up_to last hooks ≡ length hooks
unfolding up_to
up_to-last last [] r h = refl
up_to-last last (p ∷ ps) r h = ground (arith, up_to-last last ps r.2 h)

up_to-none : (hooks : List HookData) → AllInRange hooks → up_to 0 hooks ≡ 0
unfolding up_to
up_to-none [] r = refl
up_to-none (p ∷ ps) r = ground (arith, up_to-none ps r.2)

with_prio-append :
    (q : ℕ) (ps rs : List HookData) → with_prio q (ps ++ rs) ≡ with_prio q ps ++ with_prio q rs
unfolding with_prio
with_prio-append q [] rs = refl
with_prio-append q (p ∷ ps) rs = ground (arith, with_prio-append q ps rs)

with_prio-with_prio :
    (q prio : ℕ) (ps : List HookData)
    → with_prio q (with_prio prio ps) ≡ (if q == prio then with_prio prio ps else [])
unfolding with_prio
with_prio-with_prio q prio [] = ground arith
with_prio-with_prio q prio (p ∷ ps) = ground (arith, with_prio-with_prio q prio ps)

-- No hook has a priority that the search jumped over.
with_prio-outside :
    (q last prio : ℕ) (hooks : List HookData)
    → last < q
    → q < prio
    → AllOutside last prio hooks
    → with_prio q hooks ≡ []
unfolding with_prio AllOutside
with_prio-outside q last prio [] h k o = refl
with_prio-outside q last prio (p ∷ ps) h k o =
    ground (arith, with_prio-outside q last prio ps h k o.1)

with_prio-none :
    (q prio : ℕ) (hooks : List HookData)
    → up_to prio hooks ≡ length hooks
    → prio < q
    → with_prio q hooks ≡ []
unfolding with_prio up_to
with_prio-none q prio [] e h = refl
with_prio-none q prio (p ∷ ps) e h = ground (arith, with_prio-none q prio ps, up_to-length prio ps)

with_prio-zero : (hooks : List HookData) → AllInRange hooks → with_prio 0 hooks ≡ []
unfolding with_prio
with_prio-zero [] r = refl
with_prio-zero (p ∷ ps) r = ground (arith, with_prio-zero ps r.2)

Ascends-le : (low prio : ℕ) (rs : List HookData) → low ≤ prio → Ascends prio rs → Ascends low rs
Ascends-le low prio [] h a = tt
Ascends-le low prio (r ∷ rs) h a = (omega arith, a.1)

Ascends-append :
    (low prio : ℕ) (hooks rs : List HookData)
    → low ≤ prio
    → Ascends prio rs
    → Ascends low (with_prio prio hooks ++ rs)
unfolding with_prio
Ascends-append low prio [] rs h a = Ascends-le low prio rs h a
Ascends-append low prio (p ∷ ps) rs h a = elim (Bool-cases (p.priority == prio)) [
  | inl same ↦
      let e : p.priority ≡ prio = ground (arith, same) in
      rw same (omega arith, Ascends-append p.priority prio ps rs (omega arith) a)
  | inr other ↦ rw other (Ascends-append low prio ps rs h a)
]

-- The calls of one notification: each hook of a priority above `last` as often as the table has it,
-- in order of priority, and those of one priority in the order of the table.
pub record Notified (last : ℕ) (hooks calls : List HookData) : Type 0 where
  pub ascends : Ascends (last + 1) calls
  pub same : (q : ℕ) → with_prio q calls ≡ (if leb q last then [] else with_prio q hooks)

round-Notified :
    (last prio : ℕ) (hooks calls : List HookData)
    → last < prio
    → AllOutside last prio hooks
    → Notified prio hooks calls
    → Notified last hooks (with_prio prio hooks ++ calls)
round-Notified last prio hooks calls h o n = record {
  ascends =
      Ascends-append (last + 1) prio hooks calls (omega arith)
        (Ascends-le prio (prio + 1) calls (omega arith) n.ascends);
  same = λ q. ground (
    arith,
    with_prio-append q (with_prio prio hooks) calls,
    with_prio-with_prio q prio hooks,
    n.same q,
    with_prio-outside q last prio hooks,
    append-nil (with_prio prio hooks),
  );
}

done-Notified :
    (last : ℕ) (hooks : List HookData) → up_to last hooks ≡ length hooks → Notified last hooks []
unfolding with_prio
done-Notified last hooks e = record {
  ascends = tt;
  same = λ q. ground (arith, with_prio-none q last hooks e);
}

notify_from-Notified :
    (fuel : ℕ) (hooks : List HookData) (last called : ℕ)
    → AllInRange hooks
    → called ≡ up_to last hooks
    → length hooks < fuel + called
    → (calls : List HookData) × (notify_from fuel hooks last called ≡ some calls)
      × Notified last hooks calls
unfolding notify_from
notify_from-Notified zero hooks last called r e f = absurd (omega (arith, up_to-length last hooks))
notify_from-Notified (suc fuel) hooks last called r e f =
    elim (Bool-cases (ltb called (length hooks))) [
      | inl more ↦
          let low : last < 10000 = ground (arith, more, e, up_to-last last hooks r) in
          let found = lowest-Found last 10000 hooks low in
          let prio = lowest last hooks 10000 in
          let some_hook : 0 < length (with_prio prio hooks) =
            ground (arith, more, e, found.hit, up_to-all last prio hooks r found.outside) in
          let count = up_to-outside last prio hooks found.above found.outside in
          let (calls, ran, rest) =
            notify_from-Notified fuel hooks prio (called + length (with_prio prio hooks)) r
              (omega (arith, e, count)) (omega (arith, f, some_hook)) in
          (
            with_prio prio hooks ++ calls,
            rw (more, ran) refl,
            round-Notified last prio hooks calls found.above found.outside rest,
          )
      | inr all ↦ (
        [],
        rw all refl,
        done-Notified last hooks (ground (arith, all, e, up_to-length last hooks)),
      )
    ]

-- Where every hook has a priority between HOOK_PRIO_FIRST and HOOK_PRIO_LAST, the loop of
-- `hook_notify` ends after at most one round for each hook and one test more, and has called the
-- hooks in order of priority: for each priority it has called exactly the hooks of that priority,
-- each once and in the order of the table.
pub notify-Notified :
    (hooks : List HookData)
    → AllInRange hooks
    → (calls : List HookData) × (notify (length hooks + 1) hooks ≡ some calls)
      × Ascends 1 calls
      × ((q : ℕ) → with_prio q calls ≡ with_prio q hooks)
unfolding notify
notify-Notified hooks r =
    let (calls, ran, n) =
      notify_from-Notified (length hooks + 1) hooks 0 0 r (omega (arith, up_to-none hooks r))
        (omega arith) in
    (calls, ran, n.ascends, λ q. ground (arith, n.same q, with_prio-zero hooks r))
