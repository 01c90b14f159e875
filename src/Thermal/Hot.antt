-- ===== src/Thermal/Hot.antt =====
-- When common/thermal.c takes a limit to be exceeded, and the edges that it acts on.
use chromium_ec.Common.{
  ℕ, ◌+◌, ◌-◌, ◌≡◌, ◌≤◌, refl, Bool, true, false, not, ◌&&◌, ◌||◌, List, [], ◌∷◌, ltb, ◌==◌,
  nonzero, Option, some, none, if◌then◌else◌, arith, Bool-cases, inl, inr,
}
use native.Mathlib.Nat.{div-le_of_le-mul}
use chromium_ec.Util.Cond
use chromium_ec.Util.Cond.Settled.{went-set, went-set_rise, went-went-set, went-init}
use chromium_ec.Thermal.{
  Count, Locals, Sensor, count_limit, visit, visit_all, aggregate, edge, fan_percent, no_count,
}

-- Whether some sensor that was read is over its limit, and whether all that were read and have a
-- limit are under it.
module _ (limit : Sensor → ℕ) where
  unfoldable pub any_over : List (Option ℕ) → List Sensor → Bool
  any_over readings [] = false
  any_over [] (s ∷ ss) = false
  any_over (none ∷ rs) (s ∷ ss) = any_over rs ss
  any_over (some t ∷ rs) (s ∷ ss) = (nonzero (limit s) && ltb (limit s) t) || any_over rs ss

  unfoldable pub all_under : List (Option ℕ) → List Sensor → Bool
  all_under readings [] = true
  all_under [] (s ∷ ss) = true
  all_under (none ∷ rs) (s ∷ ss) = all_under rs ss
  all_under (some t ∷ rs) (s ∷ ss) = (not (nonzero (limit s)) || ltb t (limit s)) && all_under rs ss

  -- Hot once some sensor is over its limit, and until all are under theirs.
  unfoldable pub hot : List (Option ℕ) → List Sensor → Bool → Bool
  unfolding any_over all_under
  hot readings sensors before =
      any_over readings sensors || (before && not (all_under readings sensors))

-- What the counters of a limit say of the sensors still to come.
pub record Counted (any all : Bool) (c c' : Count) : Type 0 where
  pub over_is : nonzero c'.over ≡ (nonzero c.over || any)
  pub le : c'.under + c.valid ≤ c'.valid + c.under
  pub all_is : (c'.under + c.valid == c'.valid + c.under) ≡ all

count_limit-Counted :
    (limit t : ℕ) (c c' : Count) (any all : Bool)
    → Counted any all (count_limit limit t c) c'
    → Counted
        ((nonzero limit && ltb limit t) || any)
        ((not (nonzero limit) || ltb t limit) && all)
        c
        c'
unfolding count_limit
count_limit-Counted limit t c c' any all k = ground (arith, k.over_is, k.le, k.all_is)

-- Whether any sensor was read.
unfoldable pub any_read : List (Option ℕ) → List Sensor → Bool
any_read readings [] = false
any_read [] (s ∷ ss) = false
any_read (none ∷ rs) (s ∷ ss) = any_read rs ss
any_read (some t ∷ rs) (s ∷ ss) = true

-- What the loop over the sensors finds.
pub record Visited (readings : List (Option ℕ)) (sensors : List Sensor) (l l' : Locals)
    : Type 0 where
  pub warn_counted :
      Counted
        (any_over (λ s. s.warn) readings sensors)
        (all_under (λ s. s.warn) readings sensors)
        l.warn
        l'.warn
  pub high_counted :
      Counted
        (any_over (λ s. s.high) readings sensors)
        (all_under (λ s. s.high) readings sensors)
        l.high
        l'.high
  pub halt_counted :
      Counted
        (any_over (λ s. s.halt) readings sensors)
        (all_under (λ s. s.halt) readings sensors)
        l.halt
        l'.halt
  pub read_is :
      nonzero l'.num_sensors_read ≡ (nonzero l.num_sensors_read || any_read readings sensors)
  pub fan_in : l.fmax ≤ 100 → l'.fmax ≤ 100

Counted-none : (c : Count) → Counted false true c c
Counted-none c = record { over_is = ground arith; le = omega arith; all_is = ground arith }

fan_percent-le : (low high cur : ℕ) → fan_percent low high cur ≤ 100
unfolding fan_percent
fan_percent-le low high cur = elim (Bool-cases (ltb cur low)) [
  | inl below ↦ rw below (omega arith)
  | inr from_low ↦ elim (Bool-cases (ltb high cur)) [
    | inl over ↦ rw (from_low, over) (omega arith)
    | inr within ↦ rw (from_low, within) (div-le_of_le-mul (high - low) (ground (arith, within)))
  ]
]

pub visit_all-Visited :
    (id : ℕ) (readings : List (Option ℕ)) (sensors : List Sensor) (l : Locals)
    → Visited readings sensors l (visit_all id readings sensors l).1
unfolding visit_all visit any_over all_under any_read
visit_all-Visited id readings [] l = record {
  warn_counted = Counted-none l.warn;
  high_counted = Counted-none l.high;
  halt_counted = Counted-none l.halt;
  read_is = ground arith;
  fan_in = λ h. h;
}
visit_all-Visited id [] (s ∷ ss) l = record {
  warn_counted = Counted-none l.warn;
  high_counted = Counted-none l.high;
  halt_counted = Counted-none l.halt;
  read_is = ground arith;
  fan_in = λ h. h;
}
visit_all-Visited id (none ∷ rs) (s ∷ ss) l =
    let rest = visit_all-Visited (id + 1) rs ss l in
    record {
      warn_counted = rest.warn_counted;
      high_counted = rest.high_counted;
      halt_counted = rest.halt_counted;
      read_is = rest.read_is;
      fan_in = rest.fan_in;
    }
visit_all-Visited id (some t ∷ rs) (s ∷ ss) l =
    let here = (visit id (some t) s l).1 in
    let rest = visit_all-Visited (id + 1) rs ss here in
    record {
      warn_counted = count_limit-Counted s.warn t l.warn _ _ _ rest.warn_counted;
      high_counted = count_limit-Counted s.high t l.high _ _ _ rest.high_counted;
      halt_counted = count_limit-Counted s.halt t l.halt _ _ _ rest.halt_counted;
      read_is = ground (arith, rest.read_is);
      fan_in = λ h. rest.fan_in (ground (arith, h, fan_percent-le s.fan_off s.fan_max t));
    }

edge-set :
    (before now : Bool)
    → edge (Cond.set (Cond.init before) now) ≡ (
      (if now && not before then some true else if before && not now then some false else none),
      Cond.init now,
    )
unfolding edge
edge-set true true = rw (went-set true true, went-went-set true true) refl
edge-set true false = rw (went-set true false, went-went-set true false) refl
edge-set false true = rw (went-set false true, went-set_rise) refl
edge-set false false = rw (went-set false false, went-went-set false false) refl

edge-init : (before : Bool) → edge (Cond.init before) ≡ (none, Cond.init before)
unfolding edge
edge-init before = rw (went-init before true) (rw (went-init before false) refl)

-- The edges of a condition that was settled.
pub edge-aggregate :
    (any all before : Bool) (count : Count)
    → Counted any all no_count count
    → let now = any || (before && not all) in
      edge (aggregate count (Cond.init before)) ≡ (
        (if now && not before then some true else if before && not now then some false else none),
        Cond.init now,
      )
unfolding aggregate
edge-aggregate any all before count k =
    let over : nonzero count.over ≡ any = ground (arith, k.over_is) in
    let under : (count.under == count.valid) ≡ all = ground (arith, k.all_is) in
    rw (over, under) (split any all before)
  where
    split :
        (any all before : Bool)
        → let now = any || (before && not all) in
          edge (
            if any
            then Cond.set (Cond.init before) true
            else if all
            then Cond.set (Cond.init before) false
            else Cond.init before)
          ≡ (
            (if now && not before
                then some true
                else if before && not now
                then some false
                else none),
            Cond.init now,
          )
    split true all before = edge-set before true
    split false true true = edge-set true false
    split false true false = edge-set false false
    split false false true = edge-init true
    split false false false = edge-init false
