-- ===== src/Thermal/Control.antt =====
-- The thermal control of common/thermal.c throttles the AP exactly while it is hot.
use chromium_ec.Common.{
  ℕ, ◌+◌, ◌≡◌, refl, ap, ◌∙◌, Bool, true, false, not, ◌&&◌, Option, some, none, if◌then◌else◌,
  arith,
}
use chromium_ec.Common.Bits.{test_bit}
use chromium_ec.Throttle.{Throttle, throttle_ap, on, off, thermal}
use chromium_ec.Throttle.Requests.{apply_level-bit}
use chromium_ec.Util.Cond
use chromium_ec.Thermal.{Locals, Thermal, edge, aggregate, on_halt, on_high, on_warn, signal, react}

-- The conditions are those of the limits, and the thermal source asks for throttling while they
-- hold.
pub record Follows (warn high halt : Bool) (s : Thermal) : Type 0 where
  pub warn_is : s.cond_warn ≡ Cond.init warn
  pub high_is : s.cond_high ≡ Cond.init high
  pub halt_is : s.cond_halt ≡ Cond.init halt
  pub soft_is : test_bit s.throttle.soft_request 0 ≡ warn
  pub hard_is : test_bit s.throttle.hard_request 0 ≡ high

-- The thermal bits after the edges of the limits.
on_warn-bits :
    (before now : Bool) (t : Throttle)
    → test_bit t.soft_request 0 ≡ before
    → let e =
        if now && not before then some true else if before && not now then some false else none in
      (test_bit (on_warn e t).soft_request 0 ≡ now) × ((on_warn e t).hard_request ≡ t.hard_request)
unfolding throttle_ap
on_warn-bits true true t h = (h, refl)
on_warn-bits true false t h = (apply_level-bit off thermal thermal t.soft_request, refl)
on_warn-bits false true t h = (apply_level-bit on thermal thermal t.soft_request, refl)
on_warn-bits false false t h = (h, refl)

on_high-bits :
    (before now : Bool) (t : Throttle)
    → test_bit t.hard_request 0 ≡ before
    → let e =
        if now && not before then some true else if before && not now then some false else none in
      (test_bit (on_high e t).hard_request 0 ≡ now) × ((on_high e t).soft_request ≡ t.soft_request)
unfolding throttle_ap
on_high-bits true true t h = (h, refl)
on_high-bits true false t h = (apply_level-bit off thermal thermal t.hard_request, refl)
on_high-bits false true t h = (apply_level-bit on thermal thermal t.hard_request, refl)
on_high-bits false false t h = (h, refl)

-- The edge from one value to another.
abbrev pub edge_of : Bool → Bool → Option Bool
edge_of before now =
    if now && not before then some true else if before && not now then some false else none

record Halted (e : Option Bool) (s s' : Thermal) : Type 0 where
  warn_is : s'.cond_warn ≡ s.cond_warn
  high_is : s'.cond_high ≡ s.cond_high
  halt_is : s'.cond_halt ≡ s.cond_halt
  throttle_is : s'.throttle ≡ s.throttle
  sensors_is : s'.sensors ≡ s.sensors
  fan_is : s'.fan_needed ≡ s.fan_needed

on_halt-Halted : (e : Option Bool) (s : Thermal) → Halted e s (on_halt e s)
on_halt-Halted none s = record {
  warn_is = refl;
  high_is = refl;
  halt_is = refl;
  throttle_is = refl;
  sensors_is = refl;
  fan_is = refl;
}
on_halt-Halted (some true) s = record {
  warn_is = refl;
  high_is = refl;
  halt_is = refl;
  throttle_is = refl;
  sensors_is = refl;
  fan_is = refl;
}
on_halt-Halted (some false) s = record {
  warn_is = refl;
  high_is = refl;
  halt_is = refl;
  throttle_is = refl;
  sensors_is = refl;
  fan_is = refl;
}

on_halt-shutdowns :
    (before now : Bool) (s : Thermal)
    → (on_halt (edge_of before now) s).shutdowns
      ≡ s.shutdowns + (if now && not before then 1 else 0)
on_halt-shutdowns true true s = omega arith
on_halt-shutdowns true false s = omega arith
on_halt-shutdowns false true s = omega arith
on_halt-shutdowns false false s = omega arith

signal-requests :
    (b : Bool) (event : ℕ) (t : Throttle)
    → ((if b then signal event t else t).soft_request ≡ t.soft_request)
      × ((if b then signal event t else t).hard_request ≡ t.hard_request)
signal-requests true event t = (refl, refl)
signal-requests false event t = (refl, refl)

-- What one reaction to new limits leaves.
pub record Reacted (warn high halt halt0 : Bool) (l : Locals) (s s' : Thermal) : Type 0 where
  pub follows : Follows warn high halt s'
  pub sensors_is : s'.sensors ≡ s.sensors
  pub fan_is : s'.fan_needed ≡ l.fmax
  pub shutdowns_is : s'.shutdowns ≡ s.shutdowns + (if halt && not halt0 then 1 else 0)

pub react-Reacted :
    (w h x w' h' x' : Bool) (l : Locals) (s : Thermal)
    → Follows w h x s
    → edge (aggregate l.warn (Cond.init w)) ≡ (edge_of w w', Cond.init w')
    → edge (aggregate l.high (Cond.init h)) ≡ (edge_of h h', Cond.init h')
    → edge (aggregate l.halt (Cond.init x)) ≡ (edge_of x x', Cond.init x')
    → Reacted w' h' x' x l s (react l s)
unfolding react
react-Reacted w h x w' h' x' l s f ew eh ex =
    let ew' : edge (aggregate l.warn s.cond_warn) ≡ (edge_of w w', Cond.init w') =
      ap (λ c. edge (aggregate l.warn c)) f.warn_is ∙ ew in
    let eh' : edge (aggregate l.high s.cond_high) ≡ (edge_of h h', Cond.init h') =
      ap (λ c. edge (aggregate l.high c)) f.high_is ∙ eh in
    let ex' : edge (aggregate l.halt s.cond_halt) ≡ (edge_of x x', Cond.init x') =
      ap (λ c. edge (aggregate l.halt c)) f.halt_is ∙ ex in
    let hard_on = on_high-bits h h' s.throttle f.hard_is in
    let throttled = on_high (edge_of h h') s.throttle in
    let soft_on = on_warn-bits w w' throttled (ap (λ r. test_bit r 0) hard_on.1 ∙ f.soft_is) in
    let both = on_warn (edge_of w w') throttled in
    let told = signal-requests l.tripped 9 both in
    let t = if l.tripped then signal 9 both else both in
    let s' = record s {
      cond_halt = Cond.init x';
      cond_high = Cond.init h';
      cond_warn = Cond.init w';
      throttle = t;
      fan_needed = l.fmax;
    } in
    let out = on_halt-Halted (edge_of x x') s' in
    rw (ew', eh', ex')
      (record {
        follows = record {
          warn_is = out.warn_is;
          high_is = out.high_is;
          halt_is = out.halt_is;
          soft_is =
              ap (λ (u : Throttle). test_bit u.soft_request 0) out.throttle_is
              ∙ ap (λ r. test_bit r 0) told.0
              ∙ soft_on.0;
          hard_is =
              ap (λ (u : Throttle). test_bit u.hard_request 0) out.throttle_is
              ∙ ap (λ r. test_bit r 0) (told.1 ∙ soft_on.1)
              ∙ hard_on.0;
        };
        sensors_is = out.sensors_is;
        fan_is = out.fan_is;
        shutdowns_is = on_halt-shutdowns x x' s';
      })
