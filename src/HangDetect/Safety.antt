-- ===== src/HangDetect/Safety.antt =====
-- What holds of the hang detector of common/ap_hang_detect.c whatever happens to it.
use chromium_ec.Common.{
  inl, ℕ, ◌<◌, ◌≡◌, refl, ◌∙◌, ◌⊎◌, Bool, false, Option, none, some, List, [], ◌∷◌, arith,
}
use chromium_ec.HangDetect.{
  Params, Detector, expire, start, stop, stop_on_command, power_button, lid, resume, suspend,
  shutdown, sanitize, host_command, Event, timer, button, lid_change, chipset_resume,
  chipset_suspend, chipset_shutdown, any_host_command, configure, fire, step, run,
}

-- The delay of a pending call is not 0, and an active detector has one.
abbrev pub IsArmed : Bool → Option ℕ → Type 0
IsArmed a none = a ≡ false
IsArmed a (some us) = 0 < us

abbrev pub IsSane : Params → Type 0
IsSane p =
    (p.warm_reboot_timeout_msec ≡ 0) ⊎ (p.host_event_timeout_msec < p.warm_reboot_timeout_msec)

pub record IsValid (s : Detector) : Type 0 where
  pub sane : IsSane s.hdparams
  pub armed : IsArmed s.active s.deferred

sanitize-IsSane : (p : Params) → IsSane (sanitize p)
unfolding sanitize
sanitize-IsSane p = ground arith

start-IsValid : {s : Detector} → IsValid s → IsValid (start s)
unfolding start
start-IsValid v = ground arith

stop-IsValid : {s : Detector} → IsValid s → IsValid (stop s)
unfolding stop
stop-IsValid {s} v = record { sane = v.sane; armed = go s.deferred v.armed }
  where
    go : (d : Option ℕ) → IsArmed s.active d → IsArmed false d
    go none a = refl
    go (some us) a = a

expire-IsValid :
    (s : Detector) → IsSane s.hdparams → IsValid (expire (record s { deferred = none }))
unfolding expire
expire-IsValid s v = ground arith

fire-IsValid : (d : Option ℕ) {s : Detector} → IsValid s → IsValid (fire d s)
unfolding fire
fire-IsValid none v = v
fire-IsValid (some us) {s} v = expire-IsValid s v.sane

shutdown-IsValid : {s : Detector} → IsValid s → IsValid (shutdown s)
unfolding shutdown
shutdown-IsValid v = record { sane = inl refl; armed = (stop-IsValid v).armed }

host_command-IsValid : (p : Params) {s : Detector} → IsValid s → IsValid (host_command p s)
unfolding host_command
host_command-IsValid p {s} v =
    ground (arith, start-IsValid v, stop-IsValid v, sanitize-IsSane p, (stop-IsValid v).armed)

step-IsValid : (e : Event) {s : Detector} → IsValid s → IsValid (step e s)
unfolding step power_button lid resume suspend stop_on_command
step-IsValid timer {s} v = fire-IsValid s.deferred v
step-IsValid (button pressed) v = ground (arith, start-IsValid v, stop-IsValid v)
step-IsValid (lid_change is_open) v = ground (arith, start-IsValid v)
step-IsValid chipset_resume v = ground (arith, start-IsValid v)
step-IsValid chipset_suspend v = ground (arith, stop-IsValid v)
step-IsValid chipset_shutdown v = shutdown-IsValid v
step-IsValid any_host_command v = ground (arith, stop-IsValid v)
step-IsValid (configure p) v = host_command-IsValid p v

-- Whatever happens, a reboot timeout that is set stays above the event timeout, so that the delay
-- that the code computes from their difference is positive; and an active detector always has its
-- deferred call pending, with a positive delay: it cannot hang itself.
pub run-IsValid : (es : List Event) {s : Detector} → IsValid s → IsValid (run es s)
unfolding run
run-IsValid [] v = v
run-IsValid (e ∷ es) v = run-IsValid es (step-IsValid e v)

-- A detector that is off and has no timeouts.
pub record IsDisabled (s : Detector) : Type 0 where
  pub inactive : s.active ≡ false
  pub no_event : s.hdparams.host_event_timeout_msec ≡ 0
  pub no_reboot : s.hdparams.warm_reboot_timeout_msec ≡ 0

abbrev pub NoConfigure : List Event → Type 0
NoConfigure [] = Unit
NoConfigure (configure p ∷ es) = ⊥
NoConfigure (_ ∷ es) = NoConfigure es

-- What a quiet step leaves: the detector is off, and neither host nor chipset was told anything.
record Quiet (s s' : Detector) : Type 0 where
  disabled : IsDisabled s'
  same_host : s'.host ≡ s.host
  same_resets : s'.resets ≡ s.resets

fire-Quiet : (d : Option ℕ) {s : Detector} → IsDisabled s → Quiet s (fire d s)
unfolding fire expire
fire-Quiet none q = ground arith
fire-Quiet (some us) q = ground arith

start-Quiet : {s : Detector} → IsDisabled s → Quiet s (start s)
unfolding start
start-Quiet q = ground arith

step-Quiet :
    (e : Event) (es : List Event) {s : Detector}
    → NoConfigure (e ∷ es)
    → IsDisabled s
    → Quiet s (step e s) × NoConfigure es
unfolding step power_button lid resume suspend stop_on_command shutdown stop
step-Quiet timer es {s} n q = (fire-Quiet s.deferred q, n)
step-Quiet (button pressed) es {s} n q = (ground (arith, start-Quiet q), n)
step-Quiet (lid_change is_open) es n q = (ground (arith, start-Quiet q), n)
step-Quiet chipset_resume es n q = (ground (arith, start-Quiet q), n)
step-Quiet chipset_suspend es n q = (ground arith, n)
step-Quiet chipset_shutdown es n q = (ground arith, n)
step-Quiet any_host_command es n q = (ground arith, n)
step-Quiet (configure p) es n q = absurd n

run-Quiet : (es : List Event) {s : Detector} → NoConfigure es → IsDisabled s → Quiet s (run es s)
unfolding run
run-Quiet [] n q = record { disabled = q; same_host = refl; same_resets = refl }
run-Quiet (e ∷ es) n q =
    let (one, n') = step-Quiet e es n q in
    let rest = run-Quiet es n' one.disabled in
    record {
      disabled = rest.disabled;
      same_host = rest.same_host ∙ one.same_host;
      same_resets = rest.same_resets ∙ one.same_resets;
    }

shutdown-IsDisabled : (s : Detector) → IsDisabled (shutdown s)
unfolding shutdown stop
shutdown-IsDisabled s = record { inactive = refl; no_event = refl; no_reboot = refl }

-- After the chipset has shut down, whatever state the detector was in, nothing that happens until
-- the host configures it again makes it send a host event or reset the AP: not even a deferred call
-- that was pending at the shutdown.
pub shutdown_silent :
    (es : List Event) (s : Detector)
    → NoConfigure es
    → ((run es (shutdown s)).host ≡ s.host) × ((run es (shutdown s)).resets ≡ s.resets)
unfolding shutdown stop
shutdown_silent es s n =
    let q = run-Quiet es n (shutdown-IsDisabled s) in (q.same_host, q.same_resets)
