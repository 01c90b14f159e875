-- ===== src/HangDetect/Timing.antt =====
-- When the hang detector of common/ap_hang_detect.c tells the host, and when it resets the AP.
use chromium_ec.Common.{◌+◌, ◌-◌, ◌*◌, ◌<◌, ◌≡◌, false, some, arith}
use chromium_ec.HostEvent.{set_single_event}
use chromium_ec.HangDetect.{
  Detector, expire, start, fire, step, timer, msec, hang_detect_event, hang_reboot_event,
}
use chromium_ec.HangDetect.Safety.{IsValid}

-- From a valid detector that is not active and has both timeouts: once it starts and nothing else
-- happens, its two deferred calls set the hang event and then the reboot event, in that order and
-- nothing else, and reset the AP once; the two delays add up to exactly the reboot timeout; and the
-- detector ends inactive.
pub start_then_reboot :
    (s : Detector)
    → IsValid s
    → s.active ≡ false
    → 0 < s.hdparams.host_event_timeout_msec
    → 0 < s.hdparams.warm_reboot_timeout_msec
    → let started = start s in
      let told = step timer started in
      let rebooted = step timer told in
      (started.deferred ≡ some (s.hdparams.host_event_timeout_msec * msec))
      × (told.deferred
          ≡ some
              ((s.hdparams.warm_reboot_timeout_msec - s.hdparams.host_event_timeout_msec) * msec))
      × (s.hdparams.host_event_timeout_msec * msec
            + (s.hdparams.warm_reboot_timeout_msec - s.hdparams.host_event_timeout_msec) * msec
          ≡ s.hdparams.warm_reboot_timeout_msec * msec)
      × (told.host ≡ set_single_event hang_detect_event s.host)
      × (told.resets ≡ s.resets)
      × (rebooted.host
          ≡ set_single_event hang_reboot_event (set_single_event hang_detect_event s.host))
      × (rebooted.resets ≡ s.resets + 1)
      × (rebooted.active ≡ false)
unfolding start step fire expire
start_then_reboot s v off ev wr = ground arith
