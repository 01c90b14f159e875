-- ===== src/Mkbp/Signal.antt =====
-- What the host can rely on between the calls of common/keyboard_mkbp.c, where the task of the host
-- commands may be interrupted inside keyboard_get_scan.
use chromium_ec.Common.{◌≤◌, ◌<◌, ◌≡◌, ◌≢◌, true}
use chromium_ec.Mkbp.{Mkbp}
use chromium_ec.Mkbp.Host.{outside, empty, Host}

-- The line is active while scans wait, no more wait than the ring stores, and the configuration is
-- within its limits.
pub record IsServed (m : Mkbp) : Type 0 where
  pub signalled : 0 < m.fifo_entries → m.line_active ≡ true
  pub entries_in : m.fifo_entries ≤ 16
  pub depth_in : m.config.fifo_max_depth ≤ 16
  pub delay_in : 200 ≤ m.config.scan.min_post_scan_delay_us

-- The state of the task fits: it is past a test that found no scan only while none waits.
pub record IsHeld (t : Host) : Type 0 where
  pub served : IsServed t.mkbp
  pub none_left : t.point ≡ empty → t.mkbp.fifo_entries ≡ 0

pub outside-empty : outside ≢ empty
outside-empty e = cc
