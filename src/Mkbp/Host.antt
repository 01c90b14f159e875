-- ===== src/Mkbp/Host.antt =====
-- keyboard_get_scan of common/keyboard_mkbp.c step by step: the scanning task, which has a higher
-- priority, may add scans between its steps. kb_fifo_remove runs whole, and so do the calls.
use chromium_ec.Common.{
  ◌≡◌, refl, Bool, true, false, ◌&&◌, ◌||◌, if◌then◌else◌, List, [], ◌∷◌, nonzero, Bool-cases, inl,
  inr,
}
use chromium_ec.Mkbp.{Mkbp, fifo_remove, get_scan, set_host_interrupt}
use chromium_ec.Mkbp.Fifo.{Op, add, battery, get, clear, configure, step}

-- Where the task of the host commands is in keyboard_get_scan: not in it, before the test of the
-- count, or after a test that found no scan and before it makes the line inactive.
pub data Point : Type 0 where
  outside removed empty : Point

pub record Host : Type 0 where
  pub mkbp : Mkbp
  pub point : Point

-- The next step of keyboard_get_scan.
unfoldable pub host_step : Host → Host
host_step t = elim t.point [
  | outside ↦ record { mkbp = (fifo_remove t.mkbp).2; point = removed }
  | removed ↦ record {
    mkbp = t.mkbp;
    point = if nonzero t.mkbp.fifo_entries then outside else empty;
  }
  | empty ↦ record { mkbp = set_host_interrupt false t.mkbp; point = outside }
]

-- A whole call, or a step of keyboard_get_scan.
pub data Event : Type 0 where
  call : Op → Event
  host : Event

abbrev pub advance : Event → Host → Host
advance (call op) t = record t { mkbp = (step op t.mkbp).1 }
advance host t = host_step t

abbrev pub after : List Event → Host → Host
after [] t = t
after (e ∷ es) t = after es (advance e t)

abbrev pub is_add : Event → Bool
is_add (call (add x)) = true
is_add (call (battery x is_on)) = true
is_add (call get) = false
is_add (call clear) = false
is_add (call (configure req)) = false
is_add host = false

abbrev pub is_empty : Point → Bool
is_empty outside = false
is_empty removed = false
is_empty empty = true

-- At some event a scan is added between the test of keyboard_get_scan and its clearing of the line.
abbrev pub has_race : List Event → Host → Bool
has_race [] t = false
has_race (e ∷ es) t = (is_add e && is_empty t.point) || has_race es (advance e t)

-- The steps of keyboard_get_scan, with nothing between them, are `get_scan`.
pub get_scan-host_step :
    (m : Mkbp)
    → let twice = after (host ∷ host ∷ []) (record { mkbp = m; point = outside }) in
      (if is_empty twice.point then host_step twice else twice)
      ≡ record { mkbp = (get_scan m).1; point = outside }
unfolding get_scan host_step
get_scan-host_step m = elim (Bool-cases (nonzero (fifo_remove m).2.fifo_entries)) [
  | inl more ↦ rw more refl
  | inr none_left ↦ rw none_left refl
]
