-- ===== src/Mkbp/Fifo/Held.antt =====
-- The states of common/keyboard_mkbp.c that hold an abstract sequence, and what adding, reading and
-- clearing do to them.
use chromium_ec.Common.{
  length-replicate, ℕ, ◌-◌, ◌≤◌, ◌<◌, ◌≡◌, refl, ap, ap₂, ◌∙◌, sym, Bool, true, false, List, [],
  ◌∷◌, ◌++◌, arith, leb, nonzero, if◌then◌else◌, length, get_or, replicate, bit_and,
  length-run_from, Bool-cases, inl, inr,
}
use chromium_ec.Common.Bits.{test_bit, nonzero-bit_and}
use chromium_ec.Mkbp.{Mkbp, fifo_add, fifo_remove, clear_buffer, get_scan, send_battery_key}
use chromium_ec.Mkbp.Ring.{
  IsRing, scans, before, pushed, popped, pushed-IsRing, popped-IsRing, scans-pushed, scans-popped,
  before-pushed, before-popped,
}
use chromium_ec.Mkbp.Fifo.{Spec, spec_add, spec_get_from, spec_add_when, with_battery_key}

-- The state implements the abstract one. The valid bits are those the firmware starts with, and
-- nothing changes them.
pub record Holds (s : Spec) (m : Mkbp) : Type 0 where
  pub ring : IsRing m
  pub queue_is : scans m ≡ s.queue
  pub last_is : m.fifo_entries < 16 → before m ≡ s.last
  pub enabled_is : test_bit m.config.flags 0 ≡ s.enabled
  pub depth_is : m.config.fifo_max_depth ≡ s.depth
  pub depth_in : s.depth ≤ 16
  pub line_is : m.line_active ≡ s.line
  pub valid_mask_is : m.config.valid_mask ≡ 251
  pub valid_flags_is : m.config.valid_flags ≡ 1

entries-Holds : {s : Spec} {m : Mkbp} → Holds s m → m.fifo_entries ≡ length s.queue
entries-Holds {m = m} h =
    sym (length-run_from [] m.fifo 16 m.fifo_start m.fifo_entries) ∙ ap length h.queue_is

enabled-Holds : {s : Spec} {m : Mkbp} → Holds s m → nonzero (bit_and m.config.flags 1) ≡ s.enabled
enabled-Holds {m = m} h = nonzero-bit_and m.config.flags 0 ∙ h.enabled_is

-- A state with room, before and after a scan is added.
pushed-Holds :
    (x : List ℕ) {s : Spec} {m : Mkbp}
    → Holds s m
    → m.fifo_entries < 16
    → Holds (record s { queue = s.queue ++ (x ∷ []); line = true }) (pushed x m)
pushed-Holds x {s} {m} h room = record {
  ring = pushed-IsRing x h.ring room;
  queue_is = scans-pushed x h.ring room ∙ ap (λ q. q ++ (x ∷ [])) h.queue_is;
  last_is = λ more. before-pushed x h.ring more ∙ h.last_is room;
  enabled_is = h.enabled_is;
  depth_is = h.depth_is;
  depth_in = h.depth_in;
  line_is = refl;
  valid_mask_is = h.valid_mask_is;
  valid_flags_is = h.valid_flags_is;
}

add_when-Holds :
    (b : Bool) (x : List ℕ) {s : Spec} {m : Mkbp}
    → nonzero (bit_and m.config.flags 1) ≡ b
    → Holds s m
    → ((fifo_add x m).0 ≡ (spec_add_when b x s).0) × Holds (spec_add_when b x s).1 (fifo_add x m).1
unfolding fifo_add
add_when-Holds false x e h = rw e (refl, h)
add_when-Holds true x {s} {m} e h = elim (Bool-cases (leb s.depth (length s.queue))) [
  | inl full ↦ rw (e, full, ap₂ leb h.depth_is (entries-Holds h) ∙ full) (refl, h)
  | inr room ↦
      rw (e, room, ap₂ leb h.depth_is (entries-Holds h) ∙ room)
        (refl, pushed-Holds x h (ground (arith, room, h.depth_in, entries-Holds h)))
]

pub add-Holds :
    (x : List ℕ) {s : Spec} {m : Mkbp}
    → Holds s m
    → ((fifo_add x m).0 ≡ (spec_add x s).0) × Holds (spec_add x s).1 (fifo_add x m).1
add-Holds x {s} h = add_when-Holds s.enabled x (enabled-Holds h) h

-- Reading a scan: what it takes from the ring, and how it leaves the line.
popped-Holds :
    (b b' : Bool) {x : List ℕ} {q : List (List ℕ)} {s : Spec} {m : Mkbp}
    → b' ≡ b
    → scans m ≡ x ∷ q
    → 0 < m.fifo_entries
    → Holds s m
    → (get_or m.fifo m.fifo_start [] ≡ x)
      × Holds (record s { queue = q; last = x; line = b }) (record (popped m) { line_active = b' })
popped-Holds b b' {x} {q} {s} {m} same e some h =
    let both : get_or m.fifo m.fifo_start [] ∷ scans (popped m) ≡ x ∷ q =
      sym (scans-popped h.ring some) ∙ e in
    let front : get_or m.fifo m.fifo_start [] ≡ x = ground (arith, both) in
    let ring = popped-IsRing h.ring some in
    (
      front,
      record {
        ring = record {
          storage = ring.storage;
          start_in = ring.start_in;
          entries_in = ring.entries_in;
          end_is = ring.end_is;
        };
        queue_is = ground (arith, both);
        last_is = λ more. before-popped h.ring ∙ front;
        enabled_is = h.enabled_is;
        depth_is = h.depth_is;
        depth_in = h.depth_in;
        line_is = same;
        valid_mask_is = h.valid_mask_is;
        valid_flags_is = h.valid_flags_is;
      },
    )

pub get_from-Holds :
    (q : List (List ℕ)) {s : Spec} {m : Mkbp}
    → s.queue ≡ q
    → Holds s m
    → ((get_scan m).0 ≡ (spec_get_from q s).0) × Holds (spec_get_from q s).1 (get_scan m).1
unfolding get_scan fifo_remove
get_from-Holds [] {s} {m} e h =
    let none : nonzero m.fifo_entries ≡ false = ground (arith, entries-Holds h, ap length e) in
    rw (none, none)
      (
        h.last_is (ground (arith, none)),
        record {
          ring = record {
            storage = h.ring.storage;
            start_in = h.ring.start_in;
            entries_in = h.ring.entries_in;
            end_is = h.ring.end_is;
          };
          queue_is = h.queue_is;
          last_is = h.last_is;
          enabled_is = h.enabled_is;
          depth_is = h.depth_is;
          depth_in = h.depth_in;
          line_is = refl;
          valid_mask_is = h.valid_mask_is;
          valid_flags_is = h.valid_flags_is;
        },
      )
get_from-Holds (x ∷ []) {s} {m} e h =
    let some : nonzero m.fifo_entries ≡ true = ground (arith, entries-Holds h, ap length e) in
    let one : nonzero (m.fifo_entries - 1) ≡ false = ground (arith, entries-Holds h, ap length e) in
    rw (some, one)
      (popped-Holds false false refl (h.queue_is ∙ e) (omega (arith, entries-Holds h, ap length e))
        h)
get_from-Holds (x ∷ y ∷ q) {s} {m} e h =
    let some : nonzero m.fifo_entries ≡ true = ground (arith, entries-Holds h, ap length e) in
    let one : nonzero (m.fifo_entries - 1) ≡ true = ground (arith, entries-Holds h, ap length e) in
    rw (some, one)
      (popped-Holds s.line m.line_active h.line_is (h.queue_is ∙ e)
        (omega (arith, entries-Holds h, ap length e)) h)

-- Clearing.
pub clear-Holds :
    {s : Spec} {m : Mkbp}
    → Holds s m
    → Holds (record s { queue = []; last = replicate 13 0 }) (clear_buffer m)
unfolding clear_buffer
clear-Holds h = record {
  ring = record {
    storage = length-replicate 16 (replicate {A = ℕ} 13 0);
    start_in = omega arith;
    entries_in = omega arith;
    end_is = omega arith;
  };
  queue_is = refl;
  last_is = λ more. refl;
  enabled_is = h.enabled_is;
  depth_is = h.depth_is;
  depth_in = h.depth_in;
  line_is = h.line_is;
  valid_mask_is = h.valid_mask_is;
  valid_flags_is = h.valid_flags_is;
}

pub battery-Holds :
    (x : List ℕ) (is_on : Bool) {s : Spec} {m : Mkbp}
    → Holds s m
    → Holds (if is_on then (spec_add (with_battery_key x) s).1 else s) (send_battery_key x is_on m)
unfolding send_battery_key
battery-Holds x true h = (add-Holds (with_battery_key x) h).1
battery-Holds x false h = h
