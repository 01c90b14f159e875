-- ===== src/Mkbp/Ring.antt =====
-- The scans that the ring of common/keyboard_mkbp.c holds, and how one goes in and out.
use chromium_ec.Common.{
  ℕ, suc, ◌+◌, ◌-◌, ◌%◌, ◌≤◌, ◌<◌, ◌≡◌, ap, ◌∙◌, true, List, [], ◌∷◌, ◌++◌, arith, length, get_or,
  set, get_or-set_ne, length-set, run_from, run_from-set, run_from-pos,
}
use chromium_ec.Mkbp.{Mkbp}

-- What the indices always keep.
pub record IsRing (m : Mkbp) : Type 0 where
  pub storage : length m.fifo ≡ 16
  pub start_in : m.fifo_start < 16
  pub entries_in : m.fifo_entries ≤ 16
  pub end_is : m.fifo_end ≡ (m.fifo_start + m.fifo_entries) % 16

-- The scans, oldest first.
abbrev pub scans : Mkbp → List (List ℕ)
scans m = run_from [] m.fifo 16 m.fifo_start m.fifo_entries

-- The scan that `kb_fifo_remove` gives when the ring is empty: the one before the first entry.
abbrev pub before : Mkbp → List ℕ
before m = get_or m.fifo ((m.fifo_start + 16 - 1) % 16) []

-- The state after the writes of `keyboard_fifo_add`.
abbrev pub pushed : List ℕ → Mkbp → Mkbp
pushed x m = record m {
  fifo = set m.fifo m.fifo_end x;
  fifo_end = (m.fifo_end + 1) % 16;
  fifo_entries = m.fifo_entries + 1;
  line_active = true;
}

-- The state after the writes of `kb_fifo_remove`.
abbrev pub popped : Mkbp → Mkbp
popped m = record m { fifo_start = (m.fifo_start + 1) % 16; fifo_entries = m.fifo_entries - 1 }

pub pushed-IsRing : (x : List ℕ) {m : Mkbp} → IsRing m → m.fifo_entries < 16 → IsRing (pushed x m)
pushed-IsRing x {m} r room = record {
  storage = length-set m.fifo m.fifo_end x ∙ r.storage;
  start_in = r.start_in;
  entries_in = omega arith;
  end_is = omega (arith, r.end_is);
}

pub popped-IsRing : {m : Mkbp} → IsRing m → 0 < m.fifo_entries → IsRing (popped m)
popped-IsRing {m} r some = record {
  storage = r.storage;
  start_in = omega arith;
  entries_in = omega (arith, r.entries_in);
  end_is = omega (arith, r.end_is, r.start_in);
}

-- An added scan is the last.
pub scans-pushed :
    (x : List ℕ) {m : Mkbp}
    → IsRing m
    → m.fifo_entries < 16
    → scans (pushed x m) ≡ scans m ++ (x ∷ [])
scans-pushed x {m} r room =
    ap (run_from [] (set m.fifo m.fifo_end x) 16 m.fifo_start) {y = suc m.fifo_entries}
      (omega arith)
    ∙ run_from-set [] m.fifo 16 m.fifo_end x m.fifo_entries m.fifo_start r.storage r.start_in
        (omega (arith, r.end_is)) (ground (arith, r.end_is, r.start_in))

-- The scan before the first is not written over while an entry is free.
pub before-pushed :
    (x : List ℕ) {m : Mkbp} → IsRing m → m.fifo_entries + 1 < 16 → before (pushed x m) ≡ before m
before-pushed x {m} r room =
    get_or-set_ne m.fifo m.fifo_end ((m.fifo_start + 16 - 1) % 16) x []
      (λ e. omega (arith, e, r.end_is, r.start_in))

-- A removed scan is the first, and is then the one before the first.
pub scans-popped :
    {m : Mkbp}
    → IsRing m
    → 0 < m.fifo_entries
    → scans m ≡ get_or m.fifo m.fifo_start [] ∷ scans (popped m)
scans-popped {m} r some = run_from-pos [] m.fifo 16 m.fifo_start m.fifo_entries some

pub before-popped : {m : Mkbp} → IsRing m → before (popped m) ≡ get_or m.fifo m.fifo_start []
before-popped {m} r = ap (λ i. get_or m.fifo i []) {y = m.fifo_start} (omega (arith, r.start_in))
