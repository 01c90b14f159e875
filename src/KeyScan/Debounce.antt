-- ===== src/KeyScan/Debounce.antt =====
-- One scan of common/keyboard_scan.c, from the stamp of its time to the report: what it keeps, and
-- the keys that it changes.
use chromium_ec.Common.{
  ℕ, ◌+◌, ◌-◌, ◌%◌, ◌^◌, ◌≤◌, ◌<◌, ◌≡◌, ◌⊎◌, inl, inr, refl, Bool, true, false, not, List, ◌∷◌,
  arith, leb, ◌==◌, if◌then◌else◌, nonzero, Bool-cases,
}
use chromium_ec.Common.Bits.{test_bit}
use chromium_ec.KeyScan.{
  Matrix, Config, State, Reading, notice_all, has_ghosting, save_time, read_matrix, debounce,
  report, check_keys_changed, check_runtime_keys, debounce_us, Noticed, Call, scan_time_count,
}
use chromium_ec.KeyScan.Held.{Scan, Held, Since, Held-mono}
use chromium_ec.KeyScan.Notice.{notice_all-Done}
use chromium_ec.KeyScan.Settle.{settle_all-Column}

-- The time that `b` is debounced for has passed since the key has it.
abbrev pub Settles : Config → (now : ℕ) → List Scan → (c i : ℕ) → Bool → Type 0
Settles config now seen c i b =
    (debounce_us config b ≤ now) × Held c i b (now - debounce_us config b) seen

-- A key that is being debounced has been held since its stamp at the latest; any other has the
-- value that was read last.
pub record IsDebounced (now : ℕ) (seen : List Scan) (s : State) (c : ℕ) : Type 0 where
  pub pending :
      (i : ℕ)
      → test_bit (s.debouncing c) i ≡ true
      → i < 8
      → Since now seen c i (test_bit (s.prev_state c) i) (s.scan_time (s.scan_edge_index c i))
  pub agreed :
      (i : ℕ)
      → test_bit (s.debouncing c) i ≡ false
      → i < 8
      → test_bit (s.debounced_state c) i ≡ test_bit (s.prev_state c) i

-- The slot that the scan writes may be one that a key waits on: its wait starts again.
Since-save :
    (now next index c i slot : ℕ) (b : Bool) (seen : List Scan) (time : ℕ → ℕ)
    → now ≤ next
    → Since now seen c i b (time slot)
    → Since next seen c i b (if slot == index then next % 2 ^ 32 else time slot)
Since-save now next index c i slot b seen time le s = elim (Bool-cases (slot == index)) [
  | inl hit ↦ rw hit (record {
    start = next;
    stamped = refl;
    past = omega arith;
    held = Held-mono c i b s.start next seen (omega (arith, s.past)) s.held;
  })
  | inr miss ↦
      rw miss (record {
        start = s.start;
        stamped = s.stamped;
        past = omega (arith, s.past);
        held = s.held;
      })
]

save_time-IsDebounced :
    (now next c : ℕ) (seen : List Scan) (s : State)
    → now ≤ next
    → IsDebounced now seen s c
    → IsDebounced next seen (save_time next s) c
unfolding save_time
save_time-IsDebounced now next c seen s le v = record {
  pending = λ i on row.
      Since-save now next _ c i (s.scan_edge_index c i) (test_bit (s.prev_state c) i) seen
        s.scan_time le (v.pending i on row);
  agreed = v.agreed;
}

save_time-stamp :
    (now : ℕ) (s : State)
    → (save_time now s).scan_time (save_time now s).scan_time_index ≡ now % 2 ^ 32
unfolding save_time
save_time-stamp now s =
    let index = if leb scan_time_count (s.scan_time_index + 1) then 0 else s.scan_time_index + 1 in
    let same : (index == index) ≡ true = ground arith in rw same refl

-- What a scan makes of a column: it stays valid, and a key has changed only if it settles.
pub record Scanned (config : Config) (now : ℕ) (seen : List Scan) (before : Matrix) (s' : State)
    (c : ℕ) : Type 0 where
  pub valid : IsDebounced now seen s' c
  pub changed :
      (i : ℕ)
      → i < 8
      → (test_bit (s'.debounced_state c) i ≡ test_bit (before c) i)
        ⊎ Settles config now seen c i (test_bit (s'.debounced_state c) i)

ghosted :
    (config : Config) (now c : ℕ) (seen : List Scan) (s : State) (m : Matrix)
    → has_ghosting m ≡ true
    → IsDebounced now seen s c
    → Scanned config now
        (record { time = now; matrix = m } ∷ seen)
        s.debounced_state
        (record s { new_state = m })
        c
ghosted config now c seen s m ghost v = record {
  valid = record {
    pending = λ i on row.
        let k = v.pending i on row in
        record {
          start = k.start;
          stamped = k.stamped;
          past = k.past;
          held = inr (inl ghost, k.held);
        };
    agreed = v.agreed;
  };
  changed = λ i row. inl refl;
}

debounced :
    (config : Config) (now c : ℕ) (seen : List Scan) (s : State)
    → s.scan_time s.scan_time_index ≡ now % 2 ^ 32
    → c < 13
    → IsDebounced now seen s c
    → Scanned config now
        (record { time = now; matrix = (debounce config now s).1.new_state } ∷ seen)
        s.debounced_state
        (debounce config now s).1
        c
unfolding debounce
debounced config now c seen s stamp col v =
    let seen' : List Scan = record { time = now; matrix = s.new_state } ∷ seen in
    let start : Noticed = record {
      edge = s.scan_edge_index;
      debouncing = s.debouncing;
      prev = s.prev_state;
    } in
    let n = notice_all s.new_state s.scan_time_index 13 0 start in
    let d =
      notice_all-Done now s.scan_time_index s.new_state s.scan_time seen stamp s.debounced_state c
        13 0 start (omega arith) (omega arith) v.pending v.agreed in
    let r : Reading = record {
      config = config;
      enabled = not (nonzero s.disable_scanning_mask);
      now = now;
      new = s.new_state;
      time = s.scan_time;
      edge = n.edge;
    } in
    let k =
      settle_all-Column r seen' s.debounced_state n.prev c 13 0
        (record {
          debouncing = n.debouncing;
          state = s.debounced_state;
          any_change = false;
          calls = s.calls;
        })
        d.is_read
        (record { pending = d.pending; agreed = d.agreed; changed = λ i row. inl refl }) in
    record { valid = record { pending = k.pending; agreed = k.agreed }; changed = k.changed }

-- The report of a change leaves the matrices and the times.
pub report-keeps :
    (P : State → Type 0)
    → ((s : State) (polls : ℕ) (called : List Call)
        → P s
        → P (record s { kbd_polls = polls; calls = called }))
    → (changed : Bool) (s : State) → P s
    → P (report changed s).1
unfolding report
report-keeps P keep false s h = keep s (s.kbd_polls + 1) s.calls h
report-keeps P keep true s h = elim (Bool-cases (check_runtime_keys s.debounced_state).0) [
  | inl special ↦ rw special (keep s s.kbd_polls _ h)
  | inr plain ↦ rw plain (keep s (s.kbd_polls + 1) _ h)
]

-- One scan.
pub scan-Scanned :
    (config : Config) (now next c : ℕ) (enabled : ℕ → Bool) (rows : Matrix) (seen : List Scan)
    (s : State)
    → now ≤ next
    → c < 13
    → IsDebounced now seen s c
    → let s' = (check_keys_changed config next enabled rows s).1 in
      Scanned config next
        (record { time = next; matrix = s'.new_state } ∷ seen)
        s.debounced_state
        s'
        c
unfolding check_keys_changed save_time
scan-Scanned config now next c enabled rows seen s le col v =
    let s1 = save_time next s in
    let valid = save_time-IsDebounced now next c seen s le v in
    let m = (read_matrix enabled rows s1.simulated_key config.actual_key_mask s1.new_state).1 in
    elim (Bool-cases (has_ghosting m)) [
      | inl ghost ↦ rw ghost (ghosted config next c seen s1 m ghost valid)
      | inr plain ↦ rw plain (
          report-keeps
            (λ x.
              Scanned config next (record { time = next; matrix = x.new_state } ∷ seen)
                s.debounced_state x c)
            (λ x polls called k. record {
              valid = record { pending = k.valid.pending; agreed = k.valid.agreed };
              changed = k.changed;
            })
            (debounce config next (record s1 { new_state = m })).0
            (debounce config next (record s1 { new_state = m })).1
            (debounced config next c seen (record s1 { new_state = m }) (save_time-stamp next s) col
              (record { pending = valid.pending; agreed = valid.agreed })))
    ]
