-- ===== src/KeyScan/Pins.antt =====
-- read_matrix of common/keyboard_scan.c against the pins, and what the statics keep of the scans.
use chromium_ec.Common.{
  ℕ, zero, suc, ◌+◌, ◌≤◌, ◌<◌, ◌≡◌, ◌⊎◌, ◌∙◌, refl, sym, ap, Bool, true, false, ◌&&◌, List, [], ◌∷◌,
  arith, ltb, bit_and, bit_or, if◌then◌else◌, ◌==◌, Bool-cases, inl, inr, ℕ_discrete,
}
use chromium_ec.KeyScan.{
  Matrix, State, Config, read_columns, read_matrix, set_at, has_ghosting, check_keys_changed,
  save_time, debounce,
}
use chromium_ec.KeyScan.World.{Seen}
use chromium_ec.KeyScan.Held.{Scan}
use chromium_ec.KeyScan.Debounce.{report-keeps}

-- A scan gets as far as a column: scanning is still enabled there, and was at those before.
abbrev pub reaches : (enabled : ℕ → Bool) → ℕ → Bool
reaches enabled zero = enabled zero
reaches enabled (suc c) = reaches enabled c && enabled (suc c)

-- A key is read as down if it exists and its pin is active or it is simulated.
abbrev pub pins : Seen → Matrix
pins s c = bit_and (bit_or (s.rows c) (s.simulated c)) (s.mask c)

-- The last reading of a column: by the last scan that got as far, and zero if none did.
abbrev pub last_reading : List Seen → Matrix
last_reading [] c = 0
last_reading (s ∷ older) c =
    if ltb c 13 && reaches s.enabled c then pins s c else last_reading older c

-- Each scan with the last readings that stand after it.
abbrev pub scans : List Seen → List Scan
scans [] = []
scans (s ∷ older) = record { time = s.time; matrix = last_reading (s ∷ older) } ∷ scans older

both_true : (a b : Bool) → (a && b) ≡ true → (a ≡ true) × (b ≡ true)
both_true true b h = (refl, h)
both_true false b h = ground (arith, h)

reaches-enabled :
    (enabled : ℕ → Bool) (k j : ℕ) → j ≤ k → reaches enabled k ≡ true → enabled j ≡ true
reaches-enabled enabled zero zero le h = h
reaches-enabled enabled zero (suc j) le h = elim le [ ]
reaches-enabled enabled (suc k) j le h =
    let (before, here) = both_true (reaches enabled k) (enabled (suc k)) h in
    elim (ℕ_discrete j (suc k)) [
      | yes e ↦ rw e here
      | no ne ↦ reaches-enabled enabled k j (omega (arith, ne)) before
    ]

all-reaches :
    (enabled : ℕ → Bool) (k : ℕ) → ((j : ℕ) → j ≤ k → enabled j ≡ true) → reaches enabled k ≡ true
all-reaches enabled zero h = h 0 (omega arith)
all-reaches enabled (suc k) h =
    rw (all-reaches enabled k (λ j le. h j (omega arith)), h (suc k) (omega arith)) refl

module _ (enabled : ℕ → Bool) (rows simulated mask : Matrix) where
  abbrev value : Matrix
  value c = bit_and (bit_or (rows c) (simulated c)) (mask c)

  abbrev columns : (n c pressed : ℕ) → Matrix → Matrix
  columns n c pressed state = (read_columns enabled rows simulated mask n c pressed state).1

  columns-outside :
      (n c pressed k : ℕ) (state : Matrix)
      → (k < c) ⊎ (c + n ≤ k)
      → columns n c pressed state k ≡ state k
  unfolding read_columns
  columns-outside zero c pressed k state h = refl
  columns-outside (suc n) c pressed k state h = elim (Bool-cases (enabled c)) [
    | inr off ↦ rw (columns, off) refl
    | inl on ↦
        let apart : (k == c) ≡ false = ground (arith, h) in
        rw (columns, on)
          (columns-outside n (c + 1) _ k (set_at c (value c) state) (ground (arith, h))
            ∙ rw apart refl)
  ]

  columns-reached :
      (n c pressed k : ℕ) (state : Matrix)
      → c ≤ k
      → k < c + n
      → reaches enabled k ≡ true
      → columns n c pressed state k ≡ value k
  unfolding read_columns
  columns-reached zero c pressed k state low high r = absurd (omega arith)
  columns-reached (suc n) c pressed k state low high r =
      rw (columns, reaches-enabled enabled k c low r)
        (elim (ℕ_discrete k c) [
          | yes e ↦
              let self : (k == c) ≡ true = ground (arith, e) in
              columns-outside n (c + 1) _ k (set_at c (value c) state) (inl (omega (arith, e)))
              ∙ rw self (ap value (sym e))
          | no ne ↦
              columns-reached n (c + 1) _ k (set_at c (value c) state) (omega (arith, ne))
                (omega arith) r
        ])

  columns-stopped :
      (n c pressed k : ℕ) (state : Matrix)
      → ((j : ℕ) → j < c → enabled j ≡ true)
      → reaches enabled k ≡ false
      → columns n c pressed state k ≡ state k
  unfolding read_columns
  columns-stopped zero c pressed k state before r = refl
  columns-stopped (suc n) c pressed k state before r = elim (Bool-cases (enabled c)) [
    | inr off ↦ rw (columns, off) refl
    | inl on ↦
        let so_far : (j : ℕ) → j < c + 1 → enabled j ≡ true = λ j lt. elim (ℕ_discrete j c) [
          | yes e ↦ rw e on
          | no ne ↦ before j (omega (arith, ne))
        ] in
        let apart : (k == c) ≡ false = elim (ℕ_discrete k c) [
          | yes e ↦ ground (arith, r, all-reaches enabled k (λ j le. so_far j (omega (arith, e))))
          | no ne ↦ ground (arith, ne)
        ] in
        rw (columns, on)
          (columns-stopped n (c + 1) _ k (set_at c (value c) state) so_far r ∙ rw apart refl)
  ]

-- What read_matrix stores is the last readings, if what stood there is those before.
read_matrix-last_reading :
    (s : Seen) (older : List Seen) (state : Matrix)
    → state ≡ last_reading older
    → (read_matrix s.enabled s.rows s.simulated s.mask state).1 ≡ last_reading (s ∷ older)
unfolding read_matrix
read_matrix-last_reading s older state e = λ i k. at k i
  where
    at :
        (k : ℕ)
        → (read_columns s.enabled s.rows s.simulated s.mask 13 0 0 state).1 k
          ≡ last_reading (s ∷ older) k
    at k = elim (Bool-cases (ltb k 13)) [
      | inr outside ↦ rw outside (
          columns-outside s.enabled s.rows s.simulated s.mask 13 0 0 k state
            (inr (ground (arith, outside)))
          ∙ ap (λ m. m k) e)
      | inl inside ↦ elim (Bool-cases (reaches s.enabled k)) [
        | inl reached ↦
            rw (inside, reached)
              (columns-reached s.enabled s.rows s.simulated s.mask 13 0 0 k state (omega arith)
                (ground (arith, inside)) reached)
        | inr stopped ↦
            rw (inside, stopped)
              (columns-stopped s.enabled s.rows s.simulated s.mask 13 0 0 k state
                  (λ j lt. elim lt [ ]) stopped
                ∙ ap (λ m. m k) e)
      ]
    ]

new_state-check_keys_changed :
    (config : Config) (now : ℕ) (enabled : ℕ → Bool) (rows : Matrix) (s : State)
    → (check_keys_changed config now enabled rows s).1.new_state
      ≡ (read_matrix enabled rows s.simulated_key config.actual_key_mask s.new_state).1
unfolding check_keys_changed save_time
new_state-check_keys_changed config now enabled rows s =
    let m = (read_matrix enabled rows s.simulated_key config.actual_key_mask s.new_state).1 in
    elim (Bool-cases (has_ghosting m)) [
      | inl ghost ↦ rw ghost refl
      | inr plain ↦ rw plain (
          report-keeps (λ x. x.new_state ≡ m) (λ x polls called e. e) _ _ (unfold debounce in refl))
    ]

-- One scan keeps new_state at the last readings.
pub scan-last_reading :
    (config : Config) (now : ℕ) (enabled : ℕ → Bool) (rows : Matrix) (older : List Seen) (s : State)
    → s.new_state ≡ last_reading older
    → (check_keys_changed config now enabled rows s).1.new_state
      ≡ last_reading (
          record {
            time = now;
            enabled = enabled;
            rows = rows;
            simulated = s.simulated_key;
            mask = config.actual_key_mask;
          }
          ∷ older)
scan-last_reading config now enabled rows older s e =
    new_state-check_keys_changed config now enabled rows s
    ∙ read_matrix-last_reading
        (record {
          time = now;
          enabled = enabled;
          rows = rows;
          simulated = s.simulated_key;
          mask = config.actual_key_mask;
        })
        older s.new_state e
