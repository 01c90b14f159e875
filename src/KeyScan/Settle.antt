-- ===== src/KeyScan/Settle.antt =====
-- The loop of check_keys_changed in common/keyboard_scan.c over the keys that are being debounced:
-- a key that has waited for its time is settled.
use chromium_ec.Common.{
  ℕ, zero, suc, ◌+◌, ◌-◌, ◌^◌, ◌≤◌, ◌<◌, ◌≡◌, ◌≢◌, ◌⊎◌, inl, inr, refl, sym, ◌∙◌, Bool, true, false,
  not, List, arith, ltb, ◌==◌, nonzero, bit_and, bit_xor, Bool-cases, ℕ_discrete,
}
use chromium_ec.Common.Bits.{
  test_bit, nonzero-bit_and, bit_and-pow, pow-pos, test_bit-clear, complement,
}
use chromium_ec.Common.Bits.Xor.{test_bit-flip}
use chromium_ec.KeyScan.{
  Matrix, Settled, Reading, settle, settle_rows, settle_all, waited, debounce_us,
}
use chromium_ec.KeyScan.Held.{Scan, Held, Since, Since-waited, Held-mono}

-- The key is settled: it takes the value that was read.
record IsSettled (r : Reading) (c debc i : ℕ) (s : Settled) : Type 0 where
  was_on : test_bit debc i ≡ true
  long : debounce_us r.config (test_bit (r.new c) i) ≤ waited r c i
  debouncing : (settle r c debc i s).debouncing c ≡ bit_and (s.debouncing c) (complement 8 (2 ^ i))
  taken : test_bit ((settle r c debc i s).state c) i ≡ test_bit (r.new c) i
  others : (j : ℕ) → i ≢ j → test_bit ((settle r c debc i s).state c) j ≡ test_bit (s.state c) j

ltb-le : {a b : ℕ} → ltb a b ≡ false → b ≤ a
ltb-le h = ground (arith, h)

-- The test of the code for a change, on one bit.
same_bit :
    (x y i : ℕ) → (bit_and x (2 ^ i) == bit_and y (2 ^ i)) ≡ true → test_bit x i ≡ test_bit y i
same_bit x y i h = ground (arith, h, bit_and-pow x i, bit_and-pow y i, pow-pos i)

other_bit :
    (x y i : ℕ)
    → (bit_and x (2 ^ i) == bit_and y (2 ^ i)) ≡ false
    → not (test_bit x i) ≡ test_bit y i
other_bit x y i h = ground (arith, h, bit_and-pow x i, bit_and-pow y i, pow-pos i)

flip_self : (x i : ℕ) → test_bit (bit_xor x (2 ^ i)) i ≡ not (test_bit x i)
flip_self x i = let same : (i == i) ≡ true = ground arith in test_bit-flip x i i ∙ rw same refl

flip_ne : (x i j : ℕ) → i ≢ j → test_bit (bit_xor x (2 ^ i)) j ≡ test_bit x j
flip_ne x i j ne =
    let other : (i == j) ≡ false = ground (arith, ne) in test_bit-flip x i j ∙ rw other refl

settle-cases :
    (r : Reading) (c debc i : ℕ) (s : Settled) → (settle r c debc i s ≡ s) ⊎ IsSettled r c debc i s
unfolding settle
settle-cases r c debc i s = elim (Bool-cases (nonzero (bit_and debc (2 ^ i)))) [
  | inr off ↦ inl (rw off refl)
  | inl on ↦
      elim (Bool-cases
        (ltb (waited r c i) (debounce_us r.config (nonzero (bit_and (r.new c) (2 ^ i)))))) [
          | inl early ↦ inl (rw (on, early) refl)
          | inr due ↦
              let self : (c == c) ≡ true = ground arith in
              let was_on : test_bit debc i ≡ true = sym (nonzero-bit_and debc i) ∙ on in
              let reads = nonzero-bit_and (r.new c) i in
              let long : debounce_us r.config (test_bit (r.new c) i) ≤ waited r c i =
                ltb-le (rw reads at due) in
              elim (Bool-cases (bit_and (s.state c) (2 ^ i) == bit_and (r.new c) (2 ^ i))) [
                | inl same ↦ inr (record {
                  was_on = was_on;
                  long = long;
                  debouncing = rw (on, due, same, self) refl;
                  taken = rw (on, due, same) (same_bit (s.state c) (r.new c) i same);
                  others = λ j ne. rw (on, due, same) refl;
                })
                | inr other ↦ inr (record {
                  was_on = was_on;
                  long = long;
                  debouncing = rw (on, due, other, self) refl;
                  taken =
                      rw (on, due, other, self)
                        (flip_self (s.state c) i ∙ other_bit (s.state c) (r.new c) i other);
                  others = λ j ne. rw (on, due, other, self) (flip_ne (s.state c) i j ne);
                })
              ]
        ]
]

settle-other :
    (P : ℕ → ℕ → Type 0) (r : Reading) (k c debc i : ℕ) (s : Settled)
    → k ≢ c
    → P (s.debouncing k) (s.state k)
    → P ((settle r c debc i s).debouncing k) ((settle r c debc i s).state k)
unfolding settle
settle-other P r k c debc i s ne h =
    let apart : (k == c) ≡ false = ground (arith, ne) in
    elim (Bool-cases (nonzero (bit_and debc (2 ^ i)))) [
      | inr off ↦ rw off h
      | inl on ↦
          elim (Bool-cases
            (ltb (waited r c i) (debounce_us r.config (nonzero (bit_and (r.new c) (2 ^ i)))))) [
              | inl early ↦ rw (on, early) h
              | inr due ↦
                  elim (Bool-cases (bit_and (s.state c) (2 ^ i) == bit_and (r.new c) (2 ^ i))) [
                    | inl same ↦ rw (on, due, same, apart) h
                    | inr other ↦ rw (on, due, other, apart) h
                  ]
            ]
    ]

-- `before` is the debounced state at the start of the scan, `prev` the raw state that was just
-- saved.
module _ (r : Reading) (seen : List Scan) (before prev : Matrix) where
  -- The time that a value is debounced for has passed since the key has it.
  abbrev pub Settles : (c i : ℕ) → Bool → Type 0
  Settles c i b =
      (debounce_us r.config b ≤ r.now) × Held c i b (r.now - debounce_us r.config b) seen

  abbrev pub Pends : (c i : ℕ) → Type 0
  Pends c i = Since r.now seen c i (test_bit (prev c) i) (r.time (r.edge c i))

  -- What holds of a column, of which `deb` is debounced and `state` is settled.
  pub record ColumnOf (c deb state : ℕ) : Type 0 where
    pub pending : (i : ℕ) → test_bit deb i ≡ true → i < 8 → Pends c i
    pub agreed : (i : ℕ) → test_bit deb i ≡ false → i < 8 → test_bit state i ≡ test_bit (prev c) i
    pub changed :
        (i : ℕ)
        → i < 8
        → (test_bit state i ≡ test_bit (before c) i) ⊎ Settles c i (test_bit state i)

  abbrev pub Column : ℕ → Settled → Type 0
  Column c s = ColumnOf c (s.debouncing c) (s.state c)

  Pends-Settles :
      (c i : ℕ)
      → Pends c i
      → test_bit (prev c) i ≡ test_bit (r.new c) i
      → debounce_us r.config (test_bit (r.new c) i) ≤ waited r c i
      → Settles c i (test_bit (r.new c) i)
  Pends-Settles c i p e long =
      let d = debounce_us r.config (test_bit (r.new c) i) in
      let passed : p.start + d ≤ r.now =
        Since-waited r.now p.start d p.past (rw p.stamped at long) in
      let held : Held c i (test_bit (r.new c) i) p.start seen = rw e at p.held in
      (
        omega (arith, passed),
        Held-mono c i (test_bit (r.new c) i) p.start (r.now - d) seen (omega (arith, passed)) held,
      )

  settle-Column :
      (c debc i : ℕ) (s : Settled)
      → i < 8
      → (test_bit debc i ≡ true → Pends c i)
      → ((j : ℕ) → j < 8 → test_bit (prev c) j ≡ test_bit (r.new c) j)
      → Column c s
      → Column c (settle r c debc i s)
  settle-Column c debc i s row due is_read k = elim (settle-cases r c debc i s) [
    | inl e ↦ rw e k
    | inr d ↦ record {
      pending = λ j on h.
          k.pending j
            (ground (arith, rw d.debouncing at on, test_bit-clear 8 (s.debouncing c) i j row h)) h;
      agreed = λ j off h. elim (ℕ_discrete i j) [
        | yes e ↦ rw (← e) (d.taken ∙ sym (is_read i row))
        | no ne ↦
            d.others j ne
            ∙ k.agreed j
                (ground
                  (arith, ne, rw d.debouncing at off, test_bit-clear 8 (s.debouncing c) i j row h))
                h
      ];
      changed = λ j h. elim (ℕ_discrete i j) [
        | yes e ↦
            rw (← e) (inr (rw d.taken (Pends-Settles c i (due d.was_on) (is_read i row) d.long)))
        | no ne ↦ rw (d.others j ne) (k.changed j h)
      ];
    }
  ]

  settle_rows-Column :
      (c debc n i : ℕ) (s : Settled)
      → i + n ≤ 8
      → ((j : ℕ) → test_bit debc j ≡ true → j < 8 → Pends c j)
      → ((j : ℕ) → j < 8 → test_bit (prev c) j ≡ test_bit (r.new c) j)
      → Column c s
      → Column c (settle_rows r c debc n i s)
  unfolding settle_rows
  settle_rows-Column c debc zero i s h due is_read k = k
  settle_rows-Column c debc (suc n) i s h due is_read k =
      settle_rows-Column c debc n (i + 1) (settle r c debc i s) (omega arith) due is_read
        (settle-Column c debc i s (omega arith) (λ on. due i on (omega arith)) is_read k)

  settle_rows-other :
      (k c debc n i : ℕ) (s : Settled) → k ≢ c → Column k s → Column k (settle_rows r c debc n i s)
  unfolding settle_rows
  settle_rows-other k c debc zero i s ne h = h
  settle_rows-other k c debc (suc n) i s ne h =
      settle_rows-other k c debc n (i + 1) (settle r c debc i s) ne
        (settle-other (ColumnOf k) r k c debc i s ne h)

  -- The whole loop keeps what holds of a column.
  pub settle_all-Column :
      (k n c : ℕ) (s : Settled)
      → ((j : ℕ) → j < 8 → test_bit (prev k) j ≡ test_bit (r.new k) j)
      → Column k s
      → Column k (settle_all r n c s)
  unfolding settle_all
  settle_all-Column k zero c s is_read h = h
  settle_all-Column k (suc n) c s is_read h =
      settle_all-Column k n (c + 1) _ is_read (elim (Bool-cases (s.debouncing c == 0)) [
        | inl idle ↦ rw idle h
        | inr busy ↦ rw busy (elim (ℕ_discrete k c) [
          | yes e ↦ rw e (
              settle_rows-Column c (s.debouncing c) 8 0 s (omega arith) (rw e at h.pending)
                (rw e at is_read) (rw e at h))
          | no ne ↦ settle_rows-other k c (s.debouncing c) 8 0 s ne h
        ])
      ])
