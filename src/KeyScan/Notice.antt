-- ===== src/KeyScan/Notice.antt =====
-- The loop of check_keys_changed in common/keyboard_scan.c over the keys that read differently than
-- in the scan before: each starts to be debounced, now.
use chromium_ec.Common.{
  ℕ, zero, suc, ◌+◌, ◌%◌, ◌^◌, ◌≤◌, ◌<◌, ◌≡◌, ◌≢◌, ◌⊎◌, inl, inr, refl, sym, ap, ◌∙◌, Bool, true,
  false, List, ◌∷◌, arith, ◌==◌, ◌||◌, if◌then◌else◌, bit_xor, Bool-cases, ℕ_discrete,
}
use chromium_ec.Common.Bits.{test_bit, nonzero-bit_and, test_bit-bit_or, test_bit-zero}
use chromium_ec.Common.Bits.Xor.{either, test_bit-bit_xor}
use chromium_ec.KeyScan.{Matrix, Noticed, notice, notice_all, mark_rows, keyboard_rows}
use chromium_ec.KeyScan.Held.{Scan, Since}

-- A row is marked if it is among those to come and differs.
mark_rows-marked :
    (n k diff index i : ℕ) (row : ℕ → ℕ)
    → test_bit diff i ≡ true
    → (row i ≡ index) ⊎ ((k ≤ i) × (i < k + n))
    → mark_rows n k diff index row i ≡ index
unfolding mark_rows
mark_rows-marked zero k diff index i row d (inl e) = e
mark_rows-marked zero k diff index i row d (inr (p, q)) = absurd (omega arith)
mark_rows-marked (suc n) k diff index i row d h =
    mark_rows-marked n (k + 1) diff index i _ d (ground (arith, nonzero-bit_and diff k))

mark_rows-other :
    (n k diff index i : ℕ) (row : ℕ → ℕ)
    → test_bit diff i ≡ false
    → mark_rows n k diff index row i ≡ row i
unfolding mark_rows
mark_rows-other zero k diff index i row d = refl
mark_rows-other (suc n) k diff index i row d =
    mark_rows-other n (k + 1) diff index i _ d ∙ ground (arith, nonzero-bit_and diff k)

-- A bit of the difference.
differs : (x y i : ℕ) → test_bit (bit_xor x y) i ≡ false → test_bit x i ≡ test_bit y i
differs x y i h = go (test_bit x i) (test_bit y i) (sym (test_bit-bit_xor x y i) ∙ h)
  where
    go : (a b : Bool) → either a b ≡ false → a ≡ b
    go true true h = refl
    go true false h = ground (arith, h)
    go false true h = ground (arith, h)
    go false false h = refl

marked :
    (diff index i : ℕ) (row : ℕ → ℕ)
    → i < 8
    → mark_rows keyboard_rows 0 diff index row i ≡ (if test_bit diff i then index else row i)
marked diff index i row h = elim (Bool-cases (test_bit diff i)) [
  | inl on ↦ rw on (mark_rows-marked 8 0 diff index i row on (inr (omega arith, omega arith)))
  | inr off ↦ rw off (mark_rows-other 8 0 diff index i row off)
]

-- What the loop does to a key of the column that it compares.
record Compared (new : Matrix) (index c i : ℕ) (s : Noticed) (differ_bit : Bool) : Type 0 where
  prev : test_bit ((notice new index c s).prev c) i ≡ test_bit (new c) i
  debouncing :
      test_bit ((notice new index c s).debouncing c) i ≡ (test_bit (s.debouncing c) i || differ_bit)
  edge : (notice new index c s).edge c i ≡ (if differ_bit then index else s.edge c i)

notice-Compared :
    (new : Matrix) (index c i : ℕ) (s : Noticed)
    → i < 8
    → Compared new index c i s (test_bit (bit_xor (new c) (s.prev c)) i)
unfolding notice
notice-Compared new index c i s row = elim (Bool-cases (bit_xor (new c) (s.prev c) == 0)) [
  | inl same ↦
      let equal : bit_xor (new c) (s.prev c) ≡ 0 = ground (arith, same) in
      let off : test_bit (bit_xor (new c) (s.prev c)) i ≡ false =
        ap (λ x. test_bit x i) equal ∙ test_bit-zero i in
      record {
        prev = rw same (sym (differs (new c) (s.prev c) i off));
        debouncing = rw (same, off) (ground arith);
        edge = rw (same, off) refl;
      }
  | inr other ↦
      let self : (c == c) ≡ true = ground arith in
      record {
        prev = rw (other, self) refl;
        debouncing =
            rw (other, self) (test_bit-bit_or (s.debouncing c) (bit_xor (new c) (s.prev c)) i);
        edge = rw (other, self) (marked (bit_xor (new c) (s.prev c)) index i (s.edge c) row);
      }
]

module _ (now index : ℕ) (new : Matrix) (time : ℕ → ℕ) (older : List Scan)
    (stamp : time index ≡ now % 2 ^ 32) where
  abbrev pub this : Scan
  this = record { time = now; matrix = new }

  -- Every key of the column that is being debounced has been held since its stamp.
  abbrev pub Pending : List Scan → ℕ → Noticed → Type 0
  Pending seen c s =
      (i : ℕ)
      → test_bit (s.debouncing c) i ≡ true
      → i < 8
      → Since now seen c i (test_bit (s.prev c) i) (time (s.edge c i))

  Since-extend :
      (c i : ℕ) (b : Bool) (at : ℕ)
      → test_bit (new c) i ≡ b
      → Since now older c i b at
      → Since now (this ∷ older) c i b at
  Since-extend c i b at reads s = record {
    start = s.start;
    stamped = s.stamped;
    past = s.past;
    held = inr (inr reads, s.held);
  }

  Since-now : (c i : ℕ) → Since now (this ∷ older) c i (test_bit (new c) i) (time index)
  Since-now c i = record {
    start = now;
    stamped = stamp;
    past = omega arith;
    held = inl (refl, omega arith);
  }

  -- The column that is compared.
  pub notice-Pending :
      (c : ℕ) (s : Noticed) → Pending older c s → Pending (this ∷ older) c (notice new index c s)
  notice-Pending c s p i on row =
      let k = notice-Compared new index c i s row in
      rw k.prev (
        rw k.edge (elim (Bool-cases (test_bit (bit_xor (new c) (s.prev c)) i)) [
          | inl changed ↦ rw changed (Since-now c i)
          | inr same ↦
              let equal = differs (new c) (s.prev c) i same in
              let before : test_bit (s.debouncing c) i ≡ true =
                ground (arith, k.debouncing, same, on) in
              rw (same, equal)
                (Since-extend c i (test_bit (s.prev c) i) (time (s.edge c i)) equal
                  (p i before row))
        ]))

  -- A key that is not debounced has its state agree with the last scan.
  abbrev pub Agreed : Matrix → ℕ → Noticed → Type 0
  Agreed state c s =
      (i : ℕ)
      → test_bit (s.debouncing c) i ≡ false
      → i < 8
      → test_bit (state c) i ≡ test_bit (s.prev c) i

  notice-Agreed :
      (state : Matrix) (c : ℕ) (s : Noticed)
      → Agreed state c s
      → Agreed state c (notice new index c s)
  notice-Agreed state c s a i off row =
      let k = notice-Compared new index c i s row in
      let apart = k.debouncing in
      let before : test_bit (s.debouncing c) i ≡ false = ground (arith, k.debouncing, off) in
      let same : test_bit (bit_xor (new c) (s.prev c)) i ≡ false =
        ground (arith, k.debouncing, off) in
      rw k.prev (a i before row ∙ sym (differs (new c) (s.prev c) i same))

  -- The last scan is this one.
  abbrev pub IsRead : ℕ → Noticed → Type 0
  IsRead c s = (i : ℕ) → i < 8 → test_bit (s.prev c) i ≡ test_bit (new c) i

  -- What holds of a column that is compared.
  pub record Done (state : Matrix) (c : ℕ) (s : Noticed) : Type 0 where
    pub pending : Pending (this ∷ older) c s
    pub agreed : Agreed state c s
    pub is_read : IsRead c s

  notice-Done :
      (state : Matrix) (c : ℕ) (s : Noticed)
      → Pending older c s
      → Agreed state c s
      → Done state c (notice new index c s)
  notice-Done state c s p a = record {
    pending = notice-Pending c s p;
    agreed = notice-Agreed state c s a;
    is_read = λ i row. (notice-Compared new index c i s row).prev;
  }

  -- The other columns stay.
  notice-other :
      (P : ℕ → ℕ → (ℕ → ℕ) → Type 0) (k c : ℕ) (s : Noticed)
      → k ≢ c
      → P (s.debouncing k) (s.prev k) (s.edge k)
      → P
          ((notice new index c s).debouncing k)
          ((notice new index c s).prev k)
          ((notice new index c s).edge k)
  unfolding notice
  notice-other P k c s ne h =
      let apart : (k == c) ≡ false = ground (arith, ne) in
      elim (Bool-cases (bit_xor (new c) (s.prev c) == 0)) [
        | inl same ↦ rw same h
        | inr other ↦ rw (other, apart) h
      ]

  Pending-other :
      (seen : List Scan) (k c : ℕ) (s : Noticed)
      → k ≢ c
      → Pending seen k s
      → Pending seen k (notice new index c s)
  Pending-other seen k c s ne h =
      notice-other
        (λ deb prev edge.
          (i : ℕ)
          → test_bit deb i ≡ true
          → i < 8
          → Since now seen k i (test_bit prev i) (time (edge i)))
        k c s ne h

  Agreed-other :
      (state : Matrix) (k c : ℕ) (s : Noticed)
      → k ≢ c
      → Agreed state k s
      → Agreed state k (notice new index c s)
  Agreed-other state k c s ne h =
      notice-other
        (λ deb prev edge.
          (i : ℕ) → test_bit deb i ≡ false → i < 8 → test_bit (state k) i ≡ test_bit prev i)
        k c s ne h

  Done-other :
      (state : Matrix) (k c : ℕ) (s : Noticed)
      → k ≢ c
      → Done state k s
      → Done state k (notice new index c s)
  Done-other state k c s ne d = record {
    pending = Pending-other (this ∷ older) k c s ne d.pending;
    agreed = Agreed-other state k c s ne d.agreed;
    is_read =
        notice-other (λ deb prev edge. (i : ℕ) → i < 8 → test_bit prev i ≡ test_bit (new k) i) k c s
          ne d.is_read;
  }

  notice_all-after :
      (state : Matrix) (k n c : ℕ) (s : Noticed)
      → k < c
      → Done state k s
      → Done state k (notice_all new index n c s)
  unfolding notice_all
  notice_all-after state k zero c s lt d = d
  notice_all-after state k (suc n) c s lt d =
      notice_all-after state k n (c + 1) (notice new index c s) (omega arith)
        (Done-other state k c s (omega arith) d)

  -- The whole loop.
  pub notice_all-Done :
      (state : Matrix) (k n c : ℕ) (s : Noticed)
      → c ≤ k
      → k < c + n
      → Pending older k s
      → Agreed state k s
      → Done state k (notice_all new index n c s)
  unfolding notice_all
  notice_all-Done state k zero c s le lt p a = absurd (omega arith)
  notice_all-Done state k (suc n) c s le lt p a = elim (ℕ_discrete k c) [
    | yes e ↦
        notice_all-after state k n (c + 1) (notice new index c s) (omega arith)
          (rw e (notice-Done state c s (rw e at p) (rw e at a)))
    | no ne ↦
        notice_all-Done state k n (c + 1) (notice new index c s) (omega arith) (omega arith)
          (Pending-other older k c s ne p) (Agreed-other state k c s ne a)
  ]
