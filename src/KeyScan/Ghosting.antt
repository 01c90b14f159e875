-- ===== src/KeyScan/Ghosting.antt =====
-- has_ghosting of common/keyboard_scan.c: two columns share two keys.
use chromium_ec.Common.{
  ℕ, zero, suc, ◌+◌, ◌^◌, ◌≤◌, ◌<◌, ◌≡◌, ◌∙◌, refl, sym, arith, bit_and, Bool, true, false, ◌==◌,
  ◌&&◌, ◌||◌, nonzero, ◌↔◌, ◌⊎◌, inl, inr, Bool-cases, ℕ_discrete,
}
use chromium_ec.Common.Bits.{test_bit, test_bit-bit_and, bit_and-lt, test_bit-zero}
use chromium_ec.Common.Bits.Two.{two_of_nonzero, nonzero_of_two}
use chromium_ec.KeyScan.{Matrix, many_bits, ghost_with, ghost_from, has_ghosting}

-- The keys of rows `i` and `j` are both pressed in columns `c` and `d`.
abbrev pub Shares : Matrix → (c d i j : ℕ) → Type 0
Shares state c d i j =
    (test_bit (state c) i ≡ true)
    × (test_bit (state d) i ≡ true)
    × (test_bit (state c) j ≡ true)
    × (test_bit (state d) j ≡ true)

-- Two columns share two rows.
abbrev pub Rectangle : Matrix → (c d : ℕ) → Type 0
Rectangle state c d = (i j : ℕ) × (i < j) × (j < 8) × Shares state c d i j

both : (a b : Bool) → (a && b) ≡ true → (a ≡ true) × (b ≡ true)
both true b h = (refl, h)
both false b h = ground (arith, h)

-- Either test of an `||` holds.
one_of : (a b : Bool) → (a || b) ≡ true → (a ≡ true) ⊎ (b ≡ true)
one_of true b h = inl refl
one_of false b h = inr h

second : (a b : Bool) → b ≡ true → (a || b) ≡ true
second true b h = refl
second false b h = h

shared :
    (x y i : ℕ) → test_bit (bit_and x y) i ≡ true → (test_bit x i ≡ true) × (test_bit y i ≡ true)
shared x y i h = both (test_bit x i) (test_bit y i) (sym (test_bit-bit_and x y i) ∙ h)

many_bits-Rectangle :
    (state : Matrix) (c d : ℕ)
    → state c < 2 ^ 8
    → (many_bits (bit_and (state c) (state d)) ≡ true) ↔ Rectangle state c d
unfolding many_bits
many_bits-Rectangle state c d h = (
  λ many.
      let (i, j, lt, row, first, last) =
        two_of_nonzero 8 (bit_and (state c) (state d)) (bit_and-lt 8 (state c) (state d) h) many in
      let (ci, di) = shared (state c) (state d) i first in
      let (cj, dj) = shared (state c) (state d) j last in (i, j, lt, row, (ci, di, cj, dj)),
  λ r.
      let (i, j, lt, row, (ci, di, cj, dj)) = r in
      nonzero_of_two 8 (bit_and (state c) (state d)) (bit_and-lt 8 (state c) (state d) h) (
        i,
        j,
        lt,
        row,
        rw (test_bit-bit_and (state c) (state d) i, ci) di,
        rw (test_bit-bit_and (state c) (state d) j, cj) dj,
      ),
)

module _ (state : Matrix) (bytes : (c : ℕ) → state c < 2 ^ 8) where
  ghost_with-found :
      (n c d : ℕ)
      → ghost_with n c d state ≡ true
      → (e : ℕ) × (d ≤ e) × (e < d + n) × Rectangle state c e
  unfolding ghost_with
  ghost_with-found zero c d h = ground (arith, h)
  ghost_with-found (suc n) c d h =
      elim (one_of (many_bits (bit_and (state c) (state d))) (ghost_with n c (d + 1) state) h) [
        | inl here ↦ (d, omega arith, omega arith, (many_bits-Rectangle state c d (bytes c)).0 here)
        | inr later ↦
            let (e, low, high, r) = ghost_with-found n c (d + 1) later in
            (e, omega arith, omega arith, r)
      ]

  ghost_with-Rectangle :
      (n c d e : ℕ) → d ≤ e → e < d + n → Rectangle state c e → ghost_with n c d state ≡ true
  unfolding ghost_with
  ghost_with-Rectangle zero c d e low high r = absurd (omega arith)
  ghost_with-Rectangle (suc n) c d e low high r = elim (ℕ_discrete d e) [
    | yes same ↦ rw ((many_bits-Rectangle state c d (bytes c)).1 (rw same r)) refl
    | no ne ↦
        second (many_bits (bit_and (state c) (state d))) _
          (ghost_with-Rectangle n c (d + 1) e (omega arith) (omega arith) r)
  ]

  -- A column with a shared key has a key.
  Rectangle-nonzero : (c d : ℕ) → Rectangle state c d → nonzero (state c) ≡ true
  Rectangle-nonzero c d r = elim (Bool-cases (state c == 0)) [
    | inl none ↦
        let (i, j, lt, row, (ci, di, cj, dj)) = r in
        let empty : state c ≡ 0 = ground (arith, none) in
        absurd (ground (arith, rw empty at ci, test_bit-zero i))
    | inr some ↦ rw some refl
  ]

  ghost_from-found :
      (n c : ℕ)
      → ghost_from n c state ≡ true
      → (a b : ℕ) × (c ≤ a) × (a < b) × (b < c + n) × Rectangle state a b
  unfolding ghost_from
  ghost_from-found zero c h = ground (arith, h)
  ghost_from-found (suc n) c h =
      elim (one_of (nonzero (state c) && ghost_with n c (c + 1) state) (ghost_from n (c + 1) state)
        h) [
          | inl here ↦
              let (e, low, high, r) =
                ghost_with-found n c (c + 1)
                  (both (nonzero (state c)) (ghost_with n c (c + 1) state) here).1 in
              (c, e, omega arith, omega arith, omega arith, r)
          | inr later ↦
              let (a, b, low, lt, high, r) = ghost_from-found n (c + 1) later in
              (a, b, omega arith, lt, omega arith, r)
        ]

  ghost_from-Rectangle :
      (n c a b : ℕ) → c ≤ a → a < b → b < c + n → Rectangle state a b → ghost_from n c state ≡ true
  unfolding ghost_from
  ghost_from-Rectangle zero c a b low lt high r = absurd (omega arith)
  ghost_from-Rectangle (suc n) c a b low lt high r = elim (ℕ_discrete c a) [
    | yes same ↦
        let at_c : Rectangle state c b = rw same r in
        rw
          (
            Rectangle-nonzero c b at_c,
            ghost_with-Rectangle n c (c + 1) b (omega arith) (omega arith) at_c,
          )
          refl
    | no ne ↦
        second (nonzero (state c) && ghost_with n c (c + 1) state) _
          (ghost_from-Rectangle n (c + 1) a b (omega arith) lt (omega arith) r)
  ]

-- For a matrix of bytes: has_ghosting returns 1 exactly when there are two columns and two rows
-- such that the keys of both rows are pressed in both columns.
pub has_ghosting-Rectangle :
    (state : Matrix)
    → ((c : ℕ) → state c < 2 ^ 8)
    → (has_ghosting state ≡ true) ↔ ((a b : ℕ) × (a < b) × (b < 13) × Rectangle state a b)
unfolding has_ghosting
has_ghosting-Rectangle state bytes = (
  λ h.
      let (a, b, low, lt, high, r) = ghost_from-found state bytes 13 0 h in
      (a, b, lt, omega arith, r),
  λ x.
      let (a, b, lt, high, r) = x in
      ghost_from-Rectangle state bytes 13 0 a b (omega arith) lt (omega arith) r,
)
