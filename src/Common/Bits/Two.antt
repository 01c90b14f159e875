-- ===== src/Common/Bits/Two.antt =====
-- `x & (x - 1)`, which is zero unless two bits of `x` are set.
use chromium_ec.Common.{
  ℕ, zero, suc, ◌-◌, ◌*◌, ◌/◌, ◌%◌, ◌^◌, ◌<◌, ◌≡◌, ◌≢◌, ◌∙◌, refl, ap, arith, bit_and, Bool, true,
  false, ◌==◌, ◌&&◌, nonzero, inl, inr, Bool-cases,
}
use native.Mathlib.Nat.{pow-suc}
use chromium_ec.Common.Bits.{
  test_bit, test_bit-zero, test_bit-bit_and, eq_of_test_bit, bit_and-lt, zero-bit_and,
}
use chromium_ec.Common.Bits.Digits.{bit_and-digit}

-- A bit of a word that is not zero.
some_bit : (w x : ℕ) → x < 2 ^ w → x ≢ 0 → (i : ℕ) × (i < w) × (test_bit x i ≡ true)
some_bit zero x h ne = absurd (ne (omega arith))
some_bit (suc w) x h ne = elim (Bool-cases (x % 2 == 1)) [
  | inl odd ↦ (0, omega arith, odd)
  | inr even ↦
      let (i, lt, on) =
        some_bit w (x / 2) (omega (arith, pow-suc 2 w)) (ground (arith, even, ne)) in
      (suc i, omega arith, on)
]

bit_and_self : (w x : ℕ) → x < 2 ^ w → bit_and x x ≡ x
bit_and_self w x h =
    eq_of_test_bit w (bit_and x x) x (bit_and-lt w x x h) h
      (λ i k. test_bit-bit_and x x i ∙ twice (test_bit x i))
  where
    twice : (b : Bool) → (b && b) ≡ b
    twice true = refl
    twice false = refl

-- Two bits of `x` below `w`.
abbrev pub HasTwo : ℕ → ℕ → Type 0
HasTwo w x = (i j : ℕ) × (i < j) × (j < w) × (test_bit x i ≡ true) × (test_bit x j ≡ true)

less_odd : (w x : ℕ) → x < 2 ^ suc w → (x % 2 == 1) ≡ true → bit_and x (x - 1) ≡ x / 2 * 2
less_odd w x h odd =
    let half : (x - 1) / 2 ≡ x / 2 = ground (arith, odd) in
    let rest : bit_and (x / 2) ((x - 1) / 2) ≡ x / 2 =
      rw half (bit_and_self w (x / 2) (omega (arith, pow-suc 2 w))) in
    ground (arith, odd, rest, bit_and-digit x (x - 1))

less_even : (x : ℕ) → (x % 2 == 1) ≡ false → bit_and x (x - 1) ≡ bit_and (x / 2) (x / 2 - 1) * 2
less_even zero even = omega (arith, zero-bit_and (0 - 1), zero-bit_and (0 / 2 - 1))
less_even (suc x) even =
    let half : (suc x - 1) / 2 ≡ suc x / 2 - 1 = ground (arith, even) in
    let rest : bit_and (suc x / 2) ((suc x - 1) / 2) ≡ bit_and (suc x / 2) (suc x / 2 - 1) =
      ap (λ y. bit_and (suc x / 2) y) half in
    ground (arith, even, rest, bit_and-digit (suc x) (suc x - 1))

pub two_of_nonzero : (w x : ℕ) → x < 2 ^ w → nonzero (bit_and x (x - 1)) ≡ true → HasTwo w x
two_of_nonzero zero x h n =
    let x0 : x ≡ 0 = omega arith in absurd (ground (arith, rw x0 at n, zero-bit_and (0 - 1)))
two_of_nonzero (suc w) x h n = elim (Bool-cases (x % 2 == 1)) [
  | inl odd ↦
      let (j, lt, on) =
        some_bit w (x / 2) (omega (arith, pow-suc 2 w))
          (λ e. ground (arith, n, e, less_odd w x h odd)) in
      (0, suc j, omega arith, omega arith, odd, on)
  | inr even ↦
      let (i, j, lt, le, on, on') =
        two_of_nonzero w (x / 2) (omega (arith, pow-suc 2 w))
          (ground (arith, n, less_even x even)) in
      (suc i, suc j, omega arith, omega arith, on, on')
]

bit_ne : (x i : ℕ) → test_bit x i ≡ true → x ≢ 0
bit_ne x i on = λ e. ground (arith, rw e at on, test_bit-zero i)

pub nonzero_of_two : (w x : ℕ) → x < 2 ^ w → HasTwo w x → nonzero (bit_and x (x - 1)) ≡ true
nonzero_of_two w x h (i, zero, lt, le, on, on') = elim lt [ ]
nonzero_of_two zero x h (i, suc j, lt, le, on, on') = elim le [ ]
nonzero_of_two (suc w) x h (zero, suc j, lt, le, on, on') =
    ground (arith, less_odd w x h on, bit_ne (x / 2) j on')
nonzero_of_two (suc w) x h (suc i, suc j, lt, le, on, on') = elim (Bool-cases (x % 2 == 1)) [
  | inl odd ↦ ground (arith, less_odd w x h odd, bit_ne (x / 2) j on')
  | inr even ↦
      let rest =
        nonzero_of_two w (x / 2) (omega (arith, pow-suc 2 w))
          (i, j, omega arith, omega arith, on, on') in
      ground (arith, rest, less_even x even)
]
