-- ===== src/Common/Bits/Xor.antt =====
-- Exclusive or, one bit at a time: the keys that differ, and the flip of one key.
use chromium_ec.Common.{
  ℕ, zero, suc, ◌+◌, ◌*◌, ◌/◌, ◌%◌, ◌^◌, ◌<◌, ◌≡◌, ◌∙◌, ap, arith, bit_xor, Bool, true, false, not,
  if◌then◌else◌, ◌==◌,
}
use Prim.Native.Nat.{differ}
use mathlib.Core.Path.{refl}
use chromium_ec.Common.Bits.{test_bit, test_bit-pow}
use chromium_ec.Common.Bits.Digits.{bit_xor-digit}

-- One of two tests holds.
abbrev pub either : Bool → Bool → Bool
either a b = if a then not b else b

differ-digits : (x y : ℕ) → x < 2 → y < 2 → differ x y ≡ (if x == y then 0 else 1)
differ-digits zero zero h k = refl
differ-digits zero (suc zero) h k = refl
differ-digits (suc zero) zero h k = refl
differ-digits (suc zero) (suc zero) h k = refl
differ-digits (suc (suc x)) y h k = absurd (omega arith)
differ-digits x (suc (suc y)) h k = absurd (omega arith)

bit_xor-parts :
    (a b : ℕ) → bit_xor a b ≡ bit_xor (a / 2) (b / 2) * 2 + (if a % 2 == b % 2 then 0 else 1)
bit_xor-parts a b =
    bit_xor-digit a b
    ∙ ap (λ d. bit_xor (a / 2) (b / 2) * 2 + d)
        (differ-digits (a % 2) (b % 2) (omega arith) (omega arith))

pub test_bit-bit_xor : (a b i : ℕ) → test_bit (bit_xor a b) i ≡ either (test_bit a i) (test_bit b i)
test_bit-bit_xor a b zero = ground (arith, bit_xor-parts a b)
test_bit-bit_xor a b (suc i) =
    ap (λ x. test_bit x i) (ground (arith, bit_xor-parts a b)) ∙ test_bit-bit_xor (a / 2) (b / 2) i

-- `x ^= 1 << i`
pub test_bit-flip :
    (x i j : ℕ)
    → test_bit (bit_xor x (2 ^ i)) j ≡ (if i == j then not (test_bit x j) else test_bit x j)
test_bit-flip x i j =
    test_bit-bit_xor x (2 ^ i) j
    ∙ ap (λ b. either (test_bit x j) b) (test_bit-pow i j)
    ∙ flip_lem (test_bit x j) (i == j)
  where
    flip_lem : (b e : Bool) → either b e ≡ (if e then not b else b)
    flip_lem true true = refl
    flip_lem true false = refl
    flip_lem false true = refl
    flip_lem false false = refl
