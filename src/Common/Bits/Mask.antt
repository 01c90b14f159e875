-- ===== src/Common/Bits/Mask.antt =====
-- A number through `& (2 ^ bits - 1)`, by which the code wraps an index.
use chromium_ec.Common.{ℕ, zero, suc, ◌-◌, ◌/◌, ◌^◌, ◌<◌, ◌≡◌, ◌∙◌, arith, bit_and}
use chromium_ec.Common.Bits.{pow-pos, bit_and-zero}
use chromium_ec.Common.Bits.Digits.{bit_and-digit}
use native.Mathlib.Nat.{pow-suc}

-- `& (size - 1)` on an index below the size, or just at it.
pub mask-below : (bits x : ℕ) → x < 2 ^ bits → bit_and x (2 ^ bits - 1) ≡ x
mask-below zero x h = bit_and-zero x ∙ omega arith
mask-below (suc bits) x h =
    let half : (2 ^ suc bits - 1) / 2 ≡ 2 ^ bits - 1 =
      omega (arith, pow-suc 2 bits, pow-pos bits) in
    let rest : bit_and (x / 2) ((2 ^ suc bits - 1) / 2) ≡ x / 2 =
      rw half (mask-below bits (x / 2) (omega (arith, pow-suc 2 bits))) in
    omega (arith, bit_and-digit x (2 ^ suc bits - 1), rest, pow-suc 2 bits, pow-pos bits)

pub mask-top : (bits : ℕ) → bit_and (2 ^ bits) (2 ^ bits - 1) ≡ 0
mask-top zero = bit_and-zero 1
mask-top (suc bits) =
    let half : (2 ^ suc bits - 1) / 2 ≡ 2 ^ bits - 1 =
      omega (arith, pow-suc 2 bits, pow-pos bits) in
    let whole : 2 ^ suc bits / 2 ≡ 2 ^ bits = omega (arith, pow-suc 2 bits) in
    let rest : bit_and (2 ^ suc bits / 2) ((2 ^ suc bits - 1) / 2) ≡ 0 =
      rw (half, whole) (mask-top bits) in
    omega
      (arith, bit_and-digit (2 ^ suc bits) (2 ^ suc bits - 1), rest, pow-suc 2 bits, pow-pos bits)
