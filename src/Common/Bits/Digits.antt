-- ===== src/Common/Bits/Digits.antt =====
-- The lowest digit of `bit_and` and `bit_or`. The native operations stand for a recursion over the
-- binary digits on a count of digits to go; a larger count gives the same number.
use Prim.Native.Nat.{
  ℕ, zero, suc, ◌+◌, ◌*◌, ◌/◌, ◌%◌, ◌≤◌, min, max, bit_and, bit_or, bit_xor, differ, digits,
  bitwise, bit_and-bitwise, bit_or-bitwise, bit_xor-bitwise,
}
use mathlib.Core.Path.{◌≡◌, refl, ap}
use native.Mathlib.Omega.{arith}

module _ (rest : ℕ → ℕ) (op : ℕ → ℕ → ℕ) where
  -- Two counts that both reach the number's length agree. The number comes first, and each clause
  -- names the one that runs out.
  same_digits : {n k : ℕ} (b a : ℕ) → a ≤ n → a ≤ k → digits rest op n a b ≡ digits rest op k a b
  same_digits {n = zero} {k = zero} b a p q = refl
  same_digits {n = suc n} {k = suc k} b (suc a) p q =
      let tail = same_digits {n = n} {k = k} (b / 2) (suc a / 2) (omega arith) (omega arith) in
      ap (λ t. t * 2 + op (suc a % 2) (b % 2)) tail
  same_digits {n = suc n} {k = suc k} b zero p q = refl
  same_digits {n = zero} {k = suc k} b zero p q = refl
  same_digits {n = suc n} {k = zero} b zero p q = refl
  same_digits {n = zero} {k = suc k} b (suc a) p q = elim p [ ]
  same_digits {n = suc n} {k = zero} b (suc a) p q = elim q [ ]

  lowest_digit :
      (a b : ℕ)
      → bitwise rest op (suc a) b ≡ bitwise rest op (suc a / 2) (b / 2) * 2 + op (suc a % 2) (b % 2)
  lowest_digit a b =
      omega
        (arith, same_digits {n = a} {k = suc a / 2} (b / 2) (suc a / 2) (omega arith) (omega arith))

pub bit_or-digit : (a b : ℕ) → bit_or a b ≡ bit_or (a / 2) (b / 2) * 2 + max (a % 2) (b % 2)
bit_or-digit zero b = simp bit_or-bitwise (omega arith)
bit_or-digit (suc a) b = simp bit_or-bitwise (lowest_digit (λ r. r) max a b)

pub bit_and-digit : (a b : ℕ) → bit_and a b ≡ bit_and (a / 2) (b / 2) * 2 + min (a % 2) (b % 2)
bit_and-digit zero b = simp bit_and-bitwise (omega arith)
bit_and-digit (suc a) b = simp bit_and-bitwise (lowest_digit (λ r. 0) min a b)

pub bit_xor-digit : (a b : ℕ) → bit_xor a b ≡ bit_xor (a / 2) (b / 2) * 2 + differ (a % 2) (b % 2)
bit_xor-digit zero b = simp bit_xor-bitwise (omega arith)
bit_xor-digit (suc a) b = simp bit_xor-bitwise (lowest_digit (λ r. r) differ a b)
