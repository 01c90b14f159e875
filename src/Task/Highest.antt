-- ===== src/Task/Highest.antt =====
-- The highest bit of a word, by which core/cortex-m/task.c chooses the task to run.
use chromium_ec.Common.{ℕ, zero, suc, ◌≡◌, ◌<◌, true, false, arith, Bool-cases, inl, inr}
use chromium_ec.Common.Bits.{test_bit}
use chromium_ec.Task.{highest}

-- `h` is the highest bit of `x` below `n`.
pub record IsHighest (n x h : ℕ) : Type 0 where
  pub below : h < n
  pub bit : test_bit x h ≡ true
  pub none_above : (j : ℕ) → h < j → j < n → test_bit x j ≡ false

pub highest-IsHighest : (n x i : ℕ) → i < n → test_bit x i ≡ true → IsHighest n x (highest n x)
unfolding highest
highest-IsHighest zero x i h e = absurd (omega arith)
highest-IsHighest (suc n) x i h e = elim (Bool-cases (test_bit x n)) [
  | inl top ↦
      rw top (record { below = omega arith; bit = top; none_above = λ j a b. absurd (omega arith) })
  | inr off ↦
      let rest = highest-IsHighest n x i (ground (arith, e, off)) e in
      rw off (record {
        below = omega (arith, rest.below);
        bit = rest.bit;
        none_above = λ j a b. ground (arith, off, rest.none_above j a);
      })
]
