-- ===== src/Timer/Count.antt =====
-- The number of bits of a word, by which the rounds of process_timers in common/timer.c are
-- counted.
use chromium_ec.Common.{
  ℕ, zero, suc, ◌+◌, ◌≤◌, ◌<◌, ◌≡◌, true, false, if◌then◌else◌, arith, ℕ_discrete,
}
use chromium_ec.Common.Bits.{test_bit}

pub count : ℕ → ℕ → ℕ
count zero x = 0
count (suc n) x = if test_bit x n then count n x + 1 else count n x

pub count-le : (n x : ℕ) → count n x ≤ n
unfolding count
count-le zero x = omega arith
count-le (suc n) x = ground (arith, count-le n x)

-- Fewer bits, when a bit is cleared and none is set.
pub count-le_count :
    (n x y : ℕ)
    → ((i : ℕ) → i < n → test_bit y i ≡ true → test_bit x i ≡ true)
    → count n y ≤ count n x
unfolding count
count-le_count zero x y h = omega arith
count-le_count (suc n) x y h =
    ground (arith, count-le_count n x y (λ i li. h i (omega arith)), h n (omega arith))

pub count-lt :
    (n x y i : ℕ)
    → ((j : ℕ) → j < n → test_bit y j ≡ true → test_bit x j ≡ true)
    → i < n
    → test_bit x i ≡ true
    → test_bit y i ≡ false
    → count n y < count n x
unfolding count
count-lt zero x y i h li e f = absurd (omega arith)
count-lt (suc n) x y i h li e f = elim (ℕ_discrete i n) [
  | yes last ↦ ground (arith, count-le_count n x y (λ j lj. h j (omega arith)), last, e, f)
  | no other ↦ ground (
    arith,
    count-lt n x y i (λ j lj. h j (omega arith)) (omega (arith, other)) e f,
    h n (omega arith),
  )
]
