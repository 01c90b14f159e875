-- ===== src/Common/Bits.antt =====
-- The bits of a machine word. `test_bit x i` is `(x >> i) & 1`, and the native bit operations are
-- read through it, one bit at a time.
mod Digits
pub mod Mask
pub mod Xor
pub mod Two
use Digits.{bit_and-digit, bit_or-digit}
use Prim.Native.Nat.{
  ℕ, zero, suc, ◌+◌, ◌-◌, ◌*◌, ◌/◌, ◌%◌, ◌^◌, ◌≤◌, ◌<◌, min, max, bit_and, bit_or, bit_and-bitwise,
  bit_or-bitwise,
}
use mathlib.Core.Path.{◌≡◌, refl, sym, ◌∙◌, ap}
use mathlib.Core.Bool.{Bool, true, false, not, ◌&&◌, ◌||◌}
use native.Mathlib.Omega.{arith}
use native.Mathlib.Nat.{pow-suc, one-le-pow, div-div-eq-div-mul}
use chromium_ec.Common.Tests.{◌==◌, if◌then◌else◌, nonzero}

abbrev pub test_bit : ℕ → ℕ → Bool
test_bit x zero = x % 2 == 1
test_bit x (suc i) = test_bit (x / 2) i

pub test_bit-zero : (i : ℕ) → test_bit 0 i ≡ false
test_bit-zero zero = refl
test_bit-zero (suc i) = test_bit-zero i

pub test_bit-bit_and : (a b i : ℕ) → test_bit (bit_and a b) i ≡ (test_bit a i && test_bit b i)
test_bit-bit_and a b zero = ground (arith, bit_and-digit a b)
test_bit-bit_and a b (suc i) =
    ap (λ x. test_bit x i) (omega (arith, bit_and-digit a b)) ∙ test_bit-bit_and (a / 2) (b / 2) i

pub test_bit-bit_or : (a b i : ℕ) → test_bit (bit_or a b) i ≡ (test_bit a i || test_bit b i)
test_bit-bit_or a b zero = ground (arith, bit_or-digit a b)
test_bit-bit_or a b (suc i) =
    ap (λ x. test_bit x i) (omega (arith, bit_or-digit a b)) ∙ test_bit-bit_or (a / 2) (b / 2) i

-- `~m` on `w` bits.
abbrev pub complement : ℕ → ℕ → ℕ
complement w m = 2 ^ w - 1 - m

complement_half : (w m : ℕ) → m < 2 ^ suc w → complement (suc w) m / 2 ≡ complement w (m / 2)
complement_half w m h = omega (arith, pow-suc 2 w, one-le-pow w 2)

pub test_bit-complement :
    (w m i : ℕ) → m < 2 ^ w → i < w → test_bit (complement w m) i ≡ not (test_bit m i)
test_bit-complement zero m i h k = elim k [ ]
test_bit-complement (suc w) m zero h k = ground (arith, pow-suc 2 w, one-le-pow w 2)
test_bit-complement (suc w) m (suc i) h k =
    ap (λ x. test_bit x i) (complement_half w m h)
    ∙ test_bit-complement w (m / 2) i (omega (arith, pow-suc 2 w)) (omega arith)

-- The mask `1 << i`.
pub test_bit-pow : (i j : ℕ) → test_bit (2 ^ i) j ≡ (i == j)
test_bit-pow zero zero = refl
test_bit-pow zero (suc j) = test_bit-zero j ∙ ground arith
test_bit-pow (suc i) zero = ground (arith, pow-suc 2 i)
test_bit-pow (suc i) (suc j) =
    ap (λ x. test_bit x j) (omega (arith, pow-suc 2 i)) ∙ test_bit-pow i j ∙ ground arith

-- A word with no bit set is zero, and words with the same bits are equal.
pub eq_of_test_bit :
    (w a b : ℕ) → a < 2 ^ w → b < 2 ^ w → ((i : ℕ) → i < w → test_bit a i ≡ test_bit b i) → a ≡ b
eq_of_test_bit zero a b ha hb h = omega arith
eq_of_test_bit (suc w) a b ha hb h =
    let halves =
      eq_of_test_bit w (a / 2) (b / 2) (omega (arith, pow-suc 2 w)) (omega (arith, pow-suc 2 w))
        (λ i k. h (suc i) (omega arith)) in
    ground (arith, h 0 (omega arith), halves)

pub bit_or-lt : (w a b : ℕ) → a < 2 ^ w → b < 2 ^ w → bit_or a b < 2 ^ w
bit_or-lt zero a b ha hb =
    let ea : a ≡ 0 = omega arith in let eb : b ≡ 0 = omega arith in rw (ea, eb) (omega arith)
bit_or-lt (suc w) a b ha hb = omega (
  arith,
  pow-suc 2 w,
  bit_or-digit a b,
  bit_or-lt w (a / 2) (b / 2) (omega (arith, pow-suc 2 w)) (omega (arith, pow-suc 2 w)),
)

pub bit_and-lt : (w a b : ℕ) → a < 2 ^ w → bit_and a b < 2 ^ w
bit_and-lt zero a b ha =
    let ea : a ≡ 0 = omega arith in rw ea (rw (bit_and-bitwise 0 b) (omega arith))
bit_and-lt (suc w) a b ha = omega (
  arith,
  pow-suc 2 w,
  bit_and-digit a b,
  bit_and-lt w (a / 2) (b / 2) (omega (arith, pow-suc 2 w)),
)

-- The masks of a single bit.
bit_and-zero_fuel : (n a : ℕ) → a ≤ n → bit_and a 0 ≡ 0
bit_and-zero_fuel n zero h = bit_and-bitwise 0 0
bit_and-zero_fuel zero (suc a) h = absurd (omega arith)
bit_and-zero_fuel (suc n) (suc a) h =
    omega (arith, bit_and-digit (suc a) 0, bit_and-zero_fuel n (suc a / 2) (omega arith))

pub bit_and-zero : (a : ℕ) → bit_and a 0 ≡ 0
bit_and-zero a = bit_and-zero_fuel a a (omega arith)

pub zero-bit_and : (b : ℕ) → bit_and 0 b ≡ 0
zero-bit_and b = bit_and-bitwise 0 b

pub bit_and-pow : (x i : ℕ) → bit_and x (2 ^ i) ≡ (if test_bit x i then 2 ^ i else 0)
bit_and-pow x zero = ground (arith, bit_and-digit x 1, bit_and-zero (x / 2))
bit_and-pow x (suc i) =
    let half : 2 ^ suc i / 2 ≡ 2 ^ i = omega (arith, pow-suc 2 i) in
    let below : bit_and (x / 2) (2 ^ suc i / 2) ≡ (if test_bit (x / 2) i then 2 ^ i else 0) =
      rw half (bit_and-pow (x / 2) i) in
    ground (arith, bit_and-digit x (2 ^ suc i), below, pow-suc 2 i)

pub pow-bit_and : (i x : ℕ) → bit_and (2 ^ i) x ≡ (if test_bit x i then 2 ^ i else 0)
pow-bit_and zero x = ground (arith, bit_and-digit 1 x, zero-bit_and (x / 2))
pow-bit_and (suc i) x =
    let half : 2 ^ suc i / 2 ≡ 2 ^ i = omega (arith, pow-suc 2 i) in
    let below : bit_and (2 ^ suc i / 2) (x / 2) ≡ (if test_bit (x / 2) i then 2 ^ i else 0) =
      rw half (pow-bit_and i (x / 2)) in
    ground (arith, bit_and-digit (2 ^ suc i) x, below, pow-suc 2 i)

pub pow-lt : (i w : ℕ) → i < w → 2 ^ i < 2 ^ w
pow-lt i zero h = elim h [ ]
pow-lt zero (suc w) h = omega (arith, pow-suc 2 w, one-le-pow w 2)
pow-lt (suc i) (suc w) h = omega (arith, pow-suc 2 w, pow-suc 2 i, pow-lt i w (omega arith))

-- Clearing one bit of a word, and setting one.
pub test_bit-clear :
    (w x i j : ℕ)
    → i < w
    → j < w
    → test_bit (bit_and x (complement w (2 ^ i))) j ≡ (test_bit x j && not (i == j))
test_bit-clear w x i j hi hj =
    test_bit-bit_and x (complement w (2 ^ i)) j
    ∙ ap (λ b. test_bit x j && b)
        (test_bit-complement w (2 ^ i) j (pow-lt i w hi) hj ∙ ap not (test_bit-pow i j))

pub test_bit-set : (x i j : ℕ) → test_bit (bit_or x (2 ^ i)) j ≡ (test_bit x j || (i == j))
test_bit-set x i j = test_bit-bit_or x (2 ^ i) j ∙ ap (λ b. test_bit x j || b) (test_bit-pow i j)

-- A word is zero exactly when it has no bit.
pub zero_of_test_bit : (w x : ℕ) → x < 2 ^ w → ((i : ℕ) → i < w → test_bit x i ≡ false) → x ≡ 0
zero_of_test_bit w x h none =
    eq_of_test_bit w x 0 h (one-le-pow w 2 (omega arith)) (λ i k. none i k ∙ sym (test_bit-zero i))

pub pow-pos : (i : ℕ) → 0 < 2 ^ i
pow-pos i = one-le-pow i 2 (omega arith)

pub div-pow-suc : (x i : ℕ) → x / 2 ^ suc i ≡ x / 2 / 2 ^ i
div-pow-suc x i =
    ap (λ y. x / y) {y = 2 * 2 ^ i} (omega (arith, pow-suc 2 i))
    ∙ sym (div-div-eq-div-mul x 2 (2 ^ i))

pub test_bit-div : (x i : ℕ) → test_bit x i ≡ (x / 2 ^ i % 2 == 1)
test_bit-div x zero = ap (λ y. y % 2 == 1) {y = x / 2 ^ 0} (omega arith)
test_bit-div x (suc i) = test_bit-div (x / 2) i ∙ ap (λ y. y % 2 == 1) (sym (div-pow-suc x i))

bit_or-zero_fuel : (n a : ℕ) → a ≤ n → bit_or a 0 ≡ a
bit_or-zero_fuel n zero h = bit_or-bitwise 0 0
bit_or-zero_fuel zero (suc a) h = absurd (omega arith)
bit_or-zero_fuel (suc n) (suc a) h =
    omega (arith, bit_or-digit (suc a) 0, bit_or-zero_fuel n (suc a / 2) (omega arith))

pub bit_or-zero : (a : ℕ) → bit_or a 0 ≡ a
bit_or-zero a = bit_or-zero_fuel a a (omega arith)

-- A bit below all those of a word is added by `|`.
pub bit_or-pow : (i k : ℕ) → bit_or (k * 2 ^ suc i) (2 ^ i) ≡ k * 2 ^ suc i + 2 ^ i
bit_or-pow zero k =
    let half : k * 2 / 2 ≡ k = omega arith in
    let rest : bit_or (k * 2 / 2) (1 / 2) ≡ k = rw half (bit_or-zero k) in
    omega (arith, bit_or-digit (k * 2) 1, rest)
bit_or-pow (suc i) k =
    let twice : k * 2 ^ suc (suc i) ≡ 2 * (k * 2 ^ suc i) =
      omega (arith, ap (λ t. k * t) (pow-suc 2 (suc i))) in
    let half : k * 2 ^ suc (suc i) / 2 ≡ k * 2 ^ suc i = omega (arith, twice) in
    let low : 2 ^ suc i / 2 ≡ 2 ^ i = omega (arith, pow-suc 2 i) in
    let rest : bit_or (k * 2 ^ suc (suc i) / 2) (2 ^ suc i / 2) ≡ k * 2 ^ suc i + 2 ^ i =
      rw (half, low) (bit_or-pow i k) in
    omega (arith, bit_or-digit (k * 2 ^ suc (suc i)) (2 ^ suc i), rest, twice, pow-suc 2 i)

-- A test of one bit, as C writes it.
pub nonzero-bit_and : (x i : ℕ) → nonzero (bit_and x (2 ^ i)) ≡ test_bit x i
nonzero-bit_and x i = ground (arith, bit_and-pow x i, pow-pos i)

pub nonzero-pow_and : (x i : ℕ) → nonzero (bit_and (2 ^ i) x) ≡ test_bit x i
nonzero-pow_and x i = ground (arith, pow-bit_and i x, pow-pos i)
