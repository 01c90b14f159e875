-- ===== src/Util/Divmod/Division.antt =====
-- uint64divmod of common/util.c divides.
use native.Mathlib.Nat.{pow-suc, div-div-eq-div-mul}
use chromium_ec.Common.{
  ℕ, zero, suc, ◌+◌, ◌-◌, ◌*◌, ◌/◌, ◌%◌, ◌^◌, ◌<◌, ◌≤◌, ◌≡◌, ◌∙◌, sym, ap, true, false, arith,
  if◌then◌else◌, bit_or, Bool-cases, inl, inr,
}
use chromium_ec.Common.Bits.{test_bit, bit_or-pow, test_bit-div}
use chromium_ec.Util.Divmod.{int_ge, shift_in, divide_from, uint64divmod}

-- One more digit of `n`.
div-digit : (n i : ℕ) → n / 2 ^ i ≡ n / 2 ^ suc i * 2 + (if test_bit n i then 1 else 0)
div-digit n i =
    let below : n / 2 ^ suc i ≡ n / 2 ^ i / 2 =
      ap (λ y. n / y) {y = 2 ^ i * 2} (omega (arith, pow-suc 2 i))
      ∙ sym (div-div-eq-div-mul n (2 ^ i) 2) in
    ground (arith, below, test_bit-div n i)

-- What holds with `i` masks left: the digits of `n` above them are divided, and the quotient has
-- none of the digits that are to come.
record Divided (i n d q r : ℕ) : Type 0 where
  quotient : ℕ
  whole : q ≡ quotient * 2 ^ i
  digits : n / 2 ^ i ≡ quotient * d + r
  rest : r < d

-- A sum below 2 d, and so an `int`, is compared as it is.
int_ge-true : (t r d b : ℕ) → t ≡ r * 2 + b → b ≤ 1 → r < d → d ≤ 2 ^ 30 → int_ge t d ≡ true → d ≤ t
int_ge-true t r d b e h1 h2 h3 h4 = ground arith

int_ge-false :
    (t r d b : ℕ) → t ≡ r * 2 + b → b ≤ 1 → r < d → d ≤ 2 ^ 30 → int_ge t d ≡ false → t < d
int_ge-false t r d b e h1 h2 h3 h4 = ground arith

-- One round keeps it. The remainder stays below `d`, so twice the remainder fits an `int`.
Divided-step :
    (i n d q r : ℕ)
    → 0 < d
    → d ≤ 2 ^ 30
    → Divided (suc i) n d q r
    → Divided i n d
        (if int_ge (shift_in n i r) d then bit_or q (2 ^ i) else q)
        (if int_ge (shift_in n i r) d then shift_in n i r - d else shift_in n i r)
Divided-step i n d q r pos small v =
    let k = v.quotient in
    let b : ℕ = if test_bit n i then 1 else 0 in
    let bit : b ≤ 1 = ground arith in
    let t = shift_in n i r in
    let shifted : t ≡ r * 2 + b = ground (arith, v.rest) in
    let next : n / 2 ^ i ≡ k * d * 2 + t = omega (arith, div-digit n i, v.digits, shifted) in
    elim (Bool-cases (int_ge (shift_in n i r) d)) [
      | inl ge ↦
          let over = int_ge-true t r d b shifted bit v.rest small ge in
          rw ge (record {
            quotient = k * 2 + 1;
            whole =
                ap (λ x. bit_or x (2 ^ i)) v.whole
                ∙ bit_or-pow i k
                ∙ omega (arith, ap (λ t. k * t) (pow-suc 2 i));
            digits = omega (arith, next, over);
            rest = omega (arith, over, v.rest, shifted, bit);
          })
      | inr less ↦
          let under = int_ge-false t r d b shifted bit v.rest small less in
          rw less (record {
            quotient = k * 2;
            whole = v.whole ∙ omega (arith, ap (λ t. k * t) (pow-suc 2 i));
            digits = omega (arith, next);
            rest = under;
          })
    ]

divide_from-Divided :
    (i n d q r : ℕ)
    → 0 < d
    → d ≤ 2 ^ 30
    → Divided i n d q r
    → (n ≡ (divide_from i n d q r).0 * d + (divide_from i n d q r).1)
      × ((divide_from i n d q r).1 < d)
unfolding divide_from
divide_from-Divided zero n d q r pos small v =
    let same : q ≡ v.quotient = omega (arith, v.whole) in
    (omega (arith, v.digits, ap (λ t. t * d) same), v.rest)
divide_from-Divided (suc i) n d q r pos small v =
    divide_from-Divided i n d _ _ pos small (Divided-step i n d q r pos small v)

divide_lem : (n d : ℕ) → 0 < d → (n ≡ n / d * d + n % d) × (n % d < d)
divide_lem n d pos = (grind arith, omega arith)

-- For a divisor from 1 to 2^30 and any 64-bit number, the new `*n` and the value returned are the
-- quotient and the remainder: on the branch for division by 2, on the one for 16, on the 32-bit one
-- and in the shift-and-subtract loop.
pub uint64divmod-divides :
    (n d : ℕ)
    → n < 2 ^ 64
    → 0 < d
    → d ≤ 2 ^ 30
    → (n ≡ (uint64divmod n d).0 * d + (uint64divmod n d).1) × ((uint64divmod n d).1 < d)
unfolding uint64divmod
uint64divmod-divides n d word pos small =
    let zero_rounds : Divided 64 n d 0 0 = record {
      quotient = 0;
      whole = omega arith;
      digits = omega arith;
      rest = pos;
    } in
    ground (arith, divide_lem n d pos, divide_from-Divided 64 n d 0 0 pos small zero_rounds)
