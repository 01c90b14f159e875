-- ===== src/Util/Divmod.antt =====
-- uint64divmod of common/util.c. An `int` that the code shifts is a 32-bit pattern,
-- read as signed where it is compared.
pub mod Division
use chromium_ec.Common.{
  ℕ, zero, suc, ◌+◌, ◌-◌, ◌*◌, ◌/◌, ◌%◌, ◌^◌, Bool, true, false, not, ◌&&◌, ltb, leb, ◌==◌,
  if◌then◌else◌, bit_and, bit_or,
}
use chromium_ec.Common.Bits.{test_bit}

-- `r >= d` for an `int` pattern `r` and a positive `int` d.
abbrev pub int_ge : ℕ → ℕ → Bool
int_ge r d = ltb r (2 ^ 31) && leb d r

-- `r <<= 1; if (*n & mask) r |= 1;` for the mask `1 << i`.
abbrev pub shift_in : ℕ → ℕ → ℕ → ℕ
shift_in n i r = (if test_bit n i then r * 2 % 2 ^ 32 + 1 else r * 2 % 2 ^ 32)

-- The slow loop with `i` masks left, from `1 << (i - 1)` down: the quotient and the remainder.
unfoldable pub divide_from : ℕ → ℕ → ℕ → ℕ → ℕ → ℕ × ℕ
divide_from zero n d q r = (q, r)
divide_from (suc i) n d q r =
    divide_from i n d (if int_ge (shift_in n i r) d then bit_or q (2 ^ i) else q)
      (if int_ge (shift_in n i r) d then shift_in n i r - d else shift_in n i r)

-- The new `*n` and the value returned. `d` is not negative.
unfoldable pub uint64divmod : ℕ → ℕ → ℕ × ℕ
uint64divmod n d =
    if d == 0
    then (0, 0)
    else if d == 2
    then (n / 2, n % 2)
    else if d == 16
    then (n / 16, n % 16)
    else if leb n 0xffffffff
    then (n / d, n % d)
    else divide_from 64 n d 0 0
