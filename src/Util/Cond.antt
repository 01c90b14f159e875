-- ===== src/Util/Cond.antt =====
-- The stateful conditions of common/util.c and include/util.h: a value that remembers, one bit each
-- (COND_CURR_MASK, COND_RISE_MASK, COND_FALL_MASK in a uint8_t), that it has risen and fallen.
pub mod Edges
pub mod Settled
use chromium_ec.Common.{
  ℕ, ◌^◌, Bool, true, false, not, ◌&&◌, ◌==◌, if◌then◌else◌, bit_and, bit_or, List, [], ◌∷◌,
}
use chromium_ec.Common.Bits.{complement}

abbrev pub curr_mask : ℕ
curr_mask = 2 ^ 0

abbrev pub rise_mask : ℕ
rise_mask = 2 ^ 1

abbrev pub fall_mask : ℕ
fall_mask = 2 ^ 2

abbrev pub set_bits : ℕ → ℕ → ℕ
set_bits c mask = bit_or c mask

abbrev pub clear_bits : ℕ → ℕ → ℕ
clear_bits c mask = bit_and c (complement 8 mask)

abbrev pub has_bits : ℕ → ℕ → Bool
has_bits c mask = not (bit_and c mask == 0)

-- `cond_init`; an `int` that is only tested is a Boolean.
unfoldable pub init : Bool → ℕ
init val = if val then curr_mask else 0

-- `cond_is`
pub is : ℕ → Bool → Bool
is c val = if val then has_bits c curr_mask else not (has_bits c curr_mask)

-- The first `if` of `cond_set`.
pub mark_edge : ℕ → Bool → ℕ
mark_edge c val =
    if val && is c false
    then set_bits c rise_mask
    else if not val && is c true
    then set_bits c fall_mask
    else c

-- `cond_set`
pub set : ℕ → Bool → ℕ
set c val =
    let c' = mark_edge c val in if val then set_bits c' curr_mask else clear_bits c' curr_mask

-- `cond_went`: whether the edge was seen, and the condition without it.
pub went : ℕ → Bool → Bool × ℕ
went c val =
    if val
    then (has_bits c rise_mask, clear_bits c rise_mask)
    else (has_bits c fall_mask, clear_bits c fall_mask)

-- What a client does with a condition, and what it is told.
pub data Op : Type 0 where
  assign : Bool → Op
  ask : Bool → Op
  poll : Bool → Op

pub run : ℕ → List Op → List Bool
run c [] = []
run c (assign val ∷ ops) = run (set c val) ops
run c (ask val ∷ ops) = is c val ∷ run c ops
run c (poll val ∷ ops) = let (r, c') = went c val in r ∷ run c' ops
