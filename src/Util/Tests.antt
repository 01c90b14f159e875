-- ===== src/Util/Tests.antt =====
-- The functions of common/util.c at concrete inputs.
use chromium_ec.Common.{
  ℕ, ◌≡◌, ◌+◌, ◌-◌, ◌*◌, ◌^◌, ◌<◌, refl, true, false, List, [], ◌∷◌, arith, inl,
}
use chromium_ec.Util.Memory.{Memory, memcpy, memmove}
use chromium_ec.Util.Memory.Up.{memcpy-copied}
use chromium_ec.Util.Memory.Down.{memmove-copied}
use chromium_ec.Util.Divmod.{uint64divmod, divide_from}
use chromium_ec.Util.Divmod.Division.{uint64divmod-divides}
use chromium_ec.Util.Cond.{Op, assign, ask, poll, run}
use chromium_ec.Util.Cond.Edges.{run-edges, spec_run, view}
use chromium_ec.Util.Text.{strtoi}
use chromium_ec.Util.Text.Numeral.{strtoi-numeral}

-- Byte `a` of this memory is `a`.
abbrev ramp : Memory
ramp = λ a. a

-- Eleven bytes move up by four, over themselves, by words.
memmove-copied_example : memmove 9 5 11 ramp 12 ≡ 8
memmove-copied_example = memmove-copied 9 5 11 ramp 12

memcpy-copied_example : memcpy 5 9 11 ramp 15 ≡ 19
memcpy-copied_example = memcpy-copied 5 9 11 ramp 15 (inl (omega arith))

abbrev dividend : ℕ
dividend = 0x1234_5678_9abc_def0

uint64divmod-divides_example :
    (dividend ≡ (uint64divmod dividend 1000000).0 * 1000000 + (uint64divmod dividend 1000000).1)
    × ((uint64divmod dividend 1000000).1 < 1000000)
uint64divmod-divides_example =
    uint64divmod-divides dividend 1000000 (omega arith) (omega arith) (omega arith)

-- Above 2^30 the shifted remainder overflows its `int`: 2^62 by 2^31 - 1 is 2^31 + 1, remainder 1.
divisor_too_large : uint64divmod (2 ^ 62) (2 ^ 31 - 1) ≡ (0, 0)
unfolding uint64divmod divide_from
divisor_too_large = refl

abbrev polls : List Op
polls =
    assign true ∷ assign true ∷ poll true ∷ poll true ∷ assign false ∷ ask true ∷ poll false ∷ []

run-edges_example : run 0 polls ≡ spec_run (view 0) polls
run-edges_example = run-edges polls 0 (omega arith)

-- " 42 ", "0x2a" and "-42"
strtoi-numeral_example : strtoi (b' ' ∷ b'4' ∷ b'2' ∷ b' ' ∷ []) 10 ≡ (42, b' ' ∷ [])
strtoi-numeral_example =
    strtoi-numeral (b' ' ∷ []) 10 b'4' 4 (b'2' ∷ []) (2 ∷ []) (b' ' ∷ []) (refl, tt) (omega arith)
      (omega arith) ((omega arith, inl refl), ((omega arith, inl refl), tt))
      (λ v d. ground (arith, d)) (omega arith)
