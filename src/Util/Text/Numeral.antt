-- ===== src/Util/Text/Numeral.antt =====
-- strtoi of common/util.c on the numerals that the console takes.
use chromium_ec.Common.{
  ℕ, ◌%◌, ◌^◌, ◌<◌, ◌≤◌, ◌≡◌, ◌≢◌, refl, ◌∙◌, ap, true, false, none, some, List, [], ◌∷◌, ◌++◌,
  arith,
}
use chromium_ec.Util.Text.{
  char_at, digit_value, read_digits, isspace, skip_spaces, read_number, strtoi, negated, int_neg,
}
use chromium_ec.Util.Text.Number.{
  Denotes, value_from, Stops, read_digits-Denotes, IsNumeral, EndsNumeral, IsNumeral-Denotes,
  EndsNumeral-Stops,
}

abbrev pub AllSpaces : List ℕ → Type 0
AllSpaces [] = Unit
AllSpaces (c ∷ s) = (isspace c ≡ true) × AllSpaces s

skip_spaces-append :
    (ws : List ℕ) (c : ℕ) (s : List ℕ)
    → AllSpaces ws
    → isspace c ≡ false
    → skip_spaces (ws ++ c ∷ s) ≡ c ∷ s
unfolding skip_spaces
skip_spaces-append [] c s h n = rw n
skip_spaces-append (w ∷ ws) c s h n = rw h.0 (skip_spaces-append ws c s h.1 n)

-- A digit of a base up to 36 is no space and no sign.
pub digit-isspace : (base c v : ℕ) → digit_value base c ≡ some v → isspace c ≡ false
unfolding digit_value
digit-isspace base c v h = ground arith

pub digit-minus : (base c v : ℕ) → digit_value base c ≡ some v → c ≢ b'-'
unfolding digit_value
digit-minus base c v h = ground arith

-- `x` is no digit of a base up to 33.
x_is_no_digit : (base : ℕ) → base ≤ 33 → digit_value base b'x' ≡ none
unfolding digit_value
x_is_no_digit base h = ground arith

-- What follows the first digit of a numeral does not begin with `x`.
no_x :
    (base : ℕ) (cs vs rest : List ℕ)
    → base ≤ 33
    → Denotes base cs vs
    → char_at rest ≢ b'x'
    → char_at (cs ++ rest) ≢ b'x'
no_x base [] vs rest hb d nx = nx
no_x base (c ∷ cs) [] rest hb d nx = absurd d
no_x base (c ∷ cs) (v ∷ vs) rest hb d nx = λ e. ground (arith, x_is_no_digit base hb, d.0)

-- The last branch of strtoi.
read_number-plain :
    (nptr : List ℕ) (base c : ℕ) (s : List ℕ)
    → 0 < base
    → char_at s ≢ b'x'
    → read_number nptr base (c ∷ s) ≡ read_digits base 0 nptr (c ∷ s)
unfolding read_number
read_number-plain nptr base c s hb nx = ground arith

read_number-hex :
    (nptr : List ℕ) (base : ℕ) (s : List ℕ)
    → read_number nptr base (b'0' ∷ b'x' ∷ s) ≡ read_digits 16 0 nptr s
unfolding read_number
read_number-hex nptr base s = refl

read_number-minus :
    (nptr s : List ℕ) → read_number nptr 0 (b'-' ∷ s) ≡ negated (read_digits 10 0 nptr s)
unfolding read_number
read_number-minus nptr s = refl

-- A numeral by the tests of the code.
pub strtoi-Denotes :
    (ws : List ℕ) (base c v : ℕ) (cs vs rest : List ℕ)
    → AllSpaces ws
    → 0 < base
    → base ≤ 33
    → Denotes base (c ∷ cs) (v ∷ vs)
    → Stops base rest
    → char_at rest ≢ b'x'
    → strtoi (ws ++ ((c ∷ cs) ++ rest)) base ≡ (value_from base 0 (v ∷ vs) % 2 ^ 32, rest)
unfolding strtoi
strtoi-Denotes ws base c v cs vs rest hw hb hb' d s nx =
    ap (read_number _ base) (skip_spaces-append ws c (cs ++ rest) hw (digit-isspace base c v d.0))
    ∙ read_number-plain _ base c (cs ++ rest) hb (no_x base cs vs rest hb' d.1 nx)
    ∙ read_digits-Denotes base 0 0 _ rest c v cs vs refl d s

-- After any white space, a numeral of one digit or more in the given base (from 1 to 33), with
-- digits `0` to `9` and then letters from `a` or `A` on, followed by text that goes on neither with
-- a digit of the base nor with `x`, is read whole: strtoi returns its value modulo 2^32, and
-- `*endptr` is the text that follows.
pub strtoi-numeral :
    (ws : List ℕ) (base c v : ℕ) (cs vs rest : List ℕ)
    → AllSpaces ws
    → 0 < base
    → base ≤ 33
    → IsNumeral base (c ∷ cs) (v ∷ vs)
    → EndsNumeral base rest
    → char_at rest ≢ b'x'
    → strtoi (ws ++ ((c ∷ cs) ++ rest)) base ≡ (value_from base 0 (v ∷ vs) % 2 ^ 32, rest)
strtoi-numeral ws base c v cs vs rest hw low high n ends nx =
    strtoi-Denotes ws base c v cs vs rest hw low high
      (IsNumeral-Denotes base (c ∷ cs) (v ∷ vs) (omega arith) n)
      (EndsNumeral-Stops base rest (omega arith) ends) nx

-- After any white space, `0x` and a hexadecimal numeral is read whole in base 16, whatever base is
-- asked for.
pub strtoi-hex :
    (ws : List ℕ) (base c v : ℕ) (cs vs rest : List ℕ)
    → AllSpaces ws
    → Denotes 16 (c ∷ cs) (v ∷ vs)
    → Stops 16 rest
    → strtoi (ws ++ (b'0' ∷ b'x' ∷ ((c ∷ cs) ++ rest))) base
      ≡ (value_from 16 0 (v ∷ vs) % 2 ^ 32, rest)
unfolding strtoi
strtoi-hex ws base c v cs vs rest hw d s =
    ap (read_number _ base) (skip_spaces-append ws b'0' (b'x' ∷ ((c ∷ cs) ++ rest)) hw refl)
    ∙ read_number-hex _ base ((c ∷ cs) ++ rest)
    ∙ read_digits-Denotes 16 0 0 _ rest c v cs vs refl d s

-- After any white space and a minus sign, with base 0, a decimal numeral is read whole and negated.
pub strtoi-negative :
    (ws : List ℕ) (c v : ℕ) (cs vs rest : List ℕ)
    → AllSpaces ws
    → Denotes 10 (c ∷ cs) (v ∷ vs)
    → Stops 10 rest
    → strtoi (ws ++ (b'-' ∷ ((c ∷ cs) ++ rest))) 0
      ≡ (int_neg (value_from 10 0 (v ∷ vs) % 2 ^ 32), rest)
unfolding strtoi
strtoi-negative ws c v cs vs rest hw d s =
    ap (read_number _ 0) (skip_spaces-append ws b'-' ((c ∷ cs) ++ rest) hw refl)
    ∙ read_number-minus _ ((c ∷ cs) ++ rest)
    ∙ ap negated (read_digits-Denotes 10 0 0 _ rest c v cs vs refl d s)

-- Without a minus sign, base 0 reads as base 10 does.
pub strtoi-auto :
    (c : ℕ) (s : List ℕ) → isspace c ≡ false → c ≢ b'-' → strtoi (c ∷ s) 0 ≡ strtoi (c ∷ s) 10
unfolding strtoi skip_spaces read_number
strtoi-auto c s space minus = rw space (ground (arith, minus))
