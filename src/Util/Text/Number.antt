-- ===== src/Util/Text/Number.antt =====
-- The loops of strtoi and atoi in common/util.c read a numeral in its base.
use chromium_ec.Common.{
  ℕ, ◌+◌, ◌-◌, ◌*◌, ◌/◌, ◌%◌, ◌^◌, ◌<◌, ◌≤◌, ◌≡◌, refl, ◌∙◌, ap, ◌⊎◌, inl, inr, Option, none, some,
  List, [], ◌∷◌, ◌++◌, arith, ltb, leb, ◌&&◌, min, Bool-cases, if◌then◌else◌,
}
use chromium_ec.Util.Text.{digit_value, read_digits}

-- The character of a digit, and that of a digit above 9 in upper case.
abbrev pub digit_char : ℕ → ℕ
digit_char v = if ltb v 10 then b'0' + v else b'a' + (v - 10)

abbrev pub upper_char : ℕ → ℕ
upper_char v = if ltb v 10 then b'0' + v else b'A' + (v - 10)

pub digit_value-digit_char :
    (base v : ℕ) → v < base → base ≤ 36 → digit_value base (digit_char v) ≡ some v
unfolding digit_value
digit_value-digit_char base v h b = ground arith

pub digit_value-upper_char :
    (base v : ℕ) → v < base → base ≤ 36 → digit_value base (upper_char v) ≡ some v
unfolding digit_value
digit_value-upper_char base v h b = ground arith

-- `c` is the digit `v` of the base, in lower or upper case.
abbrev pub IsDigit : (base c v : ℕ) → Type 0
IsDigit base c v = (v < base) × ((c ≡ digit_char v) ⊎ (c ≡ upper_char v))

-- The characters `cs` are digits of the base with the values `vs`.
abbrev pub IsNumeral : ℕ → List ℕ → List ℕ → Type 0
IsNumeral base [] [] = Unit
IsNumeral base (c ∷ cs) [] = ⊥
IsNumeral base [] (v ∷ vs) = ⊥
IsNumeral base (c ∷ cs) (v ∷ vs) = IsDigit base c v × IsNumeral base cs vs

-- The text after a numeral does not begin with a digit of the base.
abbrev pub EndsNumeral : ℕ → List ℕ → Type 0
EndsNumeral base [] = Unit
EndsNumeral base (c ∷ s) = (v : ℕ) → ¬ IsDigit base c v

-- The same by the tests of the code.
abbrev pub Denotes : ℕ → List ℕ → List ℕ → Type 0
Denotes base [] [] = Unit
Denotes base (c ∷ cs) [] = ⊥
Denotes base [] (v ∷ vs) = ⊥
Denotes base (c ∷ cs) (v ∷ vs) = (digit_value base c ≡ some v) × Denotes base cs vs

-- The number that digits denote, continued from `acc`.
abbrev pub value_from : ℕ → ℕ → List ℕ → ℕ
value_from base acc [] = acc
value_from base acc (v ∷ vs) = value_from base (acc * base + v) vs

-- The text after a numeral does not go on with a digit, by the tests of the code.
abbrev pub Stops : ℕ → List ℕ → Type 0
Stops base [] = Unit
Stops base (c ∷ s) = digit_value base c ≡ none

digit_value-IsDigit : (base c v : ℕ) → base ≤ 36 → IsDigit base c v → digit_value base c ≡ some v
digit_value-IsDigit base c v b (lt, inl e) = rw e (digit_value-digit_char base v lt b)
digit_value-IsDigit base c v b (lt, inr e) = rw e (digit_value-upper_char base v lt b)

pub IsNumeral-Denotes :
    (base : ℕ) (cs vs : List ℕ) → base ≤ 36 → IsNumeral base cs vs → Denotes base cs vs
IsNumeral-Denotes base [] [] b n = tt
IsNumeral-Denotes base (c ∷ cs) [] b n = n
IsNumeral-Denotes base [] (v ∷ vs) b n = n
IsNumeral-Denotes base (c ∷ cs) (v ∷ vs) b (d, n) =
    (digit_value-IsDigit base c v b d, IsNumeral-Denotes base cs vs b n)

IsDigit-digit_value : (base c v : ℕ) → base ≤ 36 → digit_value base c ≡ some v → IsDigit base c v
unfolding digit_value
IsDigit-digit_value base c v b e = elim (Bool-cases (leb b'0' c && ltb c (b'0' + min base 10))) [
  | inl low ↦ (ground (arith, e, low), inl (ground (arith, e, low)))
  | inr high ↦ elim (Bool-cases (leb b'A' c && ltb (c + 10) (b'A' + base))) [
    | inl upper ↦ (ground (arith, e, high, upper), inr (ground (arith, e, high, upper)))
    | inr other ↦ (ground (arith, e, high, other), inl (ground (arith, e, high, other)))
  ]
]

pub EndsNumeral-Stops : (base : ℕ) (s : List ℕ) → base ≤ 36 → EndsNumeral base s → Stops base s
EndsNumeral-Stops base [] b h = tt
EndsNumeral-Stops base (c ∷ s) b h = go (digit_value base c) refl
  where
    go : (o : Option ℕ) → digit_value base c ≡ o → digit_value base c ≡ none
    go none e = e
    go (some v) e = absurd (h v (IsDigit-digit_value base c v b e))

mod_step : (a b base v : ℕ) → a ≡ b % 2 ^ 32 → (a * base + v) % 2 ^ 32 ≡ (b * base + v) % 2 ^ 32
mod_step a b base v e =
    let whole : b ≡ b / 2 ^ 32 * 2 ^ 32 + a = omega (arith, e) in
    let times : b * base ≡ b / 2 ^ 32 * base * 2 ^ 32 + a * base =
      omega (arith, ap (λ (t : ℕ). t * base) whole) in
    omega (arith, times)

read_digits-stop :
    (base r : ℕ) (e rest : List ℕ) → Stops base rest → read_digits base r e rest ≡ (r, e)
unfolding read_digits
read_digits-stop base r e [] h = refl
read_digits-stop base r e (c ∷ s) h = rw (h, read_digits)

-- The loop takes the digits and stops after the last: the result is the number modulo 2^32.
pub read_digits-Denotes :
    (base acc r : ℕ) (e rest : List ℕ) (c v : ℕ) (cs vs : List ℕ)
    → r ≡ acc % 2 ^ 32
    → Denotes base (c ∷ cs) (v ∷ vs)
    → Stops base rest
    → read_digits base r e ((c ∷ cs) ++ rest) ≡ (value_from base acc (v ∷ vs) % 2 ^ 32, rest)
unfolding read_digits
read_digits-Denotes base acc r e rest c v [] [] h d s =
    rw (d.0, read_digits)
      (read_digits-stop base ((r * base + v) % 2 ^ 32) rest rest s
        ∙ ap (λ x. (x, rest)) (mod_step r acc base v h))
read_digits-Denotes base acc r e rest c v [] (w ∷ vs) h d s = absurd d.1
read_digits-Denotes base acc r e rest c v (b ∷ cs) [] h d s = absurd d.1
read_digits-Denotes base acc r e rest c v (b ∷ cs) (w ∷ vs) h d s =
    rw (d.0, read_digits)
      (read_digits-Denotes base (acc * base + v) ((r * base + v) % 2 ^ 32) (b ∷ (cs ++ rest)) rest b
        w cs vs (mod_step r acc base v h) d.1 s)
