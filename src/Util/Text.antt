-- ===== src/Util/Text.antt =====
-- The string functions of common/util.c. A string is the list of its bytes before the NUL, each
-- from 1 to 255 (`char` is unsigned on the EC's cores); a pointer into it is the rest of the list.
-- An `int` that is computed with is its 32-bit pattern.
pub mod Compare
pub mod Number
pub mod Numeral
use chromium_ec.Common.{
  ℕ, zero, suc, ◌+◌, ◌-◌, ◌*◌, ◌%◌, ◌^◌, Bool, true, false, not, ◌&&◌, ◌||◌, ltb, leb, ◌==◌,
  if◌then◌else◌, Option, none, some, List, [], ◌∷◌, min,
}

-- `*s`
abbrev pub char_at : List ℕ → ℕ
char_at [] = 0
char_at (c ∷ s) = c

abbrev pub isspace : ℕ → Bool
isspace c = c == b' ' || (c == 9 || (c == 13 || c == 10))

abbrev pub isdigit : ℕ → Bool
isdigit c = leb b'0' c && leb c b'9'

abbrev pub tolower : ℕ → ℕ
tolower c = if leb b'A' c && leb c b'Z' then c + b'a' - b'A' else c

-- The pattern of the `int` a - b.
abbrev pub int_sub : ℕ → ℕ → ℕ
int_sub a b = (a + 2 ^ 32 - b) % 2 ^ 32

-- The loop ends after a round that reads the end of `s1` or, if that differs, of `s2`.
pub strcasecmp : List ℕ → List ℕ → ℕ
strcasecmp [] s2 = int_sub (tolower 0) (tolower (char_at s2))
strcasecmp (c ∷ s1) [] = int_sub (tolower c) (tolower 0)
strcasecmp (c ∷ s1) (d ∷ s2) =
    let diff = int_sub (tolower c) (tolower d) in if diff == 0 then strcasecmp s1 s2 else diff

pub strncasecmp : List ℕ → List ℕ → ℕ → ℕ
strncasecmp s1 s2 zero = 0
strncasecmp [] s2 (suc size) = int_sub (tolower 0) (tolower (char_at s2))
strncasecmp (c ∷ s1) [] (suc size) = int_sub (tolower c) (tolower 0)
strncasecmp (c ∷ s1) (d ∷ s2) (suc size) =
    let diff = int_sub (tolower c) (tolower d) in if diff == 0 then strncasecmp s1 s2 size else diff

-- `while ((c = *nptr++) && isspace(c));`: the string from `c` on.
pub skip_spaces : List ℕ → List ℕ
skip_spaces [] = []
skip_spaces (c ∷ s) = if isspace c then skip_spaces s else c ∷ s

-- The tests of the loop of strtoi. `base - 10` may be negative.
unfoldable pub digit_value : ℕ → ℕ → Option ℕ
digit_value base c =
    if leb b'0' c && ltb c (b'0' + min base 10)
    then some (c - b'0')
    else if leb b'A' c && ltb (c + 10) (b'A' + base)
    then some (c - b'A' + 10)
    else if leb b'a' c && ltb (c + 10) (b'a' + base)
    then some (c - b'a' + 10)
    else none

-- The loop of strtoi: the result so far, and `*endptr`.
pub read_digits : ℕ → ℕ → List ℕ → List ℕ → ℕ × List ℕ
read_digits base result endptr [] = (result, endptr)
read_digits base result endptr (c ∷ s) = elim (digit_value base c) [
  | some v ↦ read_digits base ((result * base + v) % 2 ^ 32) s s
  | none ↦ (result, endptr)
]

-- `-result` on the pattern of an `int`.
abbrev pub int_neg : ℕ → ℕ
int_neg r = (2 ^ 32 - r) % 2 ^ 32

-- `nptr += 2` at `x`, whose next character has been read.
abbrev pub after_x : List ℕ → List ℕ
after_x [] = []
after_x (x ∷ r) = r

abbrev pub negated : ℕ × List ℕ → ℕ × List ℕ
negated (r, e) = (int_neg r, e)

-- strtoi after the spaces, at the string from `c` on; `nptr` is the whole string.
pub read_number : List ℕ → ℕ → List ℕ → ℕ × List ℕ
read_number nptr base [] = (0, nptr)
read_number nptr base (c ∷ s) =
    if c == b'0' && char_at s == b'x'
    then read_digits 16 0 nptr (after_x s)
    else if base == 0
    then (if c == b'-' then negated (read_digits 10 0 nptr s) else read_digits 10 0 nptr (c ∷ s))
    else read_digits base 0 nptr (c ∷ s)

-- strtoi: the pattern returned, and `*endptr`.
pub strtoi : List ℕ → ℕ → ℕ × List ℕ
strtoi nptr base = read_number nptr base (skip_spaces nptr)

-- The loop of atoi.
pub read_decimal : ℕ → List ℕ → ℕ
read_decimal result [] = result
read_decimal result (c ∷ s) =
    let rest = read_decimal ((result * 10 + (c - b'0')) % 2 ^ 32) s in
    if isdigit c then rest else result

pub atoi_sign : List ℕ → ℕ
atoi_sign [] = 0
atoi_sign (c ∷ s) = if c == b'-' then int_neg (read_decimal 0 s) else read_decimal 0 (c ∷ s)

pub atoi : List ℕ → ℕ
atoi nptr = atoi_sign (skip_spaces nptr)

-- The value that parse_bool stores, if it returns 1.
pub parse_bool : List ℕ → Option Bool
parse_bool s =
    if strcasecmp s (b'o' ∷ b'f' ∷ b'f' ∷ []) == 0
      || (strncasecmp s (b'd' ∷ b'i' ∷ b's' ∷ []) 3 == 0
          || (tolower (char_at s) == b'f' || tolower (char_at s) == b'n'))
    then some false
    else if strcasecmp s (b'o' ∷ b'n' ∷ []) == 0
        || (strncasecmp s (b'e' ∷ b'n' ∷ b'a' ∷ []) 3 == 0
            || (tolower (char_at s) == b't' || tolower (char_at s) == b'y'))
    then some true
    else none

-- memcmp, on the bytes from the two pointers on; the source needs `len` of them at each.
pub memcmp : List ℕ → List ℕ → ℕ → ℕ
memcmp s1 s2 zero = 0
memcmp [] s2 (suc len) = 0
memcmp (c ∷ s1) [] (suc len) = 0
memcmp (c ∷ s1) (d ∷ s2) (suc len) =
    let diff = int_sub c d in if diff == 0 then memcmp s1 s2 len else diff

-- strzcpy: the bytes that it writes from `dest` on.
pub strzcpy : List ℕ → ℕ → List ℕ
strzcpy src zero = []
strzcpy src (suc zero) = 0 ∷ []
strzcpy [] (suc (suc len)) = 0 ∷ []
strzcpy (c ∷ src) (suc (suc len)) = c ∷ strzcpy src (suc len)
