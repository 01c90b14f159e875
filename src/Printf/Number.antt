-- ===== src/Printf/Number.antt =====
-- The number that vfnprintf of common/printf.c writes into `intbuf`: it ends, and it fits.
use chromium_ec.Common.{
  ℕ, zero, suc, ◌+◌, ◌-◌, ◌*◌, ◌^◌, ◌≤◌, ◌<◌, ◌≡◌, ◌≢◌, ◌⊎◌, inl, inr, refl, ap, Bool, true, false,
  List, [], ◌∷◌, ◌==◌, some, if◌then◌else◌, length, min, arith, Bool-cases, max,
}
use mathlib.Core.Option
use native.Mathlib.Nat.{pow-suc, pow-zero, mul-le-mul_left}
use chromium_ec.Util.Divmod.{uint64divmod}
use chromium_ec.Util.Divmod.Division.{uint64divmod-divides}
use chromium_ec.Printf.{fraction, whole, number_text, digit_char}

lt_of_mul : (q b m : ℕ) → q * b < m * b → q < m
lt_of_mul q b m h = grind arith

-- A division by at least `b` takes a factor `b` off a bound.
quotient-lt :
    (v d b e : ℕ)
    → v < 2 ^ 64
    → 0 < b
    → b ≤ d
    → d ≤ 16
    → v < b ^ e
    → (uint64divmod v d).0 < b ^ (e - 1)
quotient-lt v d b zero word pos le small h =
    let (whole_v, rest) = uint64divmod-divides v d word (omega arith) (omega arith) in
    let q = (uint64divmod v d).0 in
    let step : q * 1 ≤ q * d = mul-le-mul_left q (omega arith) in
    let q0 : q < 1 = omega (arith, whole_v, step, pow-zero b) in omega (arith, q0, pow-zero b)
quotient-lt v d b (suc e) word pos le small h =
    let (whole_v, rest) = uint64divmod-divides v d word (omega arith) (omega arith) in
    let q = (uint64divmod v d).0 in
    let step : q * b ≤ q * d = mul-le-mul_left q le in
    let back : suc e - 1 ≡ e = omega arith in
    rw back (lt_of_mul q b (b ^ e) (omega (arith, whole_v, step, pow-suc b e)))

pub divmod-word : (v d : ℕ) → v < 2 ^ 64 → 0 < d → d ≤ 16 → (uint64divmod v d).0 ≤ v
divmod-word v d word pos small =
    let (whole_v, rest) = uint64divmod-divides v d word pos (omega arith) in
    let q = (uint64divmod v d).0 in
    let step : q * 1 ≤ q * d = mul-le-mul_left q pos in omega (arith, whole_v, step)

fraction-lt :
    (p v b e : ℕ) (vstr : List ℕ)
    → v < 2 ^ 64
    → 0 < b
    → b ≤ 10
    → v < b ^ e
    → ((fraction p v vstr).0 < b ^ (e - p))
      × ((fraction p v vstr).0 < 2 ^ 64)
      × (length (fraction p v vstr).1 ≡ p + length vstr)
unfolding fraction
fraction-lt zero v b e vstr word pos le h =
    let same : e - 0 ≡ e = omega arith in (rw same h, word, omega arith)
fraction-lt (suc p) v b e vstr word pos le h =
    let (v', digit) = uint64divmod v 10 in
    let (small, word', len) =
      fraction-lt p v' b (e - 1) ((b'0' + digit) ∷ vstr)
        (omega (arith, divmod-word v 10 word (omega arith) (omega arith))) pos le
        (quotient-lt v 10 b e word pos le (omega arith) h) in
    let same : e - 1 - p ≡ e - suc p = omega arith in (rw (← same) small, word', omega (arith, len))

bound_pos : (v b n : ℕ) → v < b ^ n → v ≢ 0 → 0 < n
bound_pos v b zero h ne = absurd (ne (omega (arith, h, pow-zero b)))
bound_pos v b (suc n) h ne = omega arith

-- The loop ends, and writes no more digits than the bound has.
whole-some :
    (fuel base v b n : ℕ) (upper : Bool) (vstr : List ℕ)
    → v < 2 ^ 64
    → 0 < b
    → b ≤ base
    → base ≤ 16
    → v < b ^ n
    → n < fuel
    → (out : List ℕ) × (whole fuel base upper v vstr ≡ some out) × (length out ≤ n + length vstr)
unfolding whole
whole-some zero base v b n upper vstr word pos le small h f = absurd (omega arith)
whole-some (suc fuel) base v b n upper vstr word pos le small h f = elim (Bool-cases (v == 0)) [
  | inl done ↦ rw done (vstr, refl, omega arith)
  | inr more ↦
      let (v', digit) = uint64divmod v base in
      let some_bits = bound_pos v b n h (ground (arith, more)) in
      let (out, e, len) =
        whole-some fuel base v' b (n - 1) upper (digit_char upper digit ∷ vstr)
          (omega (arith, divmod-word v base word (omega arith) small)) pos le small
          (quotient-lt v base b n word pos le small h) (omega arith) in
      rw more (out, e, omega (arith, len, some_bits))
]

pub whole-zero : (base : ℕ) (upper : Bool) (vstr : List ℕ) → whole 65 base upper 0 vstr ≡ some vstr
unfolding whole
whole-zero base upper vstr = refl

-- The digits before the point, or "0".
pub whole_start-some :
    (base v b n : ℕ) (upper : Bool) (vstr : List ℕ)
    → v < 2 ^ 64
    → 0 < b
    → b ≤ base
    → base ≤ 16
    → v < b ^ n
    → n < 65
    → (out : List ℕ) × (whole 65 base upper v (if v == 0 then b'0' ∷ vstr else vstr) ≡ some out)
      × (length out ≤ max 1 n + length vstr)
whole_start-some base v b n upper vstr word pos le small h f = elim (Bool-cases (v == 0)) [
  | inl e ↦
      let v0 : v ≡ 0 = ground (arith, e) in
      (b'0' ∷ vstr, rw v0 (whole-zero base upper (b'0' ∷ vstr)), omega arith)
  | inr e ↦
      let (out, eq, len) = whole-some 65 base v b n upper vstr word pos le small h f in
      (out, rw e eq, omega (arith, len))
]

pointed-length :
    (p : ℕ) (digits : List ℕ)
    → length digits ≡ p + 0
    → length (if p == 0 then digits else b'.' ∷ digits) ≤ (if p == 0 then 0 else p + 1)
pointed-length zero digits len = omega (arith, len)
pointed-length (suc p) digits len = ground (arith, len)

signed-length :
    (negative : Bool) (s : List ℕ) (n : ℕ)
    → length s ≤ n
    → length (if negative then b'-' ∷ s else s) ≤ (if negative then 1 else 0) + n
signed-length true s n le = omega (arith, le)
signed-length false s n le = omega (arith, le)

number_text-some :
    (base : ℕ) (upper negative : Bool) (precision v b e : ℕ)
    → v < 2 ^ 64
    → 0 < b
    → b ≤ 10
    → b ≤ base
    → base ≤ 16
    → v < b ^ e
    → e < 65
    → let p = min precision 31 in
      (s : List ℕ) × (number_text base upper negative precision v ≡ some s)
      × (length s ≤ (if negative then 1 else 0) + (max 1 (e - p) + (if p == 0 then 0 else p + 1)))
unfolding number_text
number_text-some base upper negative precision v b e word pos ten le small h f =
    let p = min precision 31 in
    let (low, word', len) = fraction-lt p v b e [] word pos ten h in
    let digits = (fraction p v []).1 in
    let pointed = if p == 0 then digits else b'.' ∷ digits in
    let (out, eq, bound) =
      whole_start-some base (fraction p v []).0 b (e - p) upper pointed word' pos le small low
        (omega arith) in
    (
      if negative then b'-' ∷ out else out,
      ap (Option.map (λ s. if negative then b'-' ∷ s else s)) eq,
      signed-length negative out (max 1 (e - p) + (if p == 0 then 0 else p + 1))
          (omega (arith, bound, pointed-length p digits len)),
    )

-- A number below 2 ^ 64 in base 8 to 16, or one below 2 ^ 32 in base 2, which is not negative when
-- the precision is above 30.
abbrev pub FitsIntbuf : ℕ → Bool → ℕ → ℕ → Type 0
FitsIntbuf base negative precision v =
    ((negative ≡ true) → precision ≤ 30)
    × (((8 ≤ base) × (base ≤ 16) × (v < 2 ^ 64)) ⊎ ((base ≡ 2) × (negative ≡ false) × (v < 2 ^ 32)))

total_length :
    (negative : Bool) (precision e : ℕ)
    → ((negative ≡ true) → precision ≤ 30)
    → (e ≤ 22) ⊎ ((e ≤ 32) × (negative ≡ false))
    → let p = min precision 31 in
      (if negative then 1 else 0) + (max 1 (e - p) + (if p == 0 then 0 else p + 1)) ≤ 33
total_length true precision e h (inl le) = ground (arith, h refl)
total_length true precision e h (inr (le, plain)) = ground (arith, plain)
total_length false precision e h (inl le) = ground arith
total_length false precision e h (inr (le, plain)) = ground arith

-- For a base from 8 to 16 and a number below 2 ^ 64, or base 2 and a number below 2 ^ 32 that has
-- no sign, and for any precision, at most 30 with a sign: the conversion ends, and its text with
-- the sign and the point has at most 33 characters, which with the NUL fit the 34 of `intbuf`.
pub number_text-FitsIntbuf :
    (base : ℕ) (upper negative : Bool) (precision v : ℕ)
    → FitsIntbuf base negative precision v
    → (s : List ℕ) × (number_text base upper negative precision v ≡ some s) × (length s ≤ 33)
number_text-FitsIntbuf base upper negative precision v (sign, inl (low, high, word)) =
    let (s, eq, len) =
      number_text-some base upper negative precision v 8 22 word (omega arith) (omega arith) low
        high (omega arith) (omega arith) in
    (s, eq, omega (arith, len, total_length negative precision 22 sign (inl (omega arith))))
number_text-FitsIntbuf base upper negative precision v (sign, inr (two, plain, word)) =
    let (s, eq, len) =
      number_text-some base upper negative precision v 2 32 (omega arith) (omega arith)
        (omega arith) (omega arith) (omega arith) word (omega arith) in
    (s, eq, omega (arith, len, total_length negative precision 32 sign (inr (omega arith, plain))))
