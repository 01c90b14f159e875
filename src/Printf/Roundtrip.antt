-- ===== src/Printf/Roundtrip.antt =====
-- The numbers that vfnprintf of common/printf.c prints, as strtoi of common/util.c reads them.
use chromium_ec.Common.{
  ℕ, zero, suc, ◌-◌, ◌%◌, ◌^◌, ◌≤◌, ◌<◌, ◌≡◌, ◌≢◌, inl, inr, refl, sym, ap, ◌∙◌, Bool, true, false,
  List, [], ◌∷◌, ◌++◌, leb, ltb, length, ◌==◌, some, if◌then◌else◌, arith, Bool-cases,
}
use mathlib.Core.List.{append-nil}
use mathlib.Core.Option
use chromium_ec.Util.Divmod.{uint64divmod}
use chromium_ec.Util.Divmod.Division.{uint64divmod-divides}
use chromium_ec.Util.Text.{strtoi, digit_value, int_neg}
use chromium_ec.Util.Text.Number.{Denotes, value_from}
use chromium_ec.Util.Text.Numeral.{
  strtoi-Denotes, strtoi-negative, digit-isspace, digit-minus, strtoi-auto,
}
use chromium_ec.Printf.{whole, number_text, number, signed, buffered, digit_char, ok, fraction}
use chromium_ec.Printf.Number.{
  divmod-word, whole_start-some, whole-zero, FitsIntbuf, number_text-FitsIntbuf,
}

digit_value-digit_char :
    (base d : ℕ) (upper : Bool)
    → d < base
    → base ≤ 16
    → digit_value base (digit_char upper d) ≡ some d
unfolding digit_value
digit_value-digit_char base d true h b = ground arith
digit_value-digit_char base d false h b = ground arith

-- The digits that `whole` writes denote the number before those that stand already.
whole-Denotes :
    (fuel base v : ℕ) (upper : Bool) (vstr ws out : List ℕ)
    → v < 2 ^ 64
    → 0 < base
    → base ≤ 16
    → Denotes base vstr ws
    → whole fuel base upper v vstr ≡ some out
    → (us : List ℕ) × Denotes base out us × (value_from base 0 us ≡ value_from base v ws)
unfolding whole
whole-Denotes zero base v upper vstr ws out word pos le d e = ground (arith, e)
whole-Denotes (suc fuel) base v upper vstr ws out word pos le d e = elim (Bool-cases (v == 0)) [
  | inl h ↦
      let same : some vstr ≡ some out = rw h at e in
      let text : vstr ≡ out = cc same in
      let v0 : v ≡ 0 = ground (arith, h) in
      rw (← text) (ws, d, ap (λ n. value_from base n ws) (sym v0))
  | inr h ↦
      let (v', digit) = uint64divmod v base in
      let (parts, small) = uint64divmod-divides v base word pos (omega arith) in
      let (us, den, val) =
        whole-Denotes fuel base v' upper (digit_char upper digit ∷ vstr) (digit ∷ ws) out
          (omega (arith, divmod-word v base word pos le)) pos le
          (digit_value-digit_char base digit upper small le, d) (rw h at e) in
      (us, den, val ∙ ap (λ n. value_from base n ws) (sym parts))
]

zero_value : (base : ℕ) → 8 ≤ base → digit_value base b'0' ≡ some 0
unfolding digit_value
zero_value base h = ground arith

-- `s` is a numeral of `v`, of one digit or more.
record Numeral (base v : ℕ) (s : List ℕ) : Type 0 where
  first : ℕ
  first_value : ℕ
  chars : List ℕ
  values : List ℕ
  text : s ≡ first ∷ chars
  denotes : Denotes base (first ∷ chars) (first_value ∷ values)
  value : value_from base 0 (first_value ∷ values) ≡ v

Numeral-intro :
    (base v : ℕ) (out us : List ℕ)
    → v ≢ 0
    → Denotes base out us
    → value_from base 0 us ≡ v
    → Numeral base v out
Numeral-intro base v [] [] ne d e = absurd (ne (sym e))
Numeral-intro base v [] (u ∷ us) ne d e = absurd d
Numeral-intro base v (c ∷ out) [] ne d e = absurd d
Numeral-intro base v (c ∷ out) (u ∷ us) ne d e = record {
  first = c;
  first_value = u;
  chars = out;
  values = us;
  text = refl;
  denotes = d;
  value = e;
}

-- The buffer of a number without precision, as far as its magnitude goes.
whole-Numeral :
    (base v : ℕ) (upper : Bool) (out : List ℕ)
    → v < 2 ^ 64
    → 8 ≤ base
    → base ≤ 16
    → whole 65 base upper v (if v == 0 then b'0' ∷ [] else []) ≡ some out
    → Numeral base v out
whole-Numeral base v upper out word low high e = elim (Bool-cases (v == 0)) [
  | inl h ↦
      let v0 : v ≡ 0 = ground (arith, h) in
      let written : some (b'0' ∷ []) ≡ some out =
        sym (whole-zero base upper (b'0' ∷ [])) ∙ rw v0 at e in
      let text : b'0' ∷ [] ≡ out = cc in
      rw (v0, ← text)
        (record {
          first = b'0';
          first_value = 0;
          chars = [];
          values = [];
          text = refl;
          denotes = (zero_value base low, tt);
          value = omega arith;
        })
  | inr h ↦
      let (us, den, val) =
        whole-Denotes 65 base v upper [] [] out word (omega arith) high tt (rw h at e) in
      Numeral-intro base v out us (ground (arith, h)) den val
]

-- The text of a number that has no precision and no sign, and that with one.
number_text-Numeral :
    (base v : ℕ) (upper negative : Bool)
    → v < 2 ^ 64
    → 8 ≤ base
    → base ≤ 16
    → (out : List ℕ) × Numeral base v out
      × (number_text base upper negative 0 v ≡ some (if negative then b'-' ∷ out else out))
unfolding number_text fraction
number_text-Numeral base v upper negative word low high =
    let (out, e, bound) =
      whole_start-some base v 8 22 upper [] word (omega arith) low high (omega arith)
        (omega arith) in
    (
      out,
      whole-Numeral base v upper out word low high e,
      ap (Option.map (λ s. if negative then b'-' ∷ s else s)) e,
    )

strtoi-Numeral :
    (base v : ℕ) (s : List ℕ)
    → v < 2 ^ 32
    → 0 < base
    → base ≤ 16
    → Numeral base v s
    → strtoi s base ≡ (v, [])
strtoi-Numeral base v s h low high n =
    let read =
      strtoi-Denotes [] base n.first n.first_value n.chars n.values [] tt low (omega arith)
        n.denotes tt (omega arith) in
    let whole_text : n.first ∷ n.chars ++ [] ≡ s = rw n.text (append-nil (n.first ∷ n.chars)) in
    let small : value_from base 0 (n.first_value ∷ n.values) % 2 ^ 32 ≡ v =
      omega (arith, n.value) in
    rw (whole_text, small) at read

strtoi-Numeral_minus :
    (v : ℕ) (s : List ℕ) → Numeral 10 v s → strtoi (b'-' ∷ s) 0 ≡ (int_neg (v % 2 ^ 32), [])
strtoi-Numeral_minus v s n =
    let read = strtoi-negative [] n.first n.first_value n.chars n.values [] tt n.denotes tt in
    let whole_text : n.first ∷ n.chars ++ [] ≡ s = rw n.text (append-nil (n.first ∷ n.chars)) in
    rw (whole_text, n.value) at read

strtoi-Numeral_plus : (v : ℕ) (s : List ℕ) → v < 2 ^ 32 → Numeral 10 v s → strtoi s 0 ≡ (v, [])
strtoi-Numeral_plus v s h n =
    let digit = n.denotes.0 in
    let auto =
      strtoi-auto n.first n.chars (digit-isspace 10 n.first n.first_value digit)
        (digit-minus 10 n.first n.first_value digit) in
    (rw (← n.text) at auto) ∙ strtoi-Numeral 10 v s h (omega arith) (omega arith) n

-- The magnitude of a negative number, negated again.
signed-true :
    (v : ℕ)
    → v < 2 ^ 32
    → leb (2 ^ 31) v ≡ true
    → (m : ℕ) × (signed false v ≡ (true, m)) × (m < 2 ^ 64) × (int_neg (m % 2 ^ 32) ≡ v)
signed-true v h neg = elim (Bool-cases (v == 2 ^ 31)) [
  | inl least ↦ (v, rw (neg, least) refl, omega arith, ground (arith, least))
  | inr e ↦ (2 ^ 32 - v, rw (neg, e) refl, omega arith, ground (arith, neg))
]

text_injective : {a b : List ℕ} → some a ≡ some b → a ≡ b
text_injective h = cc

-- A text that fits `intbuf` is given out.
buffered-FitsIntbuf :
    (base : ℕ) (upper negative : Bool) (v : ℕ) (out : List ℕ)
    → FitsIntbuf base negative 0 v
    → number_text base upper negative 0 v ≡ some out
    → buffered (number_text base upper negative 0 v) ≡ ok out
buffered-FitsIntbuf base upper negative v out fits e =
    let (s, e', len) = number_text-FitsIntbuf base upper negative 0 v fits in
    let same : s ≡ out = text_injective (sym e' ∙ e) in
    let short : ltb (length out) 34 ≡ true = ground (arith, rw same at len) in rw (e, short) refl

-- The pattern of an `int` prints by `%d` as a numeral that reads back with base 0.
signed_number :
    (v : ℕ) → v < 2 ^ 32 → (s : List ℕ) × (number b'd' false 0 v ≡ ok s) × (strtoi s 0 ≡ (v, []))
unfolding number
signed_number v h = elim (Bool-cases (leb (2 ^ 31) v)) [
  | inl minus ↦
      let (m, sign, word, back) = signed-true v h minus in
      let (out, n, e) = number_text-Numeral 10 m false true word (omega arith) (omega arith) in
      let fits =
        buffered-FitsIntbuf 10 false true m (b'-' ∷ out)
          ((λ _. omega arith), inl (omega arith, omega arith, word)) e in
      (b'-' ∷ out, rw sign fits, strtoi-Numeral_minus m out n ∙ ap (λ r. (r, [])) back)
  | inr plus ↦
      let (out, n, e) =
        number_text-Numeral 10 v false false (omega arith) (omega arith) (omega arith) in
      let fits =
        buffered-FitsIntbuf 10 false false v out
          ((λ _. omega arith), inl (omega arith, omega arith, omega arith)) e in
      (out, rw plus fits, strtoi-Numeral_plus v out h n)
]

unsigned_number :
    (base v : ℕ) (upper : Bool)
    → v < 2 ^ 32
    → 8 ≤ base
    → base ≤ 16
    → (s : List ℕ) × (buffered (number_text base upper false 0 v) ≡ ok s)
      × (strtoi s base ≡ (v, []))
unsigned_number base v upper h low high =
    let (out, n, e) = number_text-Numeral base v upper false (omega arith) low high in
    let fits =
      buffered-FitsIntbuf base upper false v out ((λ _. omega arith), inl (low, high, omega arith))
        e in
    (out, fits, strtoi-Numeral base v out h (omega arith) high n)

-- For each 32-bit number, as the pattern of an `int`: without a precision, `%d` gives a text that
-- strtoi reads back whole with base 0, `%u` one that it reads with base 10, and `%x` and `%X` ones
-- that it reads with base 16.
pub number-strtoi :
    (v : ℕ)
    → v < 2 ^ 32
    → ((s : List ℕ) × (number b'd' false 0 v ≡ ok s) × (strtoi s 0 ≡ (v, [])))
      × ((s : List ℕ) × (number b'u' false 0 v ≡ ok s) × (strtoi s 10 ≡ (v, [])))
      × ((s : List ℕ) × (number b'x' false 0 v ≡ ok s) × (strtoi s 16 ≡ (v, [])))
      × ((s : List ℕ) × (number b'X' false 0 v ≡ ok s) × (strtoi s 16 ≡ (v, [])))
unfolding number
number-strtoi v h = (
  signed_number v h,
  unsigned_number 10 v false h (omega arith) (omega arith),
  unsigned_number 16 v false h (omega arith) (omega arith),
  unsigned_number 16 v true h (omega arith) (omega arith),
)
