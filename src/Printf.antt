-- ===== src/Printf.antt =====
-- common/printf.c: formatted output through a callback, and to a string. A string is the list of
-- its bytes before the NUL. The arguments of `va_list` are a list; what the C standard leaves
-- undefined (an argument that is missing or of another type, the bytes after the format's own NUL,
-- which a format that ends in `%` reads, a count above an `int`, and a number's text that does not
-- fit `intbuf`) is a result of its own. The time of `%T` is an argument.
pub mod Number
pub mod Roundtrip
pub mod Render
pub mod Fuel
pub mod Bounded
mod Tests
use chromium_ec.Common.{
  ℕ, zero, suc, ◌+◌, ◌-◌, ◌*◌, ◌/◌, ◌%◌, ◌^◌, Bool, true, false, not, ◌&&◌, ◌||◌, List, [], ◌∷◌,
  ◌++◌, ltb, leb, ◌==◌, Option, some, none, if◌then◌else◌, bit_and, length, take, drop, min, max,
}
use mathlib.Core.Option
use chromium_ec.Util.Text.{char_at, isdigit}
use chromium_ec.Util.Divmod.{uint64divmod}

-- `error_str`
abbrev pub error_str : List ℕ
error_str = b'E' ∷ b'R' ∷ b'R' ∷ b'O' ∷ b'R' ∷ []

-- MAX_FORMAT
abbrev pub max_format : ℕ
max_format = 1024

pub hexdigit : ℕ → ℕ
hexdigit c = let n = bit_and c 0x0f in if ltb 9 n then n + b'a' - 10 else n + b'0'

-- An argument: the 32-bit or 64-bit pattern of a number, or a pointer to bytes, `none` for NULL.
pub data Arg : Type 0 where
  int : ℕ → Arg
  long : ℕ → Arg
  text : Option (List ℕ) → Arg

-- What a step of the loop gives: a value, a jump to `error_str`, or undefined behaviour.
pub data Outcome {ℓ} (A : Type ℓ) : Type ℓ where
  undefined bad : Outcome A
  ok : A → Outcome A

abbrev pub ◌>>=◌ {ℓ} : {A B : Type ℓ} (r : Outcome A) (go_on : A → Outcome B) → Outcome B
undefined >>= go_on = undefined
bad >>= go_on = bad
ok x >>= go_on = go_on x

infixl 5 ◌>>=◌
-- `va_arg(args, int)`, with the arguments that are left.
abbrev pub arg_int : List Arg → Outcome (ℕ × List Arg)
arg_int (int n ∷ args) = ok (n, args)
arg_int _ = undefined

abbrev pub arg_long : List Arg → Outcome (ℕ × List Arg)
arg_long (long n ∷ args) = ok (n, args)
arg_long _ = undefined

abbrev pub arg_text : List Arg → Outcome (Option (List ℕ) × List Arg)
arg_text (text s ∷ args) = ok (s, args)
arg_text _ = undefined

-- `while (c >= '0' && c <= '9')`. A sum that does not fit an `int` is undefined.
pub read_count : ℕ → List ℕ → Outcome (ℕ × List ℕ)
read_count n [] = ok (n, [])
read_count n (c ∷ format) =
    let rest = read_count (10 * n + c - b'0') format in
    if not (isdigit c)
    then ok (n, c ∷ format)
    else if ltb (10 * n + c) (2 ^ 31)
    then rest
    else undefined

-- A padding length or a precision, by `*` or by digits, and its sanity check. A negative `int` is a
-- pattern above MAX_FORMAT.
pub parse_count : List ℕ → List Arg → Outcome (ℕ × List ℕ × List Arg)
parse_count format args =
    (if char_at format == b'*'
      then (arg_int args >>= λ p. ok (p.0, drop 1 format, p.1))
      else (read_count 0 format >>= λ p. ok (p.0, p.1, args)))
    >>= λ p. if ltb max_format p.0 then bad else ok p

-- A flag that stands next in the format.
abbrev pub parse_flag : ℕ → List ℕ → Bool × List ℕ
parse_flag c format = if char_at format == c then (true, drop 1 format) else (false, format)

abbrev pub parse_precision : List ℕ → List Arg → Outcome (ℕ × List ℕ × List Arg)
parse_precision format args =
    if char_at format == b'.' then parse_count (drop 1 format) args else ok (0, format, args)

-- PF_NEGATIVE and the magnitude, for `%d`.
abbrev pub signed : Bool → ℕ → Bool × ℕ
signed wide v =
    if wide
    then (if leb (2 ^ 63) v then (true, if v == 2 ^ 63 then v else 2 ^ 64 - v) else (false, v))
    else (if leb (2 ^ 31) v then (true, if v == 2 ^ 31 then v else 2 ^ 32 - v) else (false, v))

-- `for (vlen = 0; vlen < precision; vlen++)`: the number that is left, and the buffer from `vstr`
-- on.
pub fraction : ℕ → ℕ → List ℕ → ℕ × List ℕ
fraction zero v vstr = (v, vstr)
fraction (suc n) v vstr =
    let (v', digit) = uint64divmod v 10 in fraction n v' ((b'0' + digit) ∷ vstr)

abbrev pub digit_char : Bool → ℕ → ℕ
digit_char upper digit =
    if ltb digit 10 then b'0' + digit else if upper then b'A' + digit - 10 else b'a' + digit - 10

-- `while (v)`; `none` if the fuel runs out.
pub whole : ℕ → ℕ → Bool → ℕ → List ℕ → Option (List ℕ)
whole zero base upper v vstr = none
whole (suc fuel) base upper v vstr =
    let (v', digit) = uint64divmod v base in
    let rest = whole fuel base upper v' (digit_char upper digit ∷ vstr) in
    if v == 0 then some vstr else rest

-- The text of a number, which `buffered` puts into `intbuf`: at most 31 digits after the point.
pub number_text : ℕ → Bool → Bool → ℕ → ℕ → Option (List ℕ)
number_text base upper negative precision v =
    let p = min precision 31 in
    let (v', digits) = fraction p v [] in
    let pointed = if p == 0 then digits else b'.' ∷ digits in
    Option.map (λ s. if negative then b'-' ∷ s else s)
      (whole 65 base upper v' (if v' == 0 then b'0' ∷ pointed else pointed))

-- What one round of the loop is to send.
pub data Emission : Type 0 where
  char : ℕ → Emission
  dump : List ℕ → Emission
  field : (left padzero : Bool) → (pad_width precision : ℕ) → (vstr : List ℕ) → Emission

pub record Next : Type 0 where
  pub emission : Emission
  pub format : List ℕ
  pub args : List Arg

-- The size of `intbuf`, in which the text is written from its end down.
abbrev pub intbuf_size : ℕ
intbuf_size = 34

-- The text of a number with its NUL; one that is longer than `intbuf` is written below it, which is
-- undefined. `number_text` does not run out of fuel (Number).
abbrev pub buffered : Option (List ℕ) → Outcome (List ℕ)
buffered none = undefined
buffered (some s) = if ltb (length s) intbuf_size then ok s else undefined

-- The number of a format, at its conversion character `c`.
pub number : ℕ → Bool → ℕ → ℕ → Outcome (List ℕ)
number c wide precision v =
    let (negative, magnitude) = signed wide v in
    if c == b'd'
    then buffered (number_text 10 false negative precision magnitude)
    else if c == b'u' || c == b'T'
    then buffered (number_text 10 false false precision v)
    else if c == b'X'
    then buffered (number_text 16 true false precision v)
    else if c == b'x' || c == b'p'
    then buffered (number_text 16 false false precision v)
    else if c == b'b'
    then buffered (number_text 2 false false precision v)
    else bad

-- The conversion character `c` is one that takes a number.
abbrev pub is_number : ℕ → Bool
is_number c =
    (c == b'd' || (c == b'u' || c == b'T'))
    || ((c == b'X' || (c == b'x' || c == b'p')) || c == b'b')

-- The value of a number, from the arguments or from the clock.
abbrev pub number_arg : ℕ → ℕ → Bool → List Arg → Outcome (ℕ × List Arg)
number_arg now c wide args =
    if c == b'T' then ok (now, args) else if wide then arg_long args else arg_int args

-- `%h` for `precision` bytes, of those that stand at the pointer.
pub hex_dump : ℕ → List ℕ → List Arg → Option (List ℕ) → Outcome Next
hex_dump precision format args none = undefined
hex_dump precision format args (some s) =
    if ltb (length s) precision
    then undefined
    else ok (record { emission = dump (take precision s); format = format; args = args })

-- `%s`, `%h` or a number, at its conversion character. An unknown conversion reads an argument that
-- it then drops.
pub convert : ℕ → Bool → Bool → ℕ → ℕ → List ℕ → List Arg → Outcome Next
convert now left padzero pad_width precision format args =
    let c = char_at format in
    if c == b's'
    then (arg_text args >>= λ p. ok (record {
      emission =
          field left padzero pad_width precision
            (elim p.0 [ none ↦ b'(' ∷ b'N' ∷ b'U' ∷ b'L' ∷ b'L' ∷ b')' ∷ [] | some s ↦ s ]);
      format = drop 1 format;
      args = p.1;
    }))
    else if c == b'h'
    then (if precision == 0
        then bad
        else (arg_text args >>= λ p. hex_dump precision (drop 1 format) p.1 p.0))
    else (let (wide, format') = parse_flag b'l' format in
        let d = char_at format' in
        if is_number d
        then (number_arg now d (wide || d == b'T') args >>= λ p.
            number d (wide || d == b'T') (if d == b'T' then 6 else precision) p.0 >>= λ s.
            ok (record {
              emission = field left padzero pad_width 0 s;
              format = drop 1 format';
              args = p.1;
            }))
        else bad)

-- A format after `%` that is not `%%` or `%c`.
pub parse : ℕ → List ℕ → List Arg → Outcome Next
parse now format args =
    let (left, format1) = parse_flag b'-' format in
    let (padzero, format2) = parse_flag b'0' format1 in
    parse_count format2 args >>= λ w.
    parse_precision w.1 w.2 >>= λ p. convert now left padzero w.0 p.0 p.1 p.2

-- One round of the loop, at the character `c`.
pub next : ℕ → ℕ → List ℕ → List Arg → Outcome Next
next now c format args =
    let d = char_at format in
    if not (c == b'%')
    then ok (record { emission = char c; format = format; args = args })
    else if d == 0
    then undefined
    else if d == b'%'
    then ok (record { emission = char b'%'; format = drop 1 format; args = args })
    else if d == b'c'
    then (arg_int args >>= λ p.
        ok (record { emission = char p.0; format = drop 1 format; args = p.1 }))
    else parse now format args

module _ {ℓ} {S : Type ℓ} (addchar : ℕ → S → Bool × S) where
  -- `if (addchar(...)) return EC_ERROR_OVERFLOW;`, then the rest.
  abbrev pub and_then : Bool × S → (S → Bool × S) → Bool × S
  and_then (true, s) rest = (true, s)
  and_then (false, s) rest = rest s

  -- `while (vlen < pad_width ...)` for `count` rounds.
  pub pad : ℕ → ℕ → S → Bool × S
  pad zero c s = (false, s)
  pad (suc count) c s = and_then (addchar c s) (pad count c)

  -- `while (*vstr && --precision >= 0)`
  pub copy : List ℕ → ℕ → S → Bool × S
  copy [] precision s = (false, s)
  copy (c ∷ vstr) zero s = (false, s)
  copy (c ∷ vstr) (suc precision) s = and_then (addchar c s) (copy vstr precision)

  pub dump_bytes : List ℕ → S → Bool × S
  dump_bytes [] s = (false, s)
  dump_bytes (b ∷ bytes) s =
      and_then (and_then (addchar (hexdigit (b / 16)) s) (addchar (hexdigit b))) (dump_bytes bytes)

  -- The copying of a string or number.
  pub emit_field : Bool → Bool → ℕ → ℕ → List ℕ → S → Bool × S
  emit_field left padzero pad_width precision vstr s =
      let vlen = length vstr in
      let width = if ltb 0 precision && ltb precision pad_width then precision else pad_width in
      let limit = if precision == 0 then max vlen width else precision in
      let before = if left then 0 else width - vlen in
      let after = if left then width - vlen else 0 in
      and_then (and_then (pad before (if padzero then b'0' else b' ') s) (copy vstr limit))
        (pad after b' ')

  pub emit : Emission → S → Bool × S
  emit (char c) s = addchar c s
  emit (dump bytes) s = dump_bytes bytes s
  emit (field left padzero pad_width precision vstr) s =
      emit_field left padzero pad_width precision vstr s

  -- `if (...) return EC_ERROR_OVERFLOW; continue;`
  abbrev pub resume : Bool × S → (S → Outcome (Bool × S)) → Outcome (Bool × S)
  resume (true, s) rest = ok (false, s)
  resume (false, s) rest = rest s

  -- vfnprintf: whether it returns EC_SUCCESS, and the context; `bad` if the fuel runs out.
  pub vfnprintf : ℕ → ℕ → List ℕ → List Arg → S → Outcome (Bool × S)
  vfnprintf zero now format args s = bad
  vfnprintf (suc fuel) now [] args s = ok (true, s)
  vfnprintf (suc fuel) now (c ∷ format) args s = elim (next now c format args) [
    | ok n ↦ resume (emit n.emission s) (vfnprintf fuel now n.format n.args)
    | bad ↦ vfnprintf fuel now error_str args s
    | undefined ↦ undefined
  ]

-- `struct snprintf_context`: what is written from `str` on, and the room left.
pub record Context : Type 0 where
  pub str : List ℕ
  pub size : ℕ

pub snprintf_addchar : ℕ → Context → Bool × Context
snprintf_addchar c ctx =
    if ctx.size == 0
    then (true, ctx)
    else (false, record { str = ctx.str ++ c ∷ []; size = ctx.size - 1 })

-- snprintf, on a `str` that is not NULL: whether it returns EC_SUCCESS, and the bytes that it
-- writes from `str` on.
pub snprintf : ℕ → ℕ → ℕ → List ℕ → List Arg → Outcome (Bool × List ℕ)
snprintf fuel now size format args =
    if size == 0
    then ok (false, [])
    else (vfnprintf snprintf_addchar fuel now format args (record { str = []; size = size - 1 })
        >>= λ out. ok (out.0, out.1.str ++ 0 ∷ []))
