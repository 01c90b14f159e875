-- ===== src/Printf/Tests.antt =====
-- Runs of the code of Printf, and the theorems at concrete inputs.
use chromium_ec.Common.{
  ℕ, ◌≡◌, ◌≤◌, ◌^◌, inl, refl, true, false, List, [], ◌∷◌, some, none, arith, length, ◌-◌,
}
use chromium_ec.Util.Text.{strtoi}
use chromium_ec.Printf.{
  int, text, long, ok, undefined, snprintf, vfnprintf, next, parse, parse_count, read_count,
  convert, number, number_text, whole, fraction, emit, emit_field, pad, copy, snprintf_addchar,
}
use chromium_ec.Util.Divmod.{uint64divmod}
use chromium_ec.Printf.Number.{number_text-FitsIntbuf}
use chromium_ec.Printf.Roundtrip.{number-strtoi}

-- "%04x|%-3s|"
abbrev padded : List ℕ
padded = b'%' ∷ b'0' ∷ b'4' ∷ b'x' ∷ b'|' ∷ b'%' ∷ b'-' ∷ b'3' ∷ b's' ∷ b'|' ∷ []

padded_text :
    snprintf 20 0 32 padded (int 0x2A ∷ text (some (b'o' ∷ b'k' ∷ [])) ∷ [])
    ≡ ok (true, b'0' ∷ b'0' ∷ b'2' ∷ b'a' ∷ b'|' ∷ b'o' ∷ b'k' ∷ b' ' ∷ b'|' ∷ 0 ∷ [])
unfolding snprintf vfnprintf next parse parse_count read_count convert number number_text whole
    fraction emit emit_field pad copy snprintf_addchar uint64divmod
padded_text = refl

-- "%.3d" of -7
point_text :
    snprintf 20 0 32 (b'%' ∷ b'.' ∷ b'3' ∷ b'd' ∷ []) (int (2 ^ 32 - 7) ∷ [])
    ≡ ok (true, b'-' ∷ b'0' ∷ b'.' ∷ b'0' ∷ b'0' ∷ b'7' ∷ 0 ∷ [])
unfolding snprintf vfnprintf next parse parse_count read_count convert number number_text whole
    fraction emit emit_field pad copy snprintf_addchar uint64divmod
point_text = refl

-- "%q"
error_text :
    snprintf 20 0 32 (b'%' ∷ b'q' ∷ []) [] ≡ ok (true, b'E' ∷ b'R' ∷ b'R' ∷ b'O' ∷ b'R' ∷ 0 ∷ [])
unfolding snprintf vfnprintf next parse parse_count read_count convert number number_text whole
    fraction emit emit_field pad copy snprintf_addchar uint64divmod
error_text = refl

-- "100%"
percent_text : snprintf 20 0 32 (b'1' ∷ b'0' ∷ b'0' ∷ b'%' ∷ []) [] ≡ undefined
unfolding snprintf vfnprintf next parse parse_count read_count convert number number_text whole
    fraction emit emit_field pad copy snprintf_addchar uint64divmod
percent_text = refl

-- "%s" of NULL, in 4 bytes
cut_text :
    snprintf 20 0 4 (b'%' ∷ b's' ∷ []) (text none ∷ []) ≡ ok (false, b'(' ∷ b'N' ∷ b'U' ∷ 0 ∷ [])
unfolding snprintf vfnprintf next parse parse_count read_count convert number number_text whole
    fraction emit emit_field pad copy snprintf_addchar uint64divmod
cut_text = refl

-- "%lb" of 2 ^ 40 does not fit `intbuf`.
overflow_text : snprintf 20 0 64 (b'%' ∷ b'l' ∷ b'b' ∷ []) (long (2 ^ 40) ∷ []) ≡ undefined
unfolding snprintf vfnprintf next parse parse_count read_count convert number number_text whole
    fraction emit emit_field pad copy snprintf_addchar uint64divmod
overflow_text = refl

number_text-FitsIntbuf_example :
    (s : List ℕ) × (number_text 10 false true 30 (2 ^ 64 - 1) ≡ some s) × (length s ≤ 33)
number_text-FitsIntbuf_example =
    number_text-FitsIntbuf 10 false true 30 (2 ^ 64 - 1)
      ((λ _. omega arith), inl (omega arith, omega arith, omega arith))

number-strtoi_example :
    ((s : List ℕ) × (number b'd' false 0 (2 ^ 32 - 7) ≡ ok s) × (strtoi s 0 ≡ (2 ^ 32 - 7, [])))
    × ((s : List ℕ) × (number b'u' false 0 (2 ^ 32 - 7) ≡ ok s) × (strtoi s 10 ≡ (2 ^ 32 - 7, [])))
    × ((s : List ℕ) × (number b'x' false 0 (2 ^ 32 - 7) ≡ ok s) × (strtoi s 16 ≡ (2 ^ 32 - 7, [])))
    × ((s : List ℕ) × (number b'X' false 0 (2 ^ 32 - 7) ≡ ok s) × (strtoi s 16 ≡ (2 ^ 32 - 7, [])))
number-strtoi_example = number-strtoi (2 ^ 32 - 7) (omega arith)
