-- ===== src/Printf/Fuel.antt =====
-- A round of vfnprintf in common/printf.c goes on in its format, so that the loop ends.
use chromium_ec.Common.{
  ℕ, zero, suc, ◌+◌, ◌-◌, ◌*◌, ◌^◌, ◌≤◌, ◌<◌, ◌≡◌, ◌⊎◌, inl, inr, refl, ap, Bool, true, false, not,
  List, [], ◌∷◌, ◌++◌, ltb, ◌==◌, Option, some, none, if◌then◌else◌, length, length-drop, drop,
  arith,
}
use chromium_ec.Util.Text.{char_at, isdigit}
use chromium_ec.Printf.{
  Arg, Outcome, ok, bad, undefined, ◌>>=◌, Next, next, parse, parse_count, parse_flag,
  parse_precision, read_count, convert, hex_dump, number, number_arg, is_number, error_str, arg_int,
  arg_text, max_format,
}
use chromium_ec.Printf.Render.{render_all, render}

abbrev After {ℓ κ} : {A : Type ℓ} → Outcome A → (A → Type κ) → Type κ
After (ok a) P = P a
After bad P = Unit
After undefined P = Unit

After-bind {ℓ μ ν} :
    {A B : Type ℓ} (P : A → Type μ) (Q : B → Type ν) (m : Outcome A) (f : A → Outcome B)
    → After m P
    → ((a : A) → P a → After (f a) Q)
    → After (m >>= f) Q
After-bind P Q (ok a) f p h = h a p
After-bind P Q bad f p h = tt
After-bind P Q undefined f p h = tt

After-if {ℓ κ} :
    {A : Type ℓ} (P : A → Type κ) (b : Bool) (x y : Outcome A)
    → After x P
    → After y P
    → After (if b then x else y) P
After-if P true x y p q = p
After-if P false x y p q = q

After-mono {ℓ κ μ} :
    {A : Type ℓ} (P : A → Type κ) (Q : A → Type μ) (m : Outcome A)
    → ((a : A) → P a → Q a)
    → After m P
    → After m Q
After-mono P Q (ok a) h p = h a p
After-mono P Q bad h p = tt
After-mono P Q undefined h p = tt

-- Steps that do not look at the format.
After-then {ℓ μ} :
    {A B : Type ℓ} (Q : B → Type μ) (m : Outcome A) (f : A → Outcome B)
    → ((a : A) → After (f a) Q)
    → After (m >>= f) Q
After-then Q (ok a) f h = h a
After-then Q bad f h = tt
After-then Q undefined f h = tt

length-drop_le : (n : ℕ) (l : List ℕ) → length (drop n l) ≤ length l
length-drop_le n l = omega (arith, length-drop n l)

-- The format that is left is no longer.
abbrev Rest : ℕ → ℕ × List ℕ × List Arg → Type 0
Rest k p = length p.1 ≤ k

read_count-le :
    (n : ℕ) (format : List ℕ) → After (read_count n format) (λ p. length p.1 ≤ length format)
unfolding read_count
read_count-le n [] = omega arith
read_count-le n (c ∷ format) =
    let L = λ (p : ℕ × List ℕ). length p.1 ≤ length (c ∷ format) in
    let rest = read_count (10 * n + c - b'0') format in
    After-if L (not (isdigit c)) (ok (n, c ∷ format)) _ (omega arith) (
      After-if L (ltb (10 * n + c) (2 ^ 31)) rest undefined
        (After-mono (λ p. length p.1 ≤ length format) L rest (λ p le. omega (arith, le))
          (read_count-le (10 * n + c - b'0') format))
        tt)

parse_flag-le : (c : ℕ) (format : List ℕ) → length (parse_flag c format).1 ≤ length format
parse_flag-le c format = ground (arith, length-drop_le 1 format)

-- The step that reads the number, whatever it is called with.
parse_count-le :
    (format : List ℕ) (args : List Arg) → After (parse_count format args) (Rest (length format))
unfolding parse_count
parse_count-le format args =
    let R = Rest (length format) in
    let star = arg_int args >>= λ p. ok (p.0, drop 1 format, p.1) in
    let digits = read_count 0 format >>= λ p. ok (p.0, p.1, args) in
    After-bind R R (if char_at format == b'*' then star else digits)
      (λ p. if ltb max_format p.0 then bad else ok p)
      (After-if R (char_at format == b'*') star digits
        (After-then R (arg_int args) (λ p. ok (p.0, drop 1 format, p.1))
          (λ p. length-drop_le 1 format))
        (After-bind (λ p. length p.1 ≤ length format) R (read_count 0 format)
          (λ p. ok (p.0, p.1, args)) (read_count-le 0 format) (λ p le. le)))
      (λ p le. After-if R (ltb max_format p.0) bad (ok p) tt le)

parse_precision-le :
    (format : List ℕ) (args : List Arg) → After (parse_precision format args) (Rest (length format))
parse_precision-le format args =
    let R = Rest (length format) in
    After-if R (char_at format == b'.') (parse_count (drop 1 format) args) (ok (0, format, args))
      (After-mono (Rest (length (drop 1 format))) R (parse_count (drop 1 format) args)
        (λ p le. omega (arith, le, length-drop_le 1 format)) (parse_count-le (drop 1 format) args))
      (omega arith)

abbrev Shorter : ℕ → Next → Type 0
Shorter k n = length n.format ≤ k

hex_dump-Shorter :
    (precision : ℕ) (format : List ℕ) (args : List Arg) (o : Option (List ℕ))
    → After (hex_dump precision (drop 1 format) args o) (Shorter (length format))
unfolding hex_dump
hex_dump-Shorter precision format args none = tt
hex_dump-Shorter precision format args (some s) =
    After-if (Shorter (length format)) (ltb (length s) precision) _ _ tt (length-drop_le 1 format)

convert-Shorter :
    (now : ℕ) (left padzero : Bool) (w p : ℕ) (format : List ℕ) (args : List Arg)
    → After (convert now left padzero w p format args) (Shorter (length format))
unfolding convert
convert-Shorter now left padzero w p format args =
    let Q = Shorter (length format) in
    After-if Q (char_at format == b's') _ _
      (After-then Q (arg_text args) _ (λ q. length-drop_le 1 format))
      (After-if Q (char_at format == b'h') _ _
        (After-if Q (p == 0) _ _ tt
          (After-then Q (arg_text args) _ (λ q. hex_dump-Shorter p format q.1 q.0)))
        (After-if Q (is_number (char_at (parse_flag b'l' format).1)) _ _
          (After-then Q (number_arg now (char_at (parse_flag b'l' format).1) _ args) _ (λ q.
            After-then Q (number (char_at (parse_flag b'l' format).1) _ _ q.0) _ (λ t.
              omega
                (arith, length-drop_le 1 (parse_flag b'l' format).1, parse_flag-le b'l' format))))
          tt))

parse-Shorter :
    (now : ℕ) (format : List ℕ) (args : List Arg)
    → After (parse now format args) (Shorter (length format))
unfolding parse
parse-Shorter now format args =
    let Q = Shorter (length format) in
    let (left, format1) = parse_flag b'-' format in
    let (padzero, format2) = parse_flag b'0' format1 in
    let le1 = parse_flag-le b'-' format in
    let le2 = parse_flag-le b'0' format1 in
    After-bind (Rest (length format2)) Q (parse_count format2 args) _ (parse_count-le format2 args)
      (λ w le3.
        After-bind (Rest (length w.1)) Q (parse_precision w.1 w.2) _ (parse_precision-le w.1 w.2)
          (λ p le4.
            After-mono (Shorter (length p.1)) Q (convert now left padzero w.0 p.0 p.1 p.2)
              (λ n le5. omega (arith, le1, le2, le3, le4, le5))
              (convert-Shorter now left padzero w.0 p.0 p.1 p.2)))

next-Shorter :
    (now c : ℕ) (format : List ℕ) (args : List Arg)
    → After (next now c format args) (Shorter (length format))
unfolding next
next-Shorter now c format args =
    let Q = Shorter (length format) in
    let d = char_at format in
    After-if Q (not (c == b'%')) _ _ (omega arith) (
      After-if Q (d == 0) _ _ tt (
        After-if Q (d == b'%') _ _ (length-drop_le 1 format) (
          After-if Q (d == b'c') _ _ (After-then Q (arg_int args) _ (λ p. length-drop_le 1 format))
            (parse-Shorter now format args))))

-- The fuel has not run out.
abbrev pub Ends {ℓ} : {A : Type ℓ} → Outcome A → Type ℓ
Ends {A} r = ((a : A) × (r ≡ ok a)) ⊎ (r ≡ undefined)

Ends-prefix : (r : Outcome (List ℕ)) (s : List ℕ) → Ends r → Ends (r >>= λ l. ok (s ++ l))
Ends-prefix r s (inl (l, e)) = inl (s ++ l, ap (λ x. x >>= λ l. ok (s ++ l)) e)
Ends-prefix r s (inr e) = inr (ap (λ x. x >>= λ l. ok (s ++ l)) e)

-- The text ERROR needs a round for each of its characters and one more.
render_all-error :
    (n now : ℕ) (args : List Arg)
    → Ends (render_all (suc (suc (suc (suc (suc (suc n)))))) now error_str args)
unfolding render_all next
render_all-error n now args = inl (error_str, refl)

round-Ends :
    (fuel now k : ℕ) (args : List Arg) (r : Outcome Next)
    → After r (Shorter k)
    → Ends (render_all fuel now error_str args)
    → ((format : List ℕ) (args : List Arg)
        → length format ≤ k
        → Ends (render_all fuel now format args))
    → Ends (elim r [
      | ok n ↦ (render_all fuel now n.format n.args >>= λ l. ok (render n.emission ++ l))
      | bad ↦ render_all fuel now error_str args
      | undefined ↦ undefined
    ])
round-Ends fuel now k args (ok n) short err rest =
    Ends-prefix (render_all fuel now n.format n.args) (render n.emission)
      (rest n.format n.args short)
round-Ends fuel now k args bad short err rest = err
round-Ends fuel now k args undefined short err rest = inr refl

-- Fuel for one round more than the characters of the format and of ERROR is enough.
pub render_all-Ends :
    (fuel now : ℕ) (format : List ℕ) (args : List Arg)
    → length format + 6 < fuel
    → Ends (render_all fuel now format args)
unfolding render_all
render_all-Ends zero now format args h = absurd (omega arith)
render_all-Ends (suc fuel) now [] args h = inl ([], refl)
render_all-Ends (suc fuel) now (c ∷ format) args h =
    round-Ends fuel now (length format) args (next now c format args)
      (next-Shorter now c format args)
      (let six : fuel ≡ suc (suc (suc (suc (suc (suc (fuel - 6)))))) = omega arith in
        rw six (render_all-error (fuel - 6) now args))
      (λ format' args' le. render_all-Ends fuel now format' args' (omega (arith, le)))
