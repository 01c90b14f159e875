-- ===== src/Printf/Render.antt =====
-- vfnprintf of common/printf.c sends a text that does not depend on where it goes, up to the
-- character that is refused.
use chromium_ec.Common.{
  ℕ, zero, suc, ◌-◌, ◌/◌, ◌≡◌, inl, inr, refl, sym, ap, ap₂, ◌∙◌, Bool, true, false, not, ◌&&◌,
  List, [], ◌∷◌, ◌++◌, ltb, ◌==◌, if◌then◌else◌, length, take-all, take, replicate, min, max, arith,
  Bool-cases,
}
use mathlib.Core.List.{append-nil}
use chromium_ec.Printf.{
  Arg, Outcome, ok, bad, undefined, ◌>>=◌, Emission, char, dump, field, Next, next, error_str,
  hexdigit, and_then, pad, copy, dump_bytes, emit_field, emit, resume, vfnprintf,
}

-- The text of one emission.
abbrev pub hex_text : List ℕ → List ℕ
hex_text [] = []
hex_text (b ∷ bytes) = hexdigit (b / 16) ∷ hexdigit b ∷ hex_text bytes

-- The field's width, which a precision bounds, filled on the left or on the right.
abbrev pub field_text : Bool → Bool → ℕ → ℕ → List ℕ → List ℕ
field_text left padzero pad_width precision vstr =
    let width = if precision == 0 then pad_width else min pad_width precision in
    let shown = if precision == 0 then vstr else take precision vstr in
    let gap = width - length vstr in
    if left
    then shown ++ replicate gap b' '
    else replicate gap (if padzero then b'0' else b' ') ++ shown

abbrev pub render : Emission → List ℕ
render (char c) = c ∷ []
render (dump bytes) = hex_text bytes
render (field left padzero pad_width precision vstr) =
    field_text left padzero pad_width precision vstr

-- The text of a whole format.
unfoldable pub render_all : ℕ → ℕ → List ℕ → List Arg → Outcome (List ℕ)
render_all zero now format args = bad
render_all (suc fuel) now [] args = ok []
render_all (suc fuel) now (c ∷ format) args = elim (next now c format args) [
  | ok n ↦ (render_all fuel now n.format n.args >>= λ out. ok (render n.emission ++ out))
  | bad ↦ render_all fuel now error_str args
  | undefined ↦ undefined
]

width_lem : (p w : ℕ) → (if ltb 0 p && ltb p w then p else w) ≡ (if p == 0 then w else min w p)
width_lem p w = ground arith

shown_lem :
    (p w : ℕ) (vstr : List ℕ)
    → take (if p == 0 then max (length vstr) w else p) vstr ≡ (if p == 0 then vstr else take p vstr)
shown_lem p w vstr = elim (Bool-cases (p == 0)) [
  | inl unlimited ↦ rw unlimited (take-all (max (length vstr) w) vstr (omega arith))
  | inr limited ↦ rw limited refl
]

ok_parts {ℓ} :
    {A B : Type ℓ} (r : Outcome A) (go_on : A → Outcome B) {out : B}
    → ok out ≡ (r >>= go_on)
    → (x : A) × (go_on x ≡ ok out) × (r ≡ ok x)
ok_parts undefined go_on e = cc
ok_parts bad go_on e = cc
ok_parts (ok x) go_on e = (x, sym e, refl)

ok_injective : {a b : List ℕ} → ok a ≡ ok b → a ≡ b
ok_injective h = cc

module _ {ℓ} {S : Type ℓ} (addchar : ℕ → S → Bool × S) where
  -- The characters go out one by one, until one is refused.
  abbrev pub put_all : List ℕ → S → Bool × S
  put_all [] s = (false, s)
  put_all (c ∷ cs) s = and_then addchar (addchar c s) (put_all cs)

  and_then_assoc :
      (r : Bool × S) (f g : S → Bool × S)
      → and_then addchar (and_then addchar r f) g
        ≡ and_then addchar r (λ s. and_then addchar (f s) g)
  and_then_assoc (true, s) f g = refl
  and_then_assoc (false, s) f g = refl

  and_then-same :
      (r : Bool × S) {f g : S → Bool × S}
      → ((s : S) → f s ≡ g s)
      → and_then addchar r f ≡ and_then addchar r g
  and_then-same (true, s) h = refl
  and_then-same (false, s) h = h s

  put_all-append :
      (xs ys : List ℕ) (s : S) → put_all (xs ++ ys) s ≡ and_then addchar (put_all xs s) (put_all ys)
  put_all-append [] ys s = refl
  put_all-append (x ∷ xs) ys s =
      and_then-same (addchar x s) (put_all-append xs ys)
      ∙ sym (and_then_assoc (addchar x s) (put_all xs) (put_all ys))

  pad_lem : (count c : ℕ) (s : S) → pad addchar count c s ≡ put_all (replicate count c) s
  unfolding pad
  pad_lem zero c s = refl
  pad_lem (suc count) c s = and_then-same (addchar c s) (pad_lem count c)

  copy_lem :
      (vstr : List ℕ) (limit : ℕ) (s : S) → copy addchar vstr limit s ≡ put_all (take limit vstr) s
  unfolding copy
  copy_lem [] zero s = refl
  copy_lem [] (suc limit) s = refl
  copy_lem (c ∷ vstr) zero s = refl
  copy_lem (c ∷ vstr) (suc limit) s = and_then-same (addchar c s) (copy_lem vstr limit)

  dump_bytes_lem :
      (bytes : List ℕ) (s : S) → dump_bytes addchar bytes s ≡ put_all (hex_text bytes) s
  unfolding dump_bytes
  dump_bytes_lem [] s = refl
  dump_bytes_lem (b ∷ bytes) s =
      and_then_assoc (addchar (hexdigit (b / 16)) s) (addchar (hexdigit b))
        (dump_bytes addchar bytes)
      ∙ and_then-same (addchar (hexdigit (b / 16)) s)
          (λ s'. and_then-same (addchar (hexdigit b) s') (dump_bytes_lem bytes))

  -- Padding, text and padding, one after the other.
  emit_parts :
      (before c limit after : ℕ) (vstr : List ℕ) (s : S)
      → and_then addchar
          (and_then addchar (pad addchar before c s) (λ s'. copy addchar vstr limit s'))
          (pad addchar after b' ')
        ≡ put_all (replicate before c ++ (take limit vstr ++ replicate after b' ')) s
  emit_parts before c limit after vstr s =
      ap
        (λ r.
          and_then addchar (and_then addchar r (λ s'. copy addchar vstr limit s'))
            (pad addchar after b' '))
        (pad_lem before c s)
      ∙ and_then_assoc (put_all (replicate before c) s) (λ s'. copy addchar vstr limit s')
          (pad addchar after b' ')
      ∙ and_then-same (put_all (replicate before c) s) (λ s'.
        ap (λ r. and_then addchar r (pad addchar after b' ')) (copy_lem vstr limit s')
        ∙ and_then-same (put_all (take limit vstr) s') (pad_lem after b' ')
        ∙ sym (put_all-append (take limit vstr) (replicate after b' ') s'))
      ∙ sym (put_all-append (replicate before c) (take limit vstr ++ replicate after b' ') s)

  emit_field_lem :
      (left padzero : Bool) (pad_width precision : ℕ) (vstr : List ℕ) (s : S)
      → emit_field addchar left padzero pad_width precision vstr s
        ≡ put_all (field_text left padzero pad_width precision vstr) s
  unfolding emit_field
  emit_field_lem true padzero pad_width precision vstr s =
      emit_parts 0 _ _ _ vstr s
      ∙ ap (λ l. put_all l s)
          (ap₂ (λ shown width. shown ++ replicate (width - length vstr) b' ')
            (shown_lem precision _ vstr) (width_lem precision pad_width))
  emit_field_lem false padzero pad_width precision vstr s =
      emit_parts _ _ _ 0 vstr s
      ∙ ap (λ l. put_all l s)
          (ap₂
            (λ shown width.
              replicate (width - length vstr) (if padzero then b'0' else b' ') ++ shown)
            (append-nil _ ∙ shown_lem precision _ vstr) (width_lem precision pad_width))

  pub emit_lem : (e : Emission) (s : S) → emit addchar e s ≡ put_all (render e) s
  unfolding emit
  emit_lem (char c) s = one_lem (addchar c s)
    where
      one_lem : (r : Bool × S) → r ≡ and_then addchar r (λ s'. (false, s'))
      one_lem (true, s') = refl
      one_lem (false, s') = refl
  emit_lem (dump bytes) s = dump_bytes_lem bytes s
  emit_lem (field left padzero pad_width precision vstr) s =
      emit_field_lem left padzero pad_width precision vstr s

  -- What vfnprintf makes of a refusal.
  abbrev finish : Bool × S → Outcome (Bool × S)
  finish (failed, s) = ok (not failed, s)

  resume_lem :
      (r : Bool × S) (out : List ℕ) {rest : S → Outcome (Bool × S)}
      → ((s : S) → rest s ≡ finish (put_all out s))
      → resume addchar r rest ≡ finish (and_then addchar r (put_all out))
  resume_lem (true, s) out h = refl
  resume_lem (false, s) out h = h s

  -- One round, given the rest.
  round_lem :
      (fuel now : ℕ) (r : Outcome Next) (args : List Arg) (out : List ℕ) (s : S)
      → ((format : List ℕ) (args : List Arg) (out : List ℕ)
          → render_all fuel now format args ≡ ok out
          → (s : S) → vfnprintf addchar fuel now format args s ≡ finish (put_all out s))
      → elim r [
        | ok n ↦ (render_all fuel now n.format n.args >>= λ l. ok (render n.emission ++ l))
        | bad ↦ render_all fuel now error_str args
        | undefined ↦ undefined
      ]
        ≡ ok out
      → elim r [
        | ok n ↦
            resume addchar (emit addchar n.emission s) (vfnprintf addchar fuel now n.format n.args)
        | bad ↦ vfnprintf addchar fuel now error_str args s
        | undefined ↦ undefined
      ]
        ≡ finish (put_all out s)
  round_lem fuel now (ok n) args out s rest e =
      let (later, whole, e') = ok_parts (render_all fuel now n.format n.args) _ (sym e) in
      ap (λ r. resume addchar r (vfnprintf addchar fuel now n.format n.args))
        (emit_lem n.emission s)
      ∙ resume_lem (put_all (render n.emission) s) later (rest n.format n.args later e')
      ∙ ap finish (sym (put_all-append (render n.emission) later s))
      ∙ ap (λ l. finish (put_all l s)) (ok_injective whole)
  round_lem fuel now bad args out s rest e = rest error_str args out e s
  round_lem fuel now undefined args out s rest e = cc

  -- Any sink is sent the text of the format, up to the first character that it refuses.
  pub vfnprintf-render_all :
      (fuel now : ℕ) (format : List ℕ) (args : List Arg) (out : List ℕ)
      → render_all fuel now format args ≡ ok out
      → (s : S) → vfnprintf addchar fuel now format args s ≡ finish (put_all out s)
  unfolding vfnprintf render_all
  vfnprintf-render_all zero now format args out e s = cc
  vfnprintf-render_all (suc fuel) now [] args out e s =
      ap (λ l. finish (put_all l s)) (ok_injective e)
  vfnprintf-render_all (suc fuel) now (c ∷ format) args out e s =
      round_lem fuel now (next now c format args) args out s (vfnprintf-render_all fuel now) e
