-- ===== src/Uart/Output.antt =====
-- The transmit side of common/uart_buffering.c: what is stored and what the UART is given.
use chromium_ec.Common.{
  ℕ, zero, suc, ◌+◌, ◌-◌, ◌^◌, ◌≤◌, ◌<◌, ◌≡◌, refl, sym, ap, ◌∙◌, subst, List, [], ◌∷◌, ◌++◌, leb,
  ltb, ◌==◌, length, take, drop, arith, Bool-cases, inl, inr, length-append, take-all,
  take-append_full, take-take_append, take-append_left,
}
use mathlib.Core.List.{append-nil, append_assoc}
use chromium_ec.Uart.{Buffer, newline, carriage_return, put, tx_char, tx_string, is_empty, drain}
use chromium_ec.Uart.Ring.{Holds, length-Holds-lt, put-Holds, get-empty, get-first}
use chromium_ec.Uart.Line.{crlf}

-- A string without its last character.
abbrev pub init : List ℕ → List ℕ
init [] = []
init (c ∷ []) = []
init (c ∷ d ∷ cs) = c ∷ init (d ∷ cs)

pub tx_char-Holds :
    {bits : ℕ} {b : Buffer} {cs : List ℕ} (c : ℕ)
    → Holds bits b cs
    → ((tx_char bits c b).0 ≡ leb (length (cs ++ crlf (c ∷ []))) (2 ^ bits - 1))
      × Holds bits (tx_char bits c b).1 (take (2 ^ bits - 1) (cs ++ crlf (c ∷ [])))
unfolding tx_char
tx_char-Holds {bits} {b} {cs} c h = elim (Bool-cases (c == newline)) [
  | inr other ↦
      let (ok, held) = put-Holds c h in
      rw other (ok ∙ ground (arith, length-append cs (c ∷ []), length-Holds-lt h), held)
  | inl new ↦
      let (ok, held) = put-Holds carriage_return h in
      let (ok', held') = put-Holds newline held in
      rw new (elim (Bool-cases (ltb (length cs + 1) (2 ^ bits))) [
        | inl room ↦
            let fits =
              take-all (2 ^ bits - 1) (cs ++ (carriage_return ∷ []))
                (ground (arith, room, length-append cs (carriage_return ∷ []))) in
            let ends : take (2 ^ bits - 1)
                  (take (2 ^ bits - 1) (cs ++ (carriage_return ∷ [])) ++ (newline ∷ []))
                ≡ take (2 ^ bits - 1) (cs ++ (carriage_return ∷ newline ∷ [])) =
              take-take_append (2 ^ bits - 1) (cs ++ (carriage_return ∷ [])) (newline ∷ [])
              ∙ ap (take (2 ^ bits - 1)) (append_assoc cs (carriage_return ∷ []) (newline ∷ [])) in
            rw (ok ∙ room) (
              ok'
                  ∙ ground (
                    arith,
                    ap length fits,
                    length-append cs (carriage_return ∷ []),
                    length-append cs (carriage_return ∷ newline ∷ []),
                  ),
              subst (Holds bits (put bits newline (put bits carriage_return b).1).1) ends held',
            )
        | inr full ↦
            let top : length cs ≡ 2 ^ bits - 1 = ground (arith, full, length-Holds-lt h) in
            let same : take (2 ^ bits - 1) (cs ++ (carriage_return ∷ []))
                ≡ take (2 ^ bits - 1) (cs ++ (carriage_return ∷ newline ∷ [])) =
              take-append_full (2 ^ bits - 1) cs (carriage_return ∷ []) top
              ∙ sym (take-append_full (2 ^ bits - 1) cs (carriage_return ∷ newline ∷ []) top) in
            rw (ok ∙ full) (
              ground (arith, top, length-append cs (carriage_return ∷ newline ∷ [])),
              subst (Holds bits (put bits carriage_return b).1) same held,
            )
      ])
]

crlf-cons : (c : ℕ) (s : List ℕ) → crlf (c ∷ s) ≡ crlf (c ∷ []) ++ crlf s
crlf-cons c s = elim (Bool-cases (c == newline)) [
  | inl new ↦ rw new refl
  | inr other ↦ rw other refl
]

-- The answer for a string, when its first character finds room and when it finds none.
init-fits :
    (c : ℕ) (s cs : List ℕ) (n : ℕ)
    → length cs ≤ n
    → length (cs ++ crlf (c ∷ [])) ≤ n
    → leb (length (take n (cs ++ crlf (c ∷ [])) ++ crlf (init s))) n
      ≡ leb (length (cs ++ crlf (init (c ∷ s)))) n
init-fits c [] cs n h fits =
    rw (take-all n (cs ++ crlf (c ∷ [])) fits, append-nil cs, append-nil (cs ++ crlf (c ∷ [])))
      (ground arith)
init-fits c (d ∷ s) cs n h fits = rw (take-all n (cs ++ crlf (c ∷ [])) fits) (
    ap (λ l. leb (length l) n)
      (append_assoc cs (crlf (c ∷ [])) (crlf (init (d ∷ s)))
        ∙ ap (λ l. cs ++ l) (sym (crlf-cons c (init (d ∷ s))))))

init-full :
    (c : ℕ) (s cs : List ℕ) (n : ℕ)
    → length cs ≤ n
    → n < length (cs ++ crlf (c ∷ []))
    → is_empty s ≡ leb (length (cs ++ crlf (init (c ∷ s)))) n
init-full c [] cs n h full = rw (append-nil cs) (ground arith)
init-full c (d ∷ s) cs n h full = ground (
  arith,
  ap length (crlf-cons c (init (d ∷ s))),
  length-append (crlf (c ∷ [])) (crlf (init (d ∷ s))),
  length-append cs (crlf (c ∷ [])),
  length-append cs (crlf (init (c ∷ d ∷ s))),
)

-- The string fails short of its last character.
pub tx_string-Holds :
    {bits : ℕ} (s : List ℕ) {b : Buffer} {cs : List ℕ}
    → Holds bits b cs
    → (is_empty (tx_string bits s b).0 ≡ leb (length (cs ++ crlf (init s))) (2 ^ bits - 1))
      × Holds bits (tx_string bits s b).1 (take (2 ^ bits - 1) (cs ++ crlf s))
unfolding tx_string
tx_string-Holds {bits} [] {b} {cs} h = rw (append-nil cs) (
  ground (arith, length-Holds-lt h),
  subst (Holds bits b) (sym (take-all (2 ^ bits - 1) cs (omega (arith, length-Holds-lt h)))) h,
)
tx_string-Holds {bits} (c ∷ s) {b} {cs} h =
    let (ok, held) = tx_char-Holds c h in
    let (done, held') = tx_string-Holds s held in
    let whole : cs ++ crlf (c ∷ s) ≡ (cs ++ crlf (c ∷ [])) ++ crlf s =
      ap (λ l. cs ++ l) (crlf-cons c s) ∙ sym (append_assoc cs (crlf (c ∷ [])) (crlf s)) in
    elim (Bool-cases (leb (length (cs ++ crlf (c ∷ []))) (2 ^ bits - 1))) [
      | inl fits ↦ rw (ok ∙ fits) (
        done
            ∙ init-fits c s cs (2 ^ bits - 1) (omega (arith, length-Holds-lt h))
                (ground (arith, fits)),
        subst (Holds bits (tx_string bits s (tx_char bits c b).1).1)
            (take-take_append (2 ^ bits - 1) (cs ++ crlf (c ∷ [])) (crlf s)
              ∙ ap (take (2 ^ bits - 1)) (sym whole))
            held',
      )
      | inr full ↦ rw (ok ∙ full) (
        init-full c s cs (2 ^ bits - 1) (omega (arith, length-Holds-lt h)) (ground (arith, full)),
        subst (Holds bits (tx_char bits c b).1)
            (sym (
                take-append_left (2 ^ bits - 1) (cs ++ crlf (c ∷ [])) (crlf s)
                  (ground (arith, full)))
              ∙ ap (take (2 ^ bits - 1)) (sym whole))
            held,
      )
    ]

pub drain-Holds :
    {bits : ℕ} (ready : ℕ) {b : Buffer} {cs : List ℕ}
    → Holds bits b cs
    → ((drain bits ready b).0 ≡ take ready cs) × Holds bits (drain bits ready b).1 (drop ready cs)
unfolding drain
drain-Holds {bits} zero h = (refl, h)
drain-Holds {bits} (suc ready) {b} {cs = []} h = rw (get-empty h) (refl, h)
drain-Holds {bits} (suc ready) {b} {cs = c ∷ cs} h =
    let (some, first, rest) = get-first h in
    let (out, held) = drain-Holds {bits = bits} ready rest in
    rw (some, first) (ap (λ l. c ∷ l) out, held)
