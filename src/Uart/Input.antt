-- ===== src/Uart/Input.antt =====
-- The receive side of common/uart_buffering.c against Uart.Line.
use chromium_ec.Common.{
  ℕ, suc, ◌+◌, ◌-◌, ◌^◌, ◌<◌, ◌≡◌, refl, sym, ap, ap₂, ◌∙◌, subst, true, false, not, ◌&&◌, ◌||◌,
  List, [], ◌∷◌, ◌++◌, ltb, ◌==◌, length, take, drop, arith, Bool-cases, inl, inr, length-append,
  length-take, take-all, take-take_append, get_or, some,
}
use mathlib.Core.List.{append-nil, append_assoc}
use chromium_ec.Common.Bits.{pow-pos}
use chromium_ec.Uart.{Uart, Buffer, xoff, xon, take_char, process_input, getc_from, getc}
use chromium_ec.Uart.Ring.{Holds, length-Holds-lt, put-Holds, get-empty, get-first}
use chromium_ec.Uart.Line.{Line, read, char, plain, is_plain, flow, first, spec_step}
use chromium_ec.Uart.Simulation.{AllPlain, Refines, AllPlain-append, AllPlain-take, AllPlain-drop}

plain-cons : (c : ℕ) (cs : List ℕ) → plain (c ∷ cs) ≡ plain (c ∷ []) ++ plain cs
plain-cons c cs = elim (Bool-cases (is_plain c)) [
  | inl kept ↦ rw kept refl
  | inr dropped ↦ rw dropped refl
]

-- Whether there is new input, put together from one character and the rest.
input-more :
    (c : ℕ) (xs cs : List ℕ) (size : ℕ)
    → 0 < size
    → length xs < size
    → ((is_plain c && ltb (length xs + 1) size)
        || not (
            length (take (size - 1) (take (size - 1) (xs ++ plain (c ∷ [])) ++ plain cs))
            == length (take (size - 1) (xs ++ plain (c ∷ [])))))
      ≡ not (length (take (size - 1) (xs ++ plain (c ∷ cs))) == length xs)
input-more c xs cs size pos h =
    let n = size - 1 in
    ground (
      arith,
      length-take n (take n (xs ++ plain (c ∷ [])) ++ plain cs),
      length-take n (xs ++ plain (c ∷ [])),
      length-take n (xs ++ plain (c ∷ cs)),
      length-append (take n (xs ++ plain (c ∷ []))) (plain cs),
      length-append xs (plain (c ∷ [])),
      length-append xs (plain (c ∷ cs)),
    )

getc_from-Holds :
    {bits : ℕ} (n : ℕ) {b : Buffer} {cs : List ℕ}
    → Holds bits b cs
    → AllPlain cs
    → ((getc_from bits (suc n) b).0 ≡ first cs)
      × Holds bits (getc_from bits (suc n) b).1 (drop 1 cs)
unfolding getc_from
getc_from-Holds {bits} n {b} {cs = []} h p =
    let empty : (b.tail == b.head) ≡ true = ground (arith, get-empty h) in rw empty (refl, h)
getc_from-Holds {bits} n {b} {cs = c ∷ cs} h (p, q) =
    let (waits, is_first, rest) = get-first h in
    let full : (b.tail == b.head) ≡ false = ground (arith, waits) in
    let found : (not (get_or b.chars b.tail 0 == xon) && not (get_or b.chars b.tail 0 == xoff))
        ≡ true =
      ground (arith, is_first, p) in
    rw (full, found) (ap some is_first, rest)

module _ {tx_bits rx_bits : ℕ} where
  take_char-Refines :
      (c : ℕ) {u : Uart} {l : Line}
      → Refines tx_bits rx_bits u l
      → Refines tx_bits rx_bits (take_char rx_bits c u).1 (record l {
        rx = take (2 ^ rx_bits - 1) (l.rx ++ plain (c ∷ []));
        suspended = flow (c ∷ []) l.suspended;
      })
        × ((take_char rx_bits c u).0 ≡ (is_plain c && ltb (length l.rx + 1) (2 ^ rx_bits)))
  unfolding take_char
  take_char-Refines c {u} {l} r = elim (Bool-cases (c == xoff)) [
    | inl stop ↦
        rw
          (
            stop,
            append-nil l.rx,
            take-all (2 ^ rx_bits - 1) l.rx (omega (arith, length-Holds-lt r.rx_holds)),
          )
          (
            record {
              tx_holds = r.tx_holds;
              rx_holds = r.rx_holds;
              rx_plain = r.rx_plain;
              flow_same = refl;
              stopped = λ s. refl;
              awake = λ s. absurd (ground (arith, s));
            },
            refl,
          )
    | inr go ↦ elim (Bool-cases (c == xon)) [
      | inl start ↦
          rw
            (
              go,
              start,
              append-nil l.rx,
              take-all (2 ^ rx_bits - 1) l.rx (omega (arith, length-Holds-lt r.rx_holds)),
            )
            (
              record {
                tx_holds = r.tx_holds;
                rx_holds = r.rx_holds;
                rx_plain = r.rx_plain;
                flow_same = refl;
                stopped = λ s. absurd (ground (arith, s));
                awake = λ s. inl refl;
              },
              refl,
            )
      | inr other ↦
          (let (ok, held) = put-Holds c r.rx_holds in
            rw (go, other)
              (
                record {
                  tx_holds = r.tx_holds;
                  rx_holds = held;
                  rx_plain =
                      AllPlain-take (2 ^ rx_bits - 1) (l.rx ++ (c ∷ []))
                        (AllPlain-append l.rx (c ∷ []) r.rx_plain (ground (arith, go, other), tt));
                  flow_same = r.flow_same;
                  stopped = r.stopped;
                  awake = r.awake;
                },
                ok,
              ))
    ]
  ]

  pub process_input-Refines :
      (cs : List ℕ) {u : Uart} {l : Line}
      → Refines tx_bits rx_bits u l
      → Refines tx_bits rx_bits (process_input rx_bits cs u).1 (record l {
        rx = take (2 ^ rx_bits - 1) (l.rx ++ plain cs);
        suspended = flow cs l.suspended;
      })
        × ((process_input rx_bits cs u).0
            ≡ not (length (take (2 ^ rx_bits - 1) (l.rx ++ plain cs)) == length l.rx))
  unfolding process_input
  process_input-Refines [] {u} {l} r =
      rw
        (
          append-nil l.rx,
          take-all (2 ^ rx_bits - 1) l.rx (omega (arith, length-Holds-lt r.rx_holds)),
        )
        (r, ground arith)
  process_input-Refines (c ∷ cs) {u} {l} r =
      let (now, got) = take_char-Refines c r in
      let (after, later) = process_input-Refines cs now in
      let ends : take (2 ^ rx_bits - 1)
            (take (2 ^ rx_bits - 1) (l.rx ++ plain (c ∷ [])) ++ plain cs)
          ≡ take (2 ^ rx_bits - 1) (l.rx ++ plain (c ∷ cs)) =
        take-take_append (2 ^ rx_bits - 1) (l.rx ++ plain (c ∷ [])) (plain cs)
        ∙ ap (take (2 ^ rx_bits - 1)) (
            append_assoc l.rx (plain (c ∷ [])) (plain cs)
            ∙ ap (λ x. l.rx ++ x) (sym (plain-cons c cs))) in
      (
        subst
            (λ x.
              Refines tx_bits rx_bits (process_input rx_bits (c ∷ cs) u).1
                (record l { rx = x; suspended = flow (c ∷ cs) l.suspended }))
            ends after,
        ap₂ ◌||◌ got later
            ∙ input-more c l.rx cs (2 ^ rx_bits) (pow-pos rx_bits) (length-Holds-lt r.rx_holds),
      )

  pub getc-Refines :
      {u : Uart} {l : Line}
      → Refines tx_bits rx_bits u l
      → let (a, l') = spec_step tx_bits rx_bits read l in
        (char (getc rx_bits u).0 ≡ a) × Refines tx_bits rx_bits (getc rx_bits u).1 l'
  unfolding getc
  getc-Refines {u} {l} r =
      let size : 2 ^ rx_bits ≡ suc (2 ^ rx_bits - 1) = omega (arith, pow-pos rx_bits) in
      let (c, held) = getc_from-Holds (2 ^ rx_bits - 1) r.rx_holds r.rx_plain in
      rw size (
        ap char c,
        record {
          tx_holds = r.tx_holds;
          rx_holds = held;
          rx_plain = AllPlain-drop l.rx r.rx_plain;
          flow_same = r.flow_same;
          stopped = r.stopped;
          awake = r.awake;
        },
      )
