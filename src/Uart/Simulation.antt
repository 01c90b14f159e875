-- ===== src/Uart/Simulation.antt =====
-- When the buffers of common/uart_buffering.c hold what the sequences of Uart.Line do, and that
-- output keeps it so.
use chromium_ec.Common.{
  ℕ, zero, suc, ◌≡◌, refl, ap, Bool, true, false, ◌⊎◌, List, [], ◌∷◌, ◌++◌, ◌==◌, if◌then◌else◌,
  take, drop, arith, Bool-cases, inl, inr,
}
use chromium_ec.Uart.{Uart, Buffer, process_output, tx_start}
use chromium_ec.Uart.Ring.{Holds, get-first}
use chromium_ec.Uart.Output.{drain-Holds}
use chromium_ec.Uart.Line.{Line, transmit, sent, is_plain, first, spec_step}

abbrev pub AllPlain : List ℕ → Type 0
AllPlain [] = Unit
AllPlain (c ∷ cs) = (is_plain c ≡ true) × AllPlain cs

-- The buffers hold the sequences; no character for flow control is among the input; and the
-- transmit interrupt is off while output is suspended, and else on whenever output waits.
pub record Refines (tx_bits rx_bits : ℕ) (u : Uart) (l : Line) : Type 0 where
  pub tx_holds : Holds tx_bits u.tx l.tx
  pub rx_holds : Holds rx_bits u.rx l.rx
  pub rx_plain : AllPlain l.rx
  pub flow_same : u.suspended ≡ l.suspended
  pub stopped : l.suspended ≡ true → u.tx_enabled ≡ false
  pub awake : l.suspended ≡ false → (u.tx_enabled ≡ true) ⊎ (l.tx ≡ [])

pub AllPlain-append : (xs ys : List ℕ) → AllPlain xs → AllPlain ys → AllPlain (xs ++ ys)
AllPlain-append [] ys p q = q
AllPlain-append (x ∷ xs) ys (h, p) q = (h, AllPlain-append xs ys p q)

pub AllPlain-take : (n : ℕ) (xs : List ℕ) → AllPlain xs → AllPlain (take n xs)
AllPlain-take zero xs p = tt
AllPlain-take (suc n) [] p = tt
AllPlain-take (suc n) (x ∷ xs) (h, p) = (h, AllPlain-take n xs p)

pub AllPlain-drop : (xs : List ℕ) → AllPlain xs → AllPlain (drop 1 xs)
AllPlain-drop [] p = tt
AllPlain-drop (x ∷ xs) (h, p) = p

-- Output still waits, or the interrupt is switched off rightly.
awake-drained :
    {bits : ℕ} {b : Buffer} {cs : List ℕ} {enabled : Bool}
    → Holds bits b cs
    → (enabled ≡ true) ⊎ (cs ≡ [])
    → ((if b.tail == b.head then false else enabled) ≡ true) ⊎ (cs ≡ [])
awake-drained {cs = []} h e = inr refl
awake-drained {b = b} {cs = c ∷ cs} h (inl e) =
    let (waits, first, rest) = get-first h in inl (ground (arith, waits, e))
awake-drained {cs = c ∷ cs} h (inr e) = inr e

awake-drop :
    {enabled : Bool} {cs : List ℕ} (ready : ℕ)
    → (enabled ≡ true) ⊎ (cs ≡ [])
    → (enabled ≡ true) ⊎ (drop ready cs ≡ [])
awake-drop ready (inl e) = inl e
awake-drop {cs = cs} zero (inr e) = inr e
awake-drop {cs = cs} (suc ready) (inr e) = inr (ap (drop (suc ready)) e)

module _ {tx_bits rx_bits : ℕ} where
  -- The end of the calls that store output.
  pub stored-Refines :
      {b : Buffer} {cs : List ℕ} {u : Uart} {l : Line}
      → Holds tx_bits b cs
      → Refines tx_bits rx_bits u l
      → Refines tx_bits rx_bits (tx_start (record u { tx = b })) (record l { tx = cs })
  stored-Refines {b} {cs} {u} {l} h r = record {
    tx_holds = h;
    rx_holds = r.rx_holds;
    rx_plain = r.rx_plain;
    flow_same = r.flow_same;
    stopped = λ s. ground (arith, r.flow_same, r.stopped, s);
    awake = λ s. inl (ground (arith, r.flow_same, s));
  }

  pub process_output-Refines :
      (ready : ℕ) {u : Uart} {l : Line}
      → Refines tx_bits rx_bits u l
      → let (a, l') = spec_step tx_bits rx_bits (transmit ready) l in
        (sent (process_output tx_bits ready u).0 ≡ a)
        × Refines tx_bits rx_bits (process_output tx_bits ready u).1 l'
  unfolding process_output
  process_output-Refines ready {u} {l} r = elim (Bool-cases l.suspended) [
    | inl off ↦ simp (r.flow_same, off) (refl, r)
    | inr on ↦
        let (out, held) = drain-Holds ready r.tx_holds in
        simp (r.flow_same, on)
          (
            ap sent out,
            record {
              tx_holds = held;
              rx_holds = r.rx_holds;
              rx_plain = r.rx_plain;
              flow_same = refl;
              stopped = λ s. absurd (ground (arith, s));
              awake = λ s. awake-drained held (awake-drop ready (r.awake on));
            },
          )
  ]
