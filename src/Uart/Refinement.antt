-- ===== src/Uart/Refinement.antt =====
-- common/uart_buffering.c keeps what Uart.Line promises, but for the answer to a string whose last
-- character is cut.
use chromium_ec.Common.{
  ℕ, ◌-◌, ◌^◌, Bool, true, not, ◌&&◌, List, [], ◌∷◌, ◌++◌, leb, length, if◌then◌else◌,
}
use chromium_ec.Uart.{Uart, putc, puts, process_output, process_input, getc}
use chromium_ec.Uart.Output.{init}
use chromium_ec.Uart.Line.{
  Line, Call, write_char, write_string, transmit, receive, read, Answer, success, sent, new_input,
  char, crlf, spec_step,
}

-- The functions of the file, as calls.
module _ (tx_bits rx_bits : ℕ) where
  abbrev pub step : Call → Uart → Answer × Uart
  step (write_char c) u = let (ok, u') = putc tx_bits c u in (success ok, u')
  step (write_string s) u = let (ok, u') = puts tx_bits s u in (success ok, u')
  step (transmit ready) u = let (cs, u') = process_output tx_bits ready u in (sent cs, u')
  step (receive cs) u = let (got, u') = process_input rx_bits cs u in (new_input got, u')
  step read u = let (c, u') = getc rx_bits u in (char c, u')

  abbrev pub run : List Call → Uart → List Answer × Uart
  run [] u = ([], u)
  run (c ∷ cs) u = let (a, u') = step c u in let (rest, u'') = run cs u' in (a ∷ rest, u'')

  -- The last character of the string has no room, or not all of it, and those before it have.
  abbrev pub only_last_cut : List ℕ → Line → Bool
  only_last_cut s l =
      not (leb (length (l.tx ++ crlf s)) (2 ^ tx_bits - 1))
      && leb (length (l.tx ++ crlf (init s))) (2 ^ tx_bits - 1)

  -- What the code answers where the specification answers `a`: it takes a string for stored if only
  -- its last character is cut.
  abbrev pub told : Call → Line → Answer → Answer
  told (write_string s) l a = if only_last_cut s l then success true else a
  told (write_char c) l a = a
  told (transmit ready) l a = a
  told (receive cs) l a = a
  told read l a = a

  -- The specification's answers as the code gives them.
  abbrev pub told_run : List Call → Line → List Answer
  told_run [] l = []
  told_run (c ∷ cs) l = let (a, l') = spec_step tx_bits rx_bits c l in told c l a ∷ told_run cs l'
