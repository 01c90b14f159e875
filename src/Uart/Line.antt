-- ===== src/Uart/Line.antt =====
-- What common/uart_buffering.c promises: two bounded sequences of characters, with none lost that
-- there is room for.
use chromium_ec.Common.{
  ℕ, ◌-◌, ◌^◌, Bool, true, false, not, ◌&&◌, List, [], ◌∷◌, ◌++◌, leb, ◌==◌, Option, some, none,
  if◌then◌else◌, length, take, drop,
}
use chromium_ec.Uart.{newline, carriage_return, xon, xoff}

pub record Line : Type 0 where
  pub tx : List ℕ  -- what the UART has yet to be given
  pub rx : List ℕ  -- what has not been read
  pub suspended : Bool

pub data Call : Type 0 where
  write_char : ℕ → Call
  write_string : List ℕ → Call
  transmit : ℕ → Call
  receive : List ℕ → Call
  read : Call

-- What a call gives: whether it succeeds, the characters for the UART, whether there is new input,
-- or the character read.
pub data Answer : Type 0 where
  success : Bool → Answer
  sent : List ℕ → Answer
  new_input : Bool → Answer
  char : Option ℕ → Answer

-- A newline is sent as two characters.
abbrev pub crlf : List ℕ → List ℕ
crlf [] = []
crlf (c ∷ cs) =
    let rest = crlf cs in if c == newline then carriage_return ∷ newline ∷ rest else c ∷ rest

abbrev pub is_plain : ℕ → Bool
is_plain c = not (c == xoff) && not (c == xon)

abbrev pub plain : List ℕ → List ℕ
plain [] = []
plain (c ∷ cs) = let rest = plain cs in if is_plain c then c ∷ rest else rest

-- Flow control by the last of the characters that is one for it.
abbrev pub flow : List ℕ → Bool → Bool
flow [] suspended = suspended
flow (c ∷ cs) suspended =
    flow cs (if c == xoff then true else if c == xon then false else suspended)

abbrev pub first : List ℕ → Option ℕ
first [] = none
first (c ∷ cs) = some c

-- The sequences hold one character less than the buffers' sizes. A character or a string succeeds
-- exactly when the whole of it is stored, as include/uart.h says.
module _ (tx_bits rx_bits : ℕ) where
  abbrev pub spec_step : Call → Line → Answer × Line
  spec_step (write_char c) l = (
    success (leb (length (l.tx ++ crlf (c ∷ []))) (2 ^ tx_bits - 1)),
    record l { tx = take (2 ^ tx_bits - 1) (l.tx ++ crlf (c ∷ [])) },
  )
  spec_step (write_string s) l = (
    success (leb (length (l.tx ++ crlf s)) (2 ^ tx_bits - 1)),
    record l { tx = take (2 ^ tx_bits - 1) (l.tx ++ crlf s) },
  )
  spec_step (transmit ready) l =
      if l.suspended
      then (sent [], l)
      else (sent (take ready l.tx), record l { tx = drop ready l.tx })
  spec_step (receive cs) l =
      let rx = take (2 ^ rx_bits - 1) (l.rx ++ plain cs) in
      (
        new_input (not (length rx == length l.rx)),
        record l { rx = rx; suspended = flow cs l.suspended },
      )
  spec_step read l = (char (first l.rx), record l { rx = drop 1 l.rx })

  abbrev pub spec_run : List Call → Line → List Answer × Line
  spec_run [] l = ([], l)
  spec_run (c ∷ cs) l =
      let (a, l') = spec_step c l in let (rest, l'') = spec_run cs l' in (a ∷ rest, l'')
