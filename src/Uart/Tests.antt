-- ===== src/Uart/Tests.antt =====
-- common/uart_buffering.c with buffers of four characters.
use chromium_ec.Common.{◌≡◌, refl, true, false, List, [], ◌∷◌, some}
use chromium_ec.Uart.{
  Uart, Buffer, putc, puts, process_output, process_input, getc, put, tx_char, tx_string, drain,
  take_char, getc_from,
}
use chromium_ec.Uart.Line.{
  Line, Call, write_char, write_string, transmit, receive, read, success, sent, new_input, char,
  spec_run,
}
use chromium_ec.Uart.Refinement.{run}

abbrev empty : Buffer
empty = record { chars = 0 ∷ 0 ∷ 0 ∷ 0 ∷ []; head = 3; tail = 3 }

abbrev quiet : Uart
quiet = record { tx = empty; rx = empty; suspended = false; tx_enabled = false }

abbrev no_line : Line
no_line = record { tx = []; rx = []; suspended = false }

abbrev calls : List Call
calls =
    write_char 10
    ∷ receive (65 ∷ 19 ∷ [])
    ∷ transmit 1
    ∷ receive (17 ∷ 66 ∷ 67 ∷ 68 ∷ [])
    ∷ transmit 1
    ∷ write_string (97 ∷ 98 ∷ 99 ∷ [])
    ∷ read
    ∷ []

calls-answers : (run 2 2 calls quiet).0 ≡ (
    success true
    ∷ new_input true
    ∷ sent []
    ∷ new_input true
    ∷ sent (13 ∷ [])
    ∷ success true
    ∷ char (some 65)
    ∷ [])
unfolding putc puts process_output process_input getc put tx_char tx_string drain take_char
    getc_from
calls-answers = refl

-- The last character of a string of four has no room, and uart_puts does not tell.
cut-answers :
    ((run 2 2 (write_string (97 ∷ 98 ∷ 99 ∷ 100 ∷ []) ∷ []) quiet).0 ≡ success true ∷ [])
    × ((spec_run 2 2 (write_string (97 ∷ 98 ∷ 99 ∷ 100 ∷ []) ∷ []) no_line).0 ≡ success false ∷ [])
unfolding puts put tx_char tx_string
cut-answers = (refl, refl)
