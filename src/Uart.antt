-- ===== src/Uart.antt =====
-- common/uart_buffering.c, without DMA: the transmit and receive buffers of the console between the
-- tasks and the UART, with software flow control. A character is its code. The sizes of the buffers
-- (CONFIG_UART_TX_BUF_SIZE, CONFIG_UART_RX_BUF_SIZE) are powers of two, given by their exponents.
-- Of the chip's UART, `uart_tx_start` and `uart_tx_stop` are the flag `tx_enabled`; how many
-- characters it takes, and the ones it has received, are arguments.
pub mod Ring
pub mod Line
pub mod Output
pub mod Simulation
pub mod Input
pub mod Refinement
mod Tests
use chromium_ec.Common.{
  ℕ, zero, suc, ◌+◌, ◌-◌, ◌^◌, Bool, true, false, not, ◌||◌, ◌&&◌, List, [], ◌∷◌, ◌==◌, Option,
  some, none, if◌then◌else◌, bit_and, get_or, set,
}

-- A buffer with its indices: `tx_buf`, `tx_buf_head` and `tx_buf_tail`, or those of `rx_buf`.
pub record Buffer : Type 0 where
  pub chars : List ℕ
  pub head : ℕ
  pub tail : ℕ

pub record Uart : Type 0 where
  pub tx : Buffer
  pub rx : Buffer
  pub suspended : Bool  -- `uart_suspended`
  pub tx_enabled : Bool

-- '\n', '\r', CTRL('S') and CTRL('Q')
abbrev pub newline : ℕ
newline = 10

abbrev pub carriage_return : ℕ
carriage_return = 13

abbrev pub xoff : ℕ
xoff = 19

abbrev pub xon : ℕ
xon = 17

-- TX_BUF_NEXT and RX_BUF_NEXT
abbrev pub buf_next : ℕ → ℕ → ℕ
buf_next bits i = bit_and (i + 1) (2 ^ bits - 1)

-- The store of one character: whether there is room, and the buffer.
pub put : ℕ → ℕ → Buffer → Bool × Buffer
put bits c b =
    let next = buf_next bits b.head in
    if next == b.tail
    then (false, b)
    else (true, record b { chars = set b.chars b.head c; head = next })

-- `__tx_char`: whether the character is transmitted (the source returns 0).
pub tx_char : ℕ → ℕ → Buffer → Bool × Buffer
tx_char bits c b =
    let (returned, b') = put bits carriage_return b in
    if c == newline then if returned then put bits newline b' else (false, b') else put bits c b

-- `if (!uart_suspended) uart_tx_start();`
abbrev pub tx_start : Uart → Uart
tx_start u = record u { tx_enabled = if u.suspended then u.tx_enabled else true }

-- `uart_putc`: whether it returns EC_SUCCESS.
pub putc : ℕ → ℕ → Uart → Bool × Uart
putc bits c u = let (ok, b) = tx_char bits c u.tx in (ok, tx_start (record u { tx = b }))

-- The loop of `uart_puts`: what is left of the string.
pub tx_string : ℕ → List ℕ → Buffer → List ℕ × Buffer
tx_string bits [] b = ([], b)
tx_string bits (c ∷ cs) b =
    let (ok, b') = tx_char bits c b in
    let rest = tx_string bits cs b' in if ok then rest else (cs, b')

abbrev pub is_empty : List ℕ → Bool
is_empty [] = true
is_empty (c ∷ cs) = false

-- `uart_puts`: whether it returns EC_SUCCESS.
pub puts : ℕ → List ℕ → Uart → Bool × Uart
puts bits outstr u =
    let (rest, b) = tx_string bits outstr u.tx in (is_empty rest, tx_start (record u { tx = b }))

-- The loop of `uart_process_output`, for a UART that takes `ready` characters: those it is given.
pub drain : ℕ → ℕ → Buffer → List ℕ × Buffer
drain bits zero b = ([], b)
drain bits (suc ready) b =
    let (cs, b') = drain bits ready (record b { tail = buf_next bits b.tail }) in
    if b.head == b.tail then ([], b) else (get_or b.chars b.tail 0 ∷ cs, b')

-- `uart_process_output`
pub process_output : ℕ → ℕ → Uart → List ℕ × Uart
process_output bits ready u =
    let (cs, b) = drain bits ready u.tx in
    if u.suspended
    then ([], u)
    else (cs, record u { tx = b; tx_enabled = if b.tail == b.head then false else u.tx_enabled })

-- The body of the loop of `uart_process_input`: whether the character is buffered.
pub take_char : ℕ → ℕ → Uart → Bool × Uart
take_char bits c u =
    let (room, b) = put bits c u.rx in
    if c == xoff
    then (false, record u { suspended = true; tx_enabled = false })
    else if c == xon
    then (false, record u { suspended = false; tx_enabled = true })
    else (room, record u { rx = b })

-- `uart_process_input`, on the characters received: whether console_has_input is called.
pub process_input : ℕ → List ℕ → Uart → Bool × Uart
process_input bits [] u = (false, u)
process_input bits (c ∷ cs) u =
    let (got, u') = take_char bits c u in
    let (later, u'') = process_input bits cs u' in (got || later, u'')

-- The loop of `uart_getc`; `none` is -1, and the answer if the fuel runs out.
pub getc_from : ℕ → ℕ → Buffer → Option ℕ × Buffer
getc_from bits zero b = (none, b)
getc_from bits (suc fuel) b =
    let c = get_or b.chars b.tail 0 in
    let b' = record b { tail = buf_next bits b.tail } in
    let rest = getc_from bits fuel b' in
    if b.tail == b.head
    then (none, b)
    else if not (c == xon) && not (c == xoff)
    then (some c, b')
    else rest

-- `uart_getc`; no more characters than the size of the buffer are looked at.
pub getc : ℕ → Uart → Option ℕ × Uart
getc bits u = let (c, b) = getc_from bits (2 ^ bits) u.rx in (c, record u { rx = b })
