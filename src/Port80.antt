-- ===== src/Port80.antt =====
-- common/port80.c: the history of the codes that the host writes to port 80. The count of writes is
-- an `int` in the source and a natural number here, so that a run has fewer than 2^31 writes
-- between two flushes. The prints are left out, but for the codes that the command lists.
pub mod History
mod Tests
use chromium_ec.Common.{
  ℕ, zero, suc, ◌+◌, ◌-◌, ◌%◌, ◌^◌, Bool, ◌&&◌, List, [], ◌∷◌, ltb, ◌==◌, nonzero, if◌then◌else◌,
  get_or, set,
}

abbrev pub history_len : ℕ
history_len = 256

-- PORT_80_EVENT_RESET
abbrev pub event_reset : ℕ
event_reset = 0x1002

pub record Port80 : Type 0 where
  pub history : List ℕ
  pub writes : ℕ
  pub last_boot : ℕ

-- `port_80_write`; the code is stored as a uint16_t.
pub write : ℕ → Port80 → Port80
write code s =
    let prev = get_or s.history ((s.writes - 1) % history_len) 0 in
    record {
      history = set s.history (s.writes % history_len) (code % 2 ^ 16);
      writes = s.writes + 1;
      last_boot =
          if (code == event_reset && nonzero s.writes) && ltb prev 0x100 then prev else s.last_boot;
    }

-- `port80 flush`
pub flush : Port80 → Port80
flush s = record s { writes = 0 }

-- The loop that lists the codes, with `count` left, at `i`.
pub list_from : List ℕ → ℕ → ℕ → List ℕ
list_from history zero i = []
list_from history (suc count) i =
    get_or history (i % history_len) 0 ∷ list_from history count (i + 1)

-- What `port80` lists.
pub listed : Port80 → List ℕ
listed s =
    let head = s.writes in
    let tail = if ltb history_len head then head - history_len else 0 in
    list_from s.history (head - tail) tail
