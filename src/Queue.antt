-- ===== src/Queue.antt =====
-- common/queue.c and include/queue.h: a byte ring that stores units of `unit_bytes` bytes. A
-- function that updates `*q` returns the new queue. The `int` fields are natural numbers, which
-- `Queue.Invariant` keeps below `buf_bytes`, so that no `int` sum here overflows.
pub mod Bytes
pub mod Invariant
pub mod Fifo
mod Tests
use chromium_ec.Common.{
  ℕ, zero, suc, ◌+◌, ◌*◌, ◌%◌, Bool, true, false, List, [], ◌∷◌, ltb, ◌==◌, if◌then◌else◌, get_or,
  set,
}

-- `struct queue`; the array `buf` is a list of `buf_bytes` bytes.
pub record Queue : Type 0 where
  pub head : ℕ
  pub tail : ℕ
  pub buf_bytes : ℕ
  pub unit_bytes : ℕ
  pub buf : List ℕ

pub reset : Queue → Queue
reset q = record q { head = 0; tail = 0 }

pub is_empty : Queue → Bool
is_empty q = q.head == q.tail

-- `x <= y - 1` on `int` is `x < y`.
pub has_space : Queue → ℕ → Bool
has_space q unit_count =
    if ltb tail head
    then ltb (tail + unit_count * unit_bytes) head
    else ltb (tail + unit_count * unit_bytes) (head + buf_bytes)
  where
    open q use {head, tail, buf_bytes, unit_bytes}

-- One round of the loop of `queue_add_units`.
abbrev pub add_byte : Queue → ℕ → Queue
add_byte q x = record q { buf = set q.buf q.tail x; tail = (q.tail + 1) % q.buf_bytes }

-- The loop: `count` bytes are left, and the list is the memory from `s` on. The source reads past
-- the end of a shorter `src`; here the loop stops.
pub add_bytes : ℕ → List ℕ → Queue → Queue
add_bytes zero s q = q
add_bytes (suc count) [] q = q
add_bytes (suc count) (x ∷ s) q = add_bytes count s (add_byte q x)

pub add_units : Queue → List ℕ → ℕ → Queue
add_units q src unit_count =
    if has_space q unit_count then add_bytes (unit_count * q.unit_bytes) src q else q

-- One round of the loop of `queue_remove_unit`: what it leaves of the queue.
abbrev pub remove_byte : Queue → Queue
remove_byte q = record q { head = (q.head + 1) % q.buf_bytes }

-- The loop, with the bytes that go to `dest`, in order.
pub remove_bytes : ℕ → Queue → List ℕ × Queue
remove_bytes zero q = ([], q)
remove_bytes (suc count) q =
    let (d, q') = remove_bytes count (remove_byte q) in (get_or q.buf q.head 0 ∷ d, q')

-- The status (`true` for 1), the bytes at `dest`, and the queue.
pub remove_unit : Queue → Bool × List ℕ × Queue
remove_unit q =
    if is_empty q
    then (false, [], q)
    else (let (d, q') = remove_bytes q.unit_bytes q in (true, d, q'))
