-- ===== src/Queue/Bytes.antt =====
-- The bytes that a queue of common/queue.c holds, oldest first, and how one byte goes in and out.
use chromium_ec.Common.{
  ℕ, suc, ◌+◌, ◌%◌, ◌<◌, ◌≡◌, refl, ap, ◌∙◌, List, [], ◌∷◌, ◌++◌, arith, length, get_or, set,
  length-set, gap, run_from, run_from-set, run_from-pos, step_index,
}
use chromium_ec.Queue.{Queue, add_byte, remove_byte}

-- The record of what every queue keeps.
pub record IsValid (q : Queue) : Type 0 where
  pub storage : length q.buf ≡ q.buf_bytes
  pub head_in : q.head < q.buf_bytes
  pub tail_in : q.tail < q.buf_bytes

abbrev pub count : Queue → ℕ
count q = gap q.buf_bytes q.head q.tail

abbrev pub contents : Queue → List ℕ
contents q = run_from 0 q.buf q.buf_bytes q.head (count q)

pub add_byte-IsValid : {q : Queue} (x : ℕ) → IsValid q → IsValid (add_byte q x)
add_byte-IsValid {q} x v = ground (arith, length-set q.buf q.tail x)

pub remove_byte-IsValid : {q : Queue} → IsValid q → IsValid (remove_byte q)
remove_byte-IsValid {q} v = ground arith

pub count-add_byte :
    {q : Queue} (x : ℕ) → IsValid q → count q + 1 < q.buf_bytes → count (add_byte q x) ≡ count q + 1
count-add_byte {q} x v room = ground (arith, step_index q.buf_bytes q.tail v.tail_in)

pub count-remove_byte : {q : Queue} → IsValid q → 0 < count q → count (remove_byte q) + 1 ≡ count q
count-remove_byte {q} v some = ground (arith, step_index q.buf_bytes q.head v.head_in)

-- Adding a byte appends it.
pub contents-add_byte :
    {q : Queue} (x : ℕ)
    → IsValid q
    → count q + 1 < q.buf_bytes
    → contents (add_byte q x) ≡ contents q ++ (x ∷ [])
contents-add_byte {q} x v room =
    ap (run_from 0 (set q.buf q.tail x) q.buf_bytes q.head) {y = suc (count q)}
      (omega (arith, count-add_byte x v room))
    ∙ run_from-set 0 q.buf q.buf_bytes q.tail x (count q) q.head v.storage v.head_in v.tail_in refl

-- Removing a byte takes the oldest.
pub contents-remove_byte :
    {q : Queue}
    → IsValid q
    → 0 < count q
    → contents q ≡ get_or q.buf q.head 0 ∷ contents (remove_byte q)
contents-remove_byte {q} v some =
    run_from-pos 0 q.buf q.buf_bytes q.head (count q) some
    ∙ ap (λ k. get_or q.buf q.head 0 ∷ run_from 0 q.buf q.buf_bytes ((q.head + 1) % q.buf_bytes) k)
        (omega (arith, count-remove_byte v some))
