-- ===== src/Queue/Invariant.antt =====
-- What the operations of common/queue.c do to the bytes that a valid queue holds.
use mathlib.Core.List.{append_assoc, append-nil}
use chromium_ec.Common.{
  ℕ, zero, suc, ◌+◌, ◌*◌, ◌≤◌, ◌<◌, ◌≡◌, refl, ap, ◌∙◌, sym, List, [], ◌∷◌, ◌++◌, arith, ltb, ◌==◌,
  length, get_or, take,
}
use chromium_ec.Queue.{
  Queue, reset, is_empty, has_space, add_byte, add_bytes, remove_byte, remove_bytes,
}
use chromium_ec.Queue.Bytes.{
  IsValid, count, contents, add_byte-IsValid, remove_byte-IsValid, count-add_byte,
  count-remove_byte, contents-add_byte, contents-remove_byte,
}

-- What the operations never change.
pub record SameShape (q q' : Queue) : Type 0 where
  pub same_buf : q'.buf_bytes ≡ q.buf_bytes
  pub same_unit : q'.unit_bytes ≡ q.unit_bytes

pub is_empty-count : {q : Queue} → IsValid q → is_empty q ≡ (count q == 0)
unfolding is_empty
is_empty-count v = ground arith

-- There is space exactly when the bytes fit and one byte of the buffer stays free.
pub has_space-count :
    {q : Queue} (n : ℕ) → IsValid q → has_space q n ≡ ltb (count q + n * q.unit_bytes) q.buf_bytes
unfolding has_space
has_space-count n v = ground arith

-- The queue after the loop of `queue_add_units`, from `q` with `n` bytes to go.
pub record Added (q : Queue) (s : List ℕ) (n : ℕ) (q' : Queue) : Type 0 where
  pub valid : IsValid q'
  pub shape : SameShape q q'
  pub bytes : contents q' ≡ contents q ++ take n s

pub add_bytes-Added :
    (n : ℕ) (s : List ℕ) {q : Queue}
    → IsValid q
    → n ≤ length s
    → count q + n < q.buf_bytes
    → Added q s n (add_bytes n s q)
unfolding add_bytes
add_bytes-Added zero s {q} v len room = record {
  valid = v;
  shape = record { same_buf = refl; same_unit = refl };
  bytes = sym (append-nil (contents q));
}
add_bytes-Added (suc n) [] v len room = absurd (omega arith)
add_bytes-Added (suc n) (x ∷ s) {q} v len room =
    let one = count-add_byte x v (omega arith) in
    let rest =
      add_bytes-Added n s {q = add_byte q x} (add_byte-IsValid x v) (omega arith)
        (omega (arith, one)) in
    record {
      valid = rest.valid;
      shape = record { same_buf = rest.shape.same_buf; same_unit = rest.shape.same_unit };
      bytes =
          rest.bytes
          ∙ ap (λ c. c ++ take n s) (contents-add_byte x v (omega arith))
          ∙ append_assoc (contents q) (x ∷ []) (take n s);
    }

-- What the loop of `queue_remove_unit` leaves, with the bytes it gives.
pub record Removed (q : Queue) (n : ℕ) (out : List ℕ × Queue) : Type 0 where
  pub valid : IsValid out.1
  pub shape : SameShape q out.1
  pub given : length out.0 ≡ n
  pub bytes : contents q ≡ out.0 ++ contents out.1

pub remove_bytes-Removed :
    (n : ℕ) {q : Queue} → IsValid q → n ≤ count q → Removed q n (remove_bytes n q)
unfolding remove_bytes
remove_bytes-Removed zero v le = record {
  valid = v;
  shape = record { same_buf = refl; same_unit = refl };
  given = refl;
  bytes = refl;
}
remove_bytes-Removed (suc n) {q} v le =
    let one = count-remove_byte v (omega arith) in
    let rest =
      remove_bytes-Removed n {q = remove_byte q} (remove_byte-IsValid v) (omega (arith, one)) in
    record {
      valid = rest.valid;
      shape = record { same_buf = rest.shape.same_buf; same_unit = rest.shape.same_unit };
      given = ap suc rest.given;
      bytes = contents-remove_byte v (omega arith) ∙ ap (λ c. get_or q.buf q.head 0 ∷ c) rest.bytes;
    }

-- `queue_reset` gives a valid queue that holds nothing.
pub reset-IsValid : {q : Queue} → IsValid q → IsValid (reset q) × (contents (reset q) ≡ [])
unfolding reset
reset-IsValid v = (ground arith, refl)
