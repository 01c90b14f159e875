-- ===== src/Uart/Ring.antt =====
-- What a buffer of common/uart_buffering.c holds: it is a queue of Queue with units of one byte.
use chromium_ec.Common.{
  ℕ, ◌+◌, ◌-◌, ◌%◌, ◌^◌, ◌≤◌, ◌<◌, ◌≡◌, ap, ◌∙◌, refl, true, false, List, [], ◌∷◌, ◌++◌, arith,
  length, get_or, drop, take, length-append, take-all, take-append_full, set, length-run_from, gap,
  bit_and, ◌==◌, ltb, Bool-cases, inl, inr, step_index, sym, subst,
}
use chromium_ec.Common.Bits.Mask.{mask-below, mask-top}
use chromium_ec.Queue.{Queue, add_byte, remove_byte}
use chromium_ec.Queue.Bytes.{
  IsValid, contents, count, add_byte-IsValid, remove_byte-IsValid, contents-add_byte,
  contents-remove_byte,
}
use chromium_ec.Uart.{Buffer, buf_next, put}

buf_next_lem : (bits i : ℕ) → i < 2 ^ bits → buf_next bits i ≡ (i + 1) % 2 ^ bits
buf_next_lem bits i h = elim (Bool-cases (ltb (i + 1) (2 ^ bits))) [
  | inl below ↦
      mask-below bits (i + 1) (ground (arith, below))
      ∙ ground (arith, step_index (2 ^ bits) i h, below)
  | inr top ↦
      let last : i + 1 ≡ 2 ^ bits = ground (arith, top) in
      ap (λ n. bit_and n (2 ^ bits - 1)) last
      ∙ mask-top bits
      ∙ ground (arith, step_index (2 ^ bits) i h, top)
]

-- The buffer as a queue, which is read at `tail`.
abbrev pub as_queue : ℕ → Buffer → Queue
as_queue bits b = record {
  head = b.tail;
  tail = b.head;
  buf_bytes = 2 ^ bits;
  unit_bytes = 1;
  buf = b.chars;
}

-- A buffer that keeps to its size and holds these characters, the oldest first.
pub record Holds (bits : ℕ) (b : Buffer) (cs : List ℕ) : Type 0 where
  pub valid : IsValid (as_queue bits b)
  pub characters : contents (as_queue bits b) ≡ cs

length-Holds :
    {bits : ℕ} {b : Buffer} {cs : List ℕ}
    → Holds bits b cs
    → length cs ≡ gap (2 ^ bits) b.tail b.head
length-Holds {bits} {b} {cs} h =
    ap length (sym h.characters)
    ∙ length-run_from 0 b.chars (2 ^ bits) b.tail (gap (2 ^ bits) b.tail b.head)

pub put-room :
    {bits : ℕ} {b : Buffer} {cs : List ℕ} (c : ℕ)
    → Holds bits b cs
    → length cs + 1 < 2 ^ bits
    → ((put bits c b).0 ≡ true) × Holds bits (put bits c b).1 (cs ++ (c ∷ []))
unfolding put
put-room {bits} {b} {cs} c h room =
    let next = buf_next_lem bits b.head h.valid.tail_in in
    let same : as_queue bits
          (record b { chars = set b.chars b.head c; head = buf_next bits b.head })
        ≡ add_byte (as_queue bits b) c =
      ap (λ i. record (as_queue bits b) { buf = set b.chars b.head c; tail = i }) next in
    let fits : (buf_next bits b.head == b.tail) ≡ false =
      ground (arith, next, step_index (2 ^ bits) b.head h.valid.tail_in, length-Holds h, room) in
    rw fits (
      refl,
      record {
        valid = subst IsValid (sym same) (add_byte-IsValid c h.valid);
        characters =
            ap contents same
            ∙ contents-add_byte c h.valid (omega (arith, length-Holds h, room))
            ∙ ap (λ l. l ++ (c ∷ [])) h.characters;
      },
    )

pub put-full :
    {bits : ℕ} {b : Buffer} {cs : List ℕ} (c : ℕ)
    → Holds bits b cs
    → 2 ^ bits ≤ length cs + 1
    → put bits c b ≡ (false, b)
unfolding put
put-full {bits} {b} {cs} c h full =
    let next = buf_next_lem bits b.head h.valid.tail_in in
    let stops : (buf_next bits b.head == b.tail) ≡ true =
      ground (arith, next, step_index (2 ^ bits) b.head h.valid.tail_in, length-Holds h, full) in
    rw stops refl

-- Reading at `tail`: the buffer is empty, or it gives its first character.
pub get-empty : {bits : ℕ} {b : Buffer} → Holds bits b [] → (b.head == b.tail) ≡ true
get-empty {bits} {b} h = ground (arith, length-Holds h, h.valid.head_in, h.valid.tail_in)

pub get-first :
    {bits : ℕ} {b : Buffer} {c : ℕ} {cs : List ℕ}
    → Holds bits b (c ∷ cs)
    → ((b.head == b.tail) ≡ false)
      × (get_or b.chars b.tail 0 ≡ c)
      × Holds bits (record b { tail = buf_next bits b.tail }) cs
get-first {bits} {b} {c} {cs} h =
    let next = buf_next_lem bits b.tail h.valid.head_in in
    let some : 0 < count (as_queue bits b) = omega (arith, length-Holds h) in
    let first = sym h.characters ∙ contents-remove_byte h.valid some in
    let same : as_queue bits (record b { tail = buf_next bits b.tail })
        ≡ remove_byte (as_queue bits b) =
      ap (λ i. record (as_queue bits b) { head = i }) next in
    (
      ground (arith, length-Holds h),
      ap (λ l. get_or l 0 0) (sym first),
      record {
        valid = subst IsValid (sym same) (remove_byte-IsValid h.valid);
        characters = ap contents same ∙ ap (drop 1) (sym first);
      },
    )

-- No more than one less than the size is held, so that a full buffer does not look empty.
pub length-Holds-lt : {bits : ℕ} {b : Buffer} {cs : List ℕ} → Holds bits b cs → length cs < 2 ^ bits
length-Holds-lt {bits} {b} {cs} h = ground (arith, length-Holds h, h.valid.head_in, h.valid.tail_in)

-- A store puts the character last, as far as there is room.
pub put-Holds :
    {bits : ℕ} {b : Buffer} {cs : List ℕ} (c : ℕ)
    → Holds bits b cs
    → ((put bits c b).0 ≡ ltb (length cs + 1) (2 ^ bits))
      × Holds bits (put bits c b).1 (take (2 ^ bits - 1) (cs ++ (c ∷ [])))
put-Holds {bits} {b} {cs} c h = elim (Bool-cases (ltb (length cs + 1) (2 ^ bits))) [
  | inl room ↦
      let lt : length cs + 1 < 2 ^ bits = ground (arith, room) in
      let (ok, held) = put-room c h lt in
      (
        ok ∙ sym room,
        subst (Holds bits (put bits c b).1)
            (sym
              (take-all (2 ^ bits - 1) (cs ++ (c ∷ [])) (omega (arith, length-append cs (c ∷ [])))))
            held,
      )
  | inr full ↦
      let stops = put-full c h (ground (arith, full)) in
      (
        ap (λ p. p.0) stops ∙ sym full,
        rw stops (
            subst (Holds bits b)
              (sym (
                take-append_full (2 ^ bits - 1) cs (c ∷ [])
                  (ground (arith, full, length-Holds-lt h))))
              h),
      )
]
