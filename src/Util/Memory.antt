-- ===== src/Util/Memory.antt =====
-- memcpy, memset and memmove of common/util.c, on a memory of bytes. A pointer is its address, a
-- loop between two pointers runs for the rounds that it takes from one to the other, and a word
-- access reads or writes four bytes at once. No block wraps round the address space.
pub mod Copy
pub mod Up
pub mod Down
pub mod Fill
use chromium_ec.Common.{
  ℕ, zero, suc, ◌+◌, ◌-◌, ◌*◌, ◌/◌, ◌%◌, ◌^◌, Bool, true, false, not, ◌&&◌, ◌||◌, ltb, leb, ◌==◌,
  if◌then◌else◌, bit_or,
}

abbrev pub Memory : Type 0
Memory = ℕ → ℕ

abbrev pub store : ℕ → ℕ → Memory → Memory
store p v m = λ a. if a == p then v else m a

-- `*p = w` for a word given by its four bytes, lowest address first.
abbrev pub store_word : ℕ → ℕ → ℕ → ℕ → ℕ → Memory → Memory
store_word p v0 v1 v2 v3 m = λ a.
    if a == p
    then v0
    else if a == p + 1
    then v1
    else if a == p + 2
    then v2
    else if a == p + 3
    then v3
    else m a

-- `p & ~3` and `(p + 3) & ~3`
abbrev pub word_below : ℕ → ℕ
word_below p = p / 4 * 4

abbrev pub word_above : ℕ → ℕ
word_above p = (p + 3) / 4 * 4

-- The rounds of a loop that moves a word pointer from `p` up to `q`, or from `q` down to `p`.
abbrev pub words_between : ℕ → ℕ → ℕ
words_between p q = (q - p + 3) / 4

-- `while (d < head) *(d++) = *(s++);`
pub copy_up : ℕ → ℕ → ℕ → Memory → Memory
copy_up zero d s m = m
copy_up (suc n) d s m = copy_up n (d + 1) (s + 1) (store d (m s) m)

-- `while (dw < body) *(dw++) = *(sw++);`
pub copy_words_up : ℕ → ℕ → ℕ → Memory → Memory
copy_words_up zero d s m = m
copy_words_up (suc n) d s m =
    copy_words_up n (d + 4) (s + 4) (store_word d (m s) (m (s + 1)) (m (s + 2)) (m (s + 3)) m)

-- `head` of memcpy: where the copy by words begins.
pub copy_head : ℕ → ℕ → ℕ → ℕ
copy_head dest src len =
    if not (dest % 4 == src % 4)
    then dest + len
    else (if ltb (dest + len) (word_above dest) then dest + len else word_above dest)

pub memcpy : ℕ → ℕ → ℕ → Memory → Memory
memcpy dest src len m =
    let tail = dest + len in
    let head = copy_head dest src len in
    let h = head - dest in
    let words = words_between head (word_below tail) in
    let b = h + 4 * words in
    copy_up (tail - (dest + b)) (dest + b) (src + b)
      (copy_words_up words (dest + h) (src + h) (copy_up h dest src m))

-- `while (d > head) *(--d) = *(--s);`
pub copy_down : ℕ → ℕ → ℕ → Memory → Memory
copy_down zero d s m = m
copy_down (suc n) d s m = copy_down n (d - 1) (s - 1) (store (d - 1) (m (s - 1)) m)

-- `while (dw > body) *(--dw) = *(--sw);`
pub copy_words_down : ℕ → ℕ → ℕ → Memory → Memory
copy_words_down zero d s m = m
copy_words_down (suc n) d s m =
    copy_words_down n (d - 4) (s - 4)
      (store_word (d - 4) (m (s - 4)) (m (s - 4 + 1)) (m (s - 4 + 2)) (m (s - 4 + 3)) m)

-- `head` of memmove: where the copy by words, from the top, begins.
pub move_head : ℕ → ℕ → ℕ → ℕ
move_head dest src len =
    if not (dest % 4 == src % 4)
    then dest
    else (if ltb (word_below (dest + len)) dest then dest else word_below (dest + len))

-- The branch of memmove that copies from the tail.
pub move_down : ℕ → ℕ → ℕ → Memory → Memory
move_down dest src len m =
    let d = dest + len in
    let s = src + len in
    let h = d - move_head dest src len in
    let words = words_between (word_above dest) (move_head dest src len) in
    let b = h + 4 * words in
    copy_down (d - b - dest) (d - b) (s - b)
      (copy_words_down words (d - h) (s - h) (copy_down h d s m))

pub memmove : ℕ → ℕ → ℕ → Memory → Memory
memmove dest src len m =
    if leb dest src || leb (src + len) dest then memcpy dest src len m else move_down dest src len m

-- `while (d < head) *(d++) = c;`
pub fill : ℕ → ℕ → ℕ → Memory → Memory
fill zero d c m = m
fill (suc n) d c m = fill n (d + 1) c (store d c m)

-- `c | (c << 8) | (c << 16) | (c << 24)`
pub cccc : ℕ → ℕ
cccc c = bit_or (bit_or (bit_or c (c * 2 ^ 8)) (c * 2 ^ 16)) (c * 2 ^ 24)

-- Byte `k` of a word, in the little-endian order of the EC's cores.
abbrev pub byte_of : ℕ → ℕ → ℕ
byte_of w k = w / 2 ^ (8 * k) % 256

-- `while (dw < body) *(dw++) = cccc;`
pub fill_words : ℕ → ℕ → ℕ → Memory → Memory
fill_words zero d w m = m
fill_words (suc n) d w m =
    fill_words n (d + 4) w (store_word d (byte_of w 0) (byte_of w 1) (byte_of w 2) (byte_of w 3) m)

-- `head` of memset.
pub fill_head : ℕ → ℕ → ℕ
fill_head dest len = if ltb (dest + len) (word_above dest) then dest + len else word_above dest

-- `c &= 0xff` is the remainder by 256.
pub memset : ℕ → ℕ → ℕ → Memory → Memory
memset dest c len m =
    let v = c % 256 in
    let tail = dest + len in
    let head = fill_head dest len in
    let h = head - dest in
    let words = words_between head (word_below tail) in
    let b = h + 4 * words in
    fill (tail - (dest + b)) (dest + b) v (fill_words words (dest + h) (cccc v) (fill h dest v m))
