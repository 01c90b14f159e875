-- ===== src/Util/Memory/Up.antt =====
-- memcpy of common/util.c copies, by bytes and by words, at every alignment.
use chromium_ec.Common.{ℕ, ◌+◌, ◌-◌, ◌*◌, ◌≤◌, ◌≡◌, ◌∙◌, ap, arith}
use chromium_ec.Util.Memory.{
  Memory, copy_up, copy_words_up, copy_head, memcpy, word_below, words_between,
}
use chromium_ec.Util.Memory.Copy.{
  copied, IsAhead, copy_up-copied, copy_words_up-copied, copied-up_up,
}

-- Where the words begin and end: inside the block, in order.
copy_head_bounds :
    (d s n : ℕ)
    → (d ≤ copy_head d s n)
      × (copy_head d s n + 4 * words_between (copy_head d s n) (word_below (d + n)) ≤ d + n)
unfolding copy_head
copy_head_bounds d s n = ground arith

-- A copy of bytes, of words and of bytes again is one copy.
three_up :
    (d s a b c n : ℕ) (m : Memory) (x : ℕ)
    → a + 4 * b + c ≡ n
    → IsAhead d s n
    → copy_up c
        (d + (a + 4 * b))
        (s + (a + 4 * b))
        (copy_words_up b (d + a) (s + a) (copy_up a d s m))
        x
      ≡ copied d s n m x
three_up d s a b c n m x total h =
    let m1 : Memory = copy_up a d s m in
    let m2 : Memory = copy_words_up b (d + a) (s + a) m1 in
    let first : (y : ℕ) → m1 y ≡ copied d s a m y = λ y. copy_up-copied a d s m y (omega arith) in
    let second : (y : ℕ) → m2 y ≡ copied d s (a + 4 * b) m y = λ y.
      copy_words_up-copied b (d + a) (s + a) m1 y (omega arith)
      ∙ copied-up_up d s a (4 * b) m m1 y (omega arith) first in
    let third = copy_up-copied c (d + (a + 4 * b)) (s + (a + 4 * b)) m2 x (omega arith) in
    third
    ∙ copied-up_up d s (a + 4 * b) c m m2 x (omega arith) second
    ∙ ap (λ k. copied d s k m x) total

-- If the destination does not begin inside the source, after memcpy every byte of the destination
-- is the byte that stood at its place of the source, whatever the alignment of the two and wherever
-- the copy by words begins and ends, and no other byte has changed.
pub memcpy-copied :
    (d s n : ℕ) (m : Memory) (a : ℕ) → IsAhead d s n → memcpy d s n m a ≡ copied d s n m a
unfolding memcpy
memcpy-copied d s n m a h =
    three_up d s (copy_head d s n - d) (words_between (copy_head d s n) (word_below (d + n))) _ n m
      a (omega (arith, copy_head_bounds d s n)) h
