-- ===== src/Util/Memory/Down.antt =====
-- memmove of common/util.c copies blocks that overlap in any way.
use chromium_ec.Common.{ℕ, ◌+◌, ◌-◌, ◌*◌, ◌≤◌, ◌≡◌, ◌∙◌, ap, arith, leb, ◌||◌, Bool-cases, inl, inr}
use chromium_ec.Util.Memory.{
  Memory, copy_down, copy_words_down, move_head, move_down, memmove, word_above, words_between,
}
use chromium_ec.Util.Memory.Copy.{
  copied, copy_down-copied, copy_words_down-copied, copied-down_down,
}
use chromium_ec.Util.Memory.Up.{memcpy-copied}

move_head_bounds :
    (d s n : ℕ)
    → (move_head d s n ≤ d + n)
      × (d + 4 * words_between (word_above d) (move_head d s n) ≤ move_head d s n)
unfolding move_head
move_head_bounds d s n = ground arith

copied_cong :
    (n : ℕ) (m : Memory) (x d d' s s' : ℕ) → d ≡ d' → s ≡ s' → copied d s n m x ≡ copied d' s' n m x
copied_cong n m x d d' s s' p q = λ i. copied (p i) (q i) n m x

three_down :
    (d s a b c n : ℕ) (m : Memory) (x : ℕ)
    → a + 4 * b + c ≡ n
    → s ≤ d
    → copy_down c
        (d + n - (a + 4 * b))
        (s + n - (a + 4 * b))
        (copy_words_down b (d + n - a) (s + n - a) (copy_down a (d + n) (s + n) m))
        x
      ≡ copied d s n m x
three_down d s a b c n m x total h =
    let m1 : Memory = copy_down a (d + n) (s + n) m in
    let m2 : Memory = copy_words_down b (d + n - a) (s + n - a) m1 in
    let first : (y : ℕ) → m1 y ≡ copied (d + n - a) (s + n - a) a m y =
      λ y. copy_down-copied a (d + n) (s + n) m y (omega arith) (omega arith) in
    let second : (y : ℕ)
        → m2 y ≡ copied (d + n - (a + 4 * b)) (s + n - (a + 4 * b)) (a + 4 * b) m y =
      λ y.
        copy_words_down-copied b (d + n - a) (s + n - a) m1 y (omega arith) (omega arith)
        ∙ copied_cong (4 * b) m1 y (d + n - a - 4 * b) (d + n - (a + 4 * b)) (s + n - a - 4 * b)
            (s + n - (a + 4 * b)) (omega arith) (omega arith)
        ∙ copied-down_down (d + n) (s + n) a (4 * b) m m1 y (omega arith) (omega arith) first in
    copy_down-copied c (d + n - (a + 4 * b)) (s + n - (a + 4 * b)) m2 x (omega arith) (omega arith)
    ∙ copied_cong c m2 x (d + n - (a + 4 * b) - c) (d + n - (a + 4 * b + c))
        (s + n - (a + 4 * b) - c) (s + n - (a + 4 * b + c)) (omega arith) (omega arith)
    ∙ copied-down_down (d + n) (s + n) (a + 4 * b) c m m2 x (omega arith) (omega arith) second
    ∙ copied_cong (a + 4 * b + c) m x (d + n - (a + 4 * b + c)) d (s + n - (a + 4 * b + c)) s
        (omega arith) (omega arith)
    ∙ ap (λ k. copied d s k m x) total

move_down-copied : (d s n : ℕ) (m : Memory) (a : ℕ) → s ≤ d → move_down d s n m a ≡ copied d s n m a
unfolding move_down
move_down-copied d s n m a h =
    three_down d s (d + n - move_head d s n) (words_between (word_above d) (move_head d s n)) _ n m
      a (omega (arith, move_head_bounds d s n)) h

-- After memmove every byte of the destination is the byte that stood at its place of the source,
-- and no other byte has changed: however the two blocks overlap, whatever their alignment, and
-- wherever the copy by words begins and ends.
pub memmove-copied : (d s n : ℕ) (m : Memory) (a : ℕ) → memmove d s n m a ≡ copied d s n m a
unfolding memmove
memmove-copied d s n m a = elim (Bool-cases (leb d s || leb (s + n) d)) [
  | inl ahead ↦ rw (ahead, memmove) (memcpy-copied d s n m a (ground arith))
  | inr behind ↦ rw (behind, memmove) (move_down-copied d s n m a (ground arith))
]
