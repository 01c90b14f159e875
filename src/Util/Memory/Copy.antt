-- ===== src/Util/Memory/Copy.antt =====
-- The copy that memcpy and memmove of common/util.c stand for: every byte of the destination gets
-- the byte that stood at its place of the source, and every other byte stays.
use chromium_ec.Common.{
  ℕ, zero, suc, ◌+◌, ◌-◌, ◌*◌, ◌≤◌, ◌≡◌, ◌⊎◌, ◌&&◌, ltb, leb, if◌then◌else◌, arith,
}
use chromium_ec.Util.Memory.{
  Memory, store, store_word, copy_up, copy_words_up, copy_down, copy_words_down,
}

abbrev pub copied : ℕ → ℕ → ℕ → Memory → Memory
copied dest src len m = λ a. if leb dest a && ltb a (dest + len) then m (src + (a - dest)) else m a

-- A copy upwards may not write what it still has to read.
abbrev pub IsAhead : ℕ → ℕ → ℕ → Type 0
IsAhead d s n = (d ≤ s) ⊎ (s + n ≤ d)

pub copy_up-copied :
    (n d s : ℕ) (m : Memory) (a : ℕ) → IsAhead d s n → copy_up n d s m a ≡ copied d s n m a
unfolding copy_up
copy_up-copied zero d s m a h = ground arith
copy_up-copied (suc n) d s m a h =
    ground (arith, copy_up-copied n (d + 1) (s + 1) (store d (m s) m) a)

pub copy_words_up-copied :
    (n d s : ℕ) (m : Memory) (a : ℕ)
    → IsAhead d s (4 * n)
    → copy_words_up n d s m a ≡ copied d s (4 * n) m a
unfolding copy_words_up
copy_words_up-copied zero d s m a h = ground arith
copy_words_up-copied (suc n) d s m a h = ground (
  arith,
  copy_words_up-copied n (d + 4) (s + 4) (store_word d (m s) (m (s + 1)) (m (s + 2)) (m (s + 3)) m)
      a,
)

-- Two copies upwards, one after the other, are one copy.
pub copied-up_up :
    (d s a b : ℕ) (m m' : Memory) (x : ℕ)
    → IsAhead d s (a + b)
    → ((y : ℕ) → m' y ≡ copied d s a m y)
    → copied (d + a) (s + a) b m' x ≡ copied d s (a + b) m x
copied-up_up d s a b m m' x h e = ground (arith, e x, e (s + a + (x - (d + a))))

-- A copy downwards of `n` bytes ends at `d` and `s`, and its source is not above its destination.
pub copy_down-copied :
    (n d s : ℕ) (m : Memory) (a : ℕ)
    → n ≤ s
    → s ≤ d
    → copy_down n d s m a ≡ copied (d - n) (s - n) n m a
unfolding copy_down
copy_down-copied zero d s m a p q = ground arith
copy_down-copied (suc n) d s m a p q =
    ground (arith, copy_down-copied n (d - 1) (s - 1) (store (d - 1) (m (s - 1)) m) a)

pub copy_words_down-copied :
    (n d s : ℕ) (m : Memory) (a : ℕ)
    → 4 * n ≤ s
    → s ≤ d
    → copy_words_down n d s m a ≡ copied (d - 4 * n) (s - 4 * n) (4 * n) m a
unfolding copy_words_down
copy_words_down-copied zero d s m a p q = ground arith
copy_words_down-copied (suc n) d s m a p q = ground (
  arith,
  copy_words_down-copied n (d - 4) (s - 4)
      (store_word (d - 4) (m (s - 4)) (m (s - 4 + 1)) (m (s - 4 + 2)) (m (s - 4 + 3)) m) a,
)

-- Two copies downwards, the upper block first, are one copy.
pub copied-down_down :
    (d s a b : ℕ) (m m' : Memory) (x : ℕ)
    → a + b ≤ s
    → s ≤ d
    → ((y : ℕ) → m' y ≡ copied (d - a) (s - a) a m y)
    → copied (d - (a + b)) (s - (a + b)) b m' x ≡ copied (d - (a + b)) (s - (a + b)) (a + b) m x
copied-down_down d s a b m m' x p q e = ground (arith, e x, e (s - (a + b) + (x - (d - (a + b)))))
