-- ===== src/Util/Memory/Fill.antt =====
-- memset of common/util.c fills, by bytes and by words.
use chromium_ec.Common.{
  Bool, ℕ, zero, suc, ◌+◌, ◌-◌, ◌*◌, ◌%◌, ◌≤◌, ◌<◌, ◌≡◌, refl, ◌∙◌, true, ◌&&◌, arith, ltb, leb,
  ◌==◌, if◌then◌else◌, passes_under, passes_under-lt,
}
use chromium_ec.Util.Memory.{
  Memory, store, store_word, fill, fill_words, cccc, byte_of, fill_head, memset, word_below,
  words_between,
}

abbrev pub filled : ℕ → ℕ → ℕ → Memory → Memory
filled dest c len m = λ a. if leb dest a && ltb a (dest + len) then c else m a

-- Every byte of the word that memset stores is the byte that it fills with.
same_bytes : ℕ → Bool
same_bytes c =
    byte_of (cccc c) 0 == c
    && (byte_of (cccc c) 1 == c && (byte_of (cccc c) 2 == c && byte_of (cccc c) 3 == c))

same_bytes_table : passes_under same_bytes 256 ≡ true
unfolding passes_under same_bytes cccc
same_bytes_table = refl

cccc-bytes :
    (c : ℕ)
    → c < 256
    → (byte_of (cccc c) 0 ≡ c)
      × (byte_of (cccc c) 1 ≡ c)
      × (byte_of (cccc c) 2 ≡ c)
      × (byte_of (cccc c) 3 ≡ c)
unfolding same_bytes
cccc-bytes c h = ground (arith, passes_under-lt same_bytes 256 c h same_bytes_table)

fill-filled : (n d c : ℕ) (m : Memory) (a : ℕ) → fill n d c m a ≡ filled d c n m a
unfolding fill
fill-filled zero d c m a = ground arith
fill-filled (suc n) d c m a = ground (arith, fill-filled n (d + 1) c (store d c m) a)

fill_words-filled :
    (n d c : ℕ) (m : Memory) (a : ℕ)
    → c < 256
    → fill_words n d (cccc c) m a ≡ filled d c (4 * n) m a
unfolding fill_words
fill_words-filled zero d c m a h = ground arith
fill_words-filled (suc n) d c m a h =
    let w = cccc c in
    fill_words-filled n (d + 4) c
      (store_word d (byte_of w 0) (byte_of w 1) (byte_of w 2) (byte_of w 3) m) a h
    ∙ ground (arith, cccc-bytes c h)

fill_head_bounds :
    (d n : ℕ)
    → (d ≤ fill_head d n)
      × (fill_head d n + 4 * words_between (fill_head d n) (word_below (d + n)) ≤ d + n)
unfolding fill_head
fill_head_bounds d n = ground arith

three_fills :
    (d c i j k n : ℕ) (m : Memory) (a : ℕ)
    → i + 4 * j + k ≡ n
    → c < 256
    → fill k (d + (i + 4 * j)) c (fill_words j (d + i) (cccc c) (fill i d c m)) a ≡ filled d c n m a
three_fills d c i j k n m a total h =
    let m1 : Memory = fill i d c m in
    let m2 : Memory = fill_words j (d + i) (cccc c) m1 in
    fill-filled k (d + (i + 4 * j)) c m2 a
    ∙ ground (arith, fill_words-filled j (d + i) c m1 a h, fill-filled i d c m a)

-- After memset every byte of the block is the low byte of `c`, and no other byte has changed:
-- whatever the alignment, and wherever the fill by words begins and ends.
pub memset-filled : (d c n : ℕ) (m : Memory) (a : ℕ) → memset d c n m a ≡ filled d (c % 256) n m a
unfolding memset
memset-filled d c n m a =
    three_fills d (c % 256) (fill_head d n - d) (words_between (fill_head d n) (word_below (d + n)))
      _ n m a (omega (arith, fill_head_bounds d n)) (omega arith)
