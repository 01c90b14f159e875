-- ===== src/Util/Text/Compare.antt =====
-- What the comparisons and the copy of strings in common/util.c decide and write.
use chromium_ec.Common.{
  ℕ, zero, suc, ◌^◌, ◌<◌, ◌≤◌, ◌≡◌, ◌↔◌, refl, ap, ap₂, ◌==◌, if◌then◌else◌, List, [], ◌∷◌, ◌++◌,
  map, arith, length, take,
}
use chromium_ec.Util.Text.{tolower, int_sub, strcasecmp, strncasecmp, memcmp, strzcpy}

-- The bytes of a string.
abbrev pub IsText : List ℕ → Type 0
IsText [] = Unit
IsText (c ∷ s) = (0 < c) × (c < 256) × IsText s

cons_head : {a b : ℕ} {s t : List ℕ} → a ∷ s ≡ b ∷ t → a ≡ b
cons_head e = ground arith

cons_tail : {a b : ℕ} {s t : List ℕ} → a ∷ s ≡ b ∷ t → s ≡ t
cons_tail e = ground arith

int_sub-zero : (a b : ℕ) → a < 2 ^ 32 → b < 2 ^ 32 → int_sub a b ≡ 0 → a ≡ b
int_sub-zero a b ha hb h = omega arith

tolower-lt : (c : ℕ) → c < 256 → tolower c < 2 ^ 32
tolower-lt c h = ground arith

tolower-pos : (c : ℕ) → 0 < c → 0 < tolower c
tolower-pos c h = ground arith

int_sub_self : (a : ℕ) → a < 2 ^ 32 → int_sub a a ≡ 0
int_sub_self a h = omega arith

-- One round of a comparison, at its two bytes.
module _ (a b x : ℕ) (ha : a < 2 ^ 32) (hb : b < 2 ^ 32) where
  round_equal : (if int_sub a b == 0 then x else int_sub a b) ≡ 0 → (a ≡ b) × (x ≡ 0)
  round_equal h = ground arith

  round_zero : a ≡ b → x ≡ 0 → (if int_sub a b == 0 then x else int_sub a b) ≡ 0
  round_zero e z = ground arith

-- Two strings compare as equal by strcasecmp exactly when they are equal but for the case of their
-- letters.
pub strcasecmp-zero :
    (s t : List ℕ) → IsText s → IsText t → (strcasecmp s t ≡ 0) ↔ (map tolower s ≡ map tolower t)
unfolding strcasecmp
strcasecmp-zero [] [] hs ht = (λ e. refl, λ e. refl)
strcasecmp-zero [] (d ∷ t) hs ht =
    (λ e. absurd (omega (arith, tolower-pos d ht.0, tolower-lt d ht.1)), λ e. cc)
strcasecmp-zero (c ∷ s) [] hs ht =
    (λ e. absurd (omega (arith, tolower-pos c hs.0, tolower-lt c hs.1)), λ e. cc)
strcasecmp-zero (c ∷ s) (d ∷ t) hs ht =
    let (to, from) = strcasecmp-zero s t hs.2 ht.2 in
    let hc = tolower-lt c hs.1 in
    let hd = tolower-lt d ht.1 in
    (
      λ e.
          let (same, rest) = round_equal (tolower c) (tolower d) (strcasecmp s t) hc hd e in
          ap₂ ◌∷◌ same (to rest),
      λ e.
          round_zero (tolower c) (tolower d) (strcasecmp s t) hc hd (cons_head e)
            (from (cons_tail e)),
    )

-- strncasecmp compares no more than the first `size` characters in this way.
pub strncasecmp-zero :
    (s t : List ℕ) (size : ℕ)
    → IsText s
    → IsText t
    → (strncasecmp s t size ≡ 0) ↔ (map tolower (take size s) ≡ map tolower (take size t))
unfolding strncasecmp
strncasecmp-zero s t zero hs ht = (λ e. refl, λ e. refl)
strncasecmp-zero [] [] (suc n) hs ht = (λ e. refl, λ e. refl)
strncasecmp-zero [] (d ∷ t) (suc n) hs ht =
    (λ e. absurd (omega (arith, tolower-pos d ht.0, tolower-lt d ht.1)), λ e. cc)
strncasecmp-zero (c ∷ s) [] (suc n) hs ht =
    (λ e. absurd (omega (arith, tolower-pos c hs.0, tolower-lt c hs.1)), λ e. cc)
strncasecmp-zero (c ∷ s) (d ∷ t) (suc n) hs ht =
    let (to, from) = strncasecmp-zero s t n hs.2 ht.2 in
    let hc = tolower-lt c hs.1 in
    let hd = tolower-lt d ht.1 in
    (
      λ e.
          let (same, rest) = round_equal (tolower c) (tolower d) (strncasecmp s t n) hc hd e in
          ap₂ ◌∷◌ same (to rest),
      λ e.
          round_zero (tolower c) (tolower d) (strncasecmp s t n) hc hd (cons_head e)
            (from (cons_tail e)),
    )

abbrev pub AreBytes : List ℕ → Type 0
AreBytes [] = Unit
AreBytes (c ∷ s) = (c < 256) × AreBytes s

-- memcmp returns 0 exactly when the first `len` bytes at the two pointers are the same, where there
-- are that many.
pub memcmp-zero :
    (s t : List ℕ) (len : ℕ)
    → AreBytes s
    → AreBytes t
    → len ≤ length s
    → len ≤ length t
    → (memcmp s t len ≡ 0) ↔ (take len s ≡ take len t)
unfolding memcmp
memcmp-zero s t zero hs ht ls lt = (λ e. refl, λ e. refl)
memcmp-zero [] t (suc n) hs ht ls lt = absurd (omega arith)
memcmp-zero (c ∷ s) [] (suc n) hs ht ls lt = absurd (omega arith)
memcmp-zero (c ∷ s) (d ∷ t) (suc n) hs ht ls lt =
    let (to, from) = memcmp-zero s t n hs.1 ht.1 (omega arith) (omega arith) in
    (
      λ e.
          let (same, rest) = round_equal c d (memcmp s t n) (omega arith) (omega arith) e in
          ap₂ ◌∷◌ same (to rest),
      λ e.
          round_zero c d (memcmp s t n) (omega arith) (omega arith) (cons_head e)
            (from (cons_tail e)),
    )

-- With room for one byte more than `room`, strzcpy writes the longest prefix of the source of at
-- most `room` characters, and then the NUL: never more bytes than there is room for.
pub strzcpy-prefix :
    (s : List ℕ) (room : ℕ)
    → (strzcpy s (suc room) ≡ take room s ++ (0 ∷ [])) × (length (strzcpy s (suc room)) ≤ suc room)
unfolding strzcpy
strzcpy-prefix s zero = (refl, omega arith)
strzcpy-prefix [] (suc n) = (refl, omega arith)
strzcpy-prefix (c ∷ s) (suc n) = let (e, l) = strzcpy-prefix s n in (ap (λ t. c ∷ t) e, omega arith)
