-- ===== src/Port80/History.antt =====
-- What the ring of common/port80.c remembers of a sequence of codes.
use mathlib.Core.List.{append_assoc, append-nil}
use chromium_ec.Common.{
  subst, ℕ, zero, suc, ◌+◌, ◌-◌, ◌%◌, ◌^◌, ◌≡◌, ◌≤◌, ◌<◌, refl, ap, ap₂, ◌∙◌, sym, List, [], ◌∷◌,
  ◌++◌, arith, length, length-append, drop, get_or, set, length-set, get_or-set_self, get_or-set_ne,
  ltb, if◌then◌else◌, ℕ_discrete, nonzero, true,
}
use chromium_ec.Port80.{Port80, write, flush, list_from, listed}

-- The ring holds the last 256 of the codes.
pub record Remembers (codes : List ℕ) (s : Port80) : Type 0 where
  pub storage : length s.history ≡ 256
  pub writes_is : s.writes ≡ length codes
  pub kept :
      (k : ℕ) → k < s.writes → s.writes ≤ k + 256 → get_or s.history (k % 256) 0 ≡ get_or codes k 0

get_or-append_left :
    (cs ds : List ℕ) (k : ℕ) → k < length cs → get_or (cs ++ ds) k 0 ≡ get_or cs k 0
get_or-append_left [] ds k h = elim h [ ]
get_or-append_left (c ∷ cs) ds zero h = refl
get_or-append_left (c ∷ cs) ds (suc k) h = get_or-append_left cs ds k (omega arith)

get_or-append_length : (cs : List ℕ) (d k : ℕ) → k ≡ length cs → get_or (cs ++ (d ∷ [])) k 0 ≡ d
get_or-append_length [] d zero h = refl
get_or-append_length [] d (suc k) h = absurd (omega arith)
get_or-append_length (c ∷ cs) d zero h = absurd (omega arith)
get_or-append_length (c ∷ cs) d (suc k) h = get_or-append_length cs d k (omega arith)

drop-get_or : (i : ℕ) (cs : List ℕ) → i < length cs → drop i cs ≡ get_or cs i 0 ∷ drop (i + 1) cs
drop-get_or i [] h = elim h [ ]
drop-get_or zero (c ∷ cs) h = ap (λ k. drop k (c ∷ cs)) {x = 0} refl
drop-get_or (suc i) (c ∷ cs) h =
    drop-get_or i cs (omega arith)
    ∙ ap (λ k. get_or cs i 0 ∷ drop k (c ∷ cs)) {x = suc (i + 1)} {y = suc i + 1} (omega arith)

drop-length : (i : ℕ) (cs : List ℕ) → i ≡ length cs → drop i cs ≡ []
drop-length zero [] h = refl
drop-length (suc i) [] h = refl
drop-length zero (c ∷ cs) h = absurd (omega arith)
drop-length (suc i) (c ∷ cs) h = drop-length i cs (omega arith)

write-Remembers :
    (code : ℕ) {codes : List ℕ} {s : Port80}
    → Remembers codes s
    → Remembers (codes ++ (code % 2 ^ 16 ∷ [])) (write code s)
unfolding write
write-Remembers code {codes} {s} r = record {
  storage = length-set s.history (s.writes % 256) (code % 2 ^ 16) ∙ r.storage;
  writes_is = omega (arith, r.writes_is, length-append codes (code % 2 ^ 16 ∷ []));
  kept = λ k lo hi. elim (ℕ_discrete k s.writes) [
    | yes same ↦
        ap (λ j. get_or (set s.history (s.writes % 256) (code % 2 ^ 16)) (j % 256) 0) same
        ∙ get_or-set_self s.history (s.writes % 256) (code % 2 ^ 16) 0 (omega (arith, r.storage))
        ∙ sym (get_or-append_length codes (code % 2 ^ 16) k (omega (arith, same, r.writes_is)))
    | no differ ↦
        get_or-set_ne s.history (s.writes % 256) (k % 256) (code % 2 ^ 16) 0
          (λ e. omega (arith, e, lo, hi, differ))
        ∙ r.kept k (omega (arith, lo, differ)) (omega (arith, hi))
        ∙ sym (
            get_or-append_left codes (code % 2 ^ 16 ∷ []) k
              (omega (arith, lo, differ, r.writes_is)))
  ];
}

list_from-Remembers :
    {codes : List ℕ} {s : Port80} (count i : ℕ)
    → Remembers codes s
    → i + count ≡ s.writes
    → s.writes ≤ i + 256
    → list_from s.history count i ≡ drop i codes
unfolding list_from
list_from-Remembers {codes} zero i r e h = sym (drop-length i codes (omega (arith, e, r.writes_is)))
list_from-Remembers {codes} {s} (suc count) i r e h =
    ap₂ ◌∷◌ (r.kept i (omega (arith, e)) h)
      (list_from-Remembers count (i + 1) r (omega (arith, e)) (omega (arith, h)))
    ∙ sym (drop-get_or i codes (omega (arith, e, r.writes_is)))

-- The writes of the host.
pub write_all : List ℕ → Port80 → Port80
write_all [] s = s
write_all (c ∷ cs) s = write_all cs (write c s)

abbrev pub as_words : List ℕ → List ℕ
as_words [] = []
as_words (c ∷ cs) = c % 2 ^ 16 ∷ as_words cs

write_all-Remembers :
    (cs : List ℕ) {codes : List ℕ} {s : Port80}
    → Remembers codes s
    → Remembers (codes ++ as_words cs) (write_all cs s)
unfolding write_all
write_all-Remembers [] {codes} {s} r = subst (λ l. Remembers l s) (sym (append-nil codes)) r
write_all-Remembers (c ∷ cs) {codes} {s} r =
    subst (λ l. Remembers l (write_all cs (write c s)))
      (append_assoc codes (c % 2 ^ 16 ∷ []) (as_words cs))
      (write_all-Remembers cs (write-Remembers c r))

flush-Remembers : (s : Port80) → length s.history ≡ 256 → Remembers [] (flush s)
unfolding flush
flush-Remembers s h = record {
  storage = h;
  writes_is = refl;
  kept = λ k lo hi. absurd (omega (arith, lo));
}

-- After a flush and any writes, `port80` lists the last 256 of the codes written, or all if there
-- are fewer, as 16-bit words and in the order they were written.
pub listed-write_all :
    (cs : List ℕ) (s : Port80)
    → length s.history ≡ 256
    → listed (write_all cs (flush s)) ≡ drop (length (as_words cs) - 256) (as_words cs)
unfolding listed
listed-write_all cs s h =
    let end = write_all cs (flush s) in
    let tail = if ltb 256 end.writes then end.writes - 256 else 0 in
    let r : Remembers (as_words cs) end = write_all-Remembers cs (flush-Remembers s h) in
    list_from-Remembers (end.writes - tail) tail r (ground arith) (ground arith)
    ∙ ap (λ k. drop k (as_words cs)) (ground (arith, r.writes_is))

-- When the host resets after a code `c`, the last code of the boot becomes `c` as a 16-bit word if
-- that is below 0x100, and else stays what it was before the reset.
pub write-last_boot :
    (c : ℕ) (s : Port80)
    → length s.history ≡ 256
    → (write 0x1002 (write c s)).last_boot
      ≡ (if ltb (c % 2 ^ 16) 0x100 then c % 2 ^ 16 else (write c s).last_boot)
unfolding write
write-last_boot c s h =
    let at : (s.writes + 1 - 1) % 256 ≡ s.writes % 256 = omega arith in
    let prev : get_or (set s.history (s.writes % 256) (c % 2 ^ 16)) ((s.writes + 1 - 1) % 256) 0
        ≡ c % 2 ^ 16 =
      ap (λ i. get_or (set s.history (s.writes % 256) (c % 2 ^ 16)) i 0) at
      ∙ get_or-set_self s.history (s.writes % 256) (c % 2 ^ 16) 0 (omega (arith, h)) in
    let wrote : nonzero (s.writes + 1) ≡ true = ground arith in rw (wrote, prev) refl
