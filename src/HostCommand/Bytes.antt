-- ===== src/HostCommand/Bytes.antt =====
-- The loops of common/host_command.c over bytes: the sum of a list of bytes, and what is read.
use chromium_ec.Common.{
  ℕ, zero, suc, ◌+◌, ◌≡◌, refl, ap, ◌∙◌, Bool, true, false, List, [], ◌∷◌, ◌++◌, arith, length,
  take, drop, get_or, ◌<◌,
}
use chromium_ec.HostCommand.{sum_loop, copy_loop, fetch}

abbrev pub sum : List ℕ → ℕ
sum [] = 0
sum (x ∷ s) = x + sum s

pub sum_loop_lem :
    (n : ℕ) (s : List ℕ) (csum : ℕ) → sum_loop n s csum ≡ (csum + sum (take n s), drop n s)
unfolding sum_loop
sum_loop_lem zero s csum = ap (λ c. (c, s)) {y = csum + 0} (omega arith)
sum_loop_lem (suc n) [] csum = ap (λ c. (c, [])) {y = csum + 0} (omega arith)
sum_loop_lem (suc n) (x ∷ s) csum =
    sum_loop_lem n s (csum + x)
    ∙ ap (λ c. (c, drop n s)) {y = csum + (x + sum (take n s))} (omega arith)

pub copy_loop_lem :
    (n : ℕ) (s : List ℕ) (csum : ℕ)
    → copy_loop n s csum ≡ (take n s, csum + sum (take n s), drop n s)
unfolding copy_loop
copy_loop_lem zero s csum = ap (λ c. ([], c, s)) {y = csum + 0} (omega arith)
copy_loop_lem (suc n) [] csum = ap (λ c. ([], c, [])) {y = csum + 0} (omega arith)
copy_loop_lem (suc n) (x ∷ s) csum =
    rw (copy_loop_lem n s (csum + x))
      (ap (λ c. (x ∷ take n s, c, drop n s)) {y = csum + (x + sum (take n s))} (omega arith))

-- What either loop gives: the bytes it read are the first at the pointer it gives.
pub source : Bool → ℕ → List ℕ → List ℕ
source true n s = take n s
source false n s = s

pub fetch_lem :
    (temp : Bool) (n : ℕ) (s : List ℕ) (csum : ℕ)
    → fetch temp n s csum ≡ (source temp n s, csum + sum (take n s), drop n s)
unfolding fetch source
fetch_lem true n s csum = copy_loop_lem n s csum
fetch_lem false n s csum = ap (λ p. (s, p.0, p.1)) (sum_loop_lem n s csum)

take-take : (n : ℕ) (s : List ℕ) → take n (take n s) ≡ take n s
take-take zero s = refl
take-take (suc n) [] = refl
take-take (suc n) (x ∷ s) = ap (λ l. x ∷ l) (take-take n s)

pub take-source : (temp : Bool) (n : ℕ) (s : List ℕ) → take n (source temp n s) ≡ take n s
unfolding source
take-source true n s = take-take n s
take-source false n s = refl

pub get_or-take : (n i : ℕ) (s : List ℕ) → i < n → get_or (take n s) i 0 ≡ get_or s i 0
get_or-take zero i s h = elim h [ ]
get_or-take (suc n) i [] h = refl
get_or-take (suc n) zero (x ∷ s) h = refl
get_or-take (suc n) (suc i) (x ∷ s) h = get_or-take n i s (omega arith)

pub get_or-source :
    (temp : Bool) (n i : ℕ) (s : List ℕ) → i < n → get_or (source temp n s) i 0 ≡ get_or s i 0
unfolding source
get_or-source true n i s h = get_or-take n i s h
get_or-source false n i s h = refl

sum-take_nil : (n : ℕ) → sum (take n []) ≡ 0
sum-take_nil zero = refl
sum-take_nil (suc n) = refl

-- The sum of the first bytes in two parts.
pub sum-take_add :
    (n k : ℕ) (s : List ℕ) → sum (take n s) + sum (take k (drop n s)) ≡ sum (take (n + k) s)
sum-take_add zero k s = omega (arith, ap (λ m. sum (take m s)) {x = 0 + k} {y = k} (omega arith))
sum-take_add (suc n) k [] =
    omega (arith, sum-take_nil (suc n), sum-take_nil k, sum-take_nil (suc n + k))
sum-take_add (suc n) k (x ∷ s) = omega (
  arith,
  sum-take_add n k s,
  ap (λ m. sum (take m (x ∷ s))) {x = suc n + k} {y = suc (n + k)} (omega arith),
)

pub take-append_length : (s t : List ℕ) → (take (length s) (s ++ t) ≡ s)
take-append_length [] t = refl
take-append_length (x ∷ s) t = ap (λ l. x ∷ l) (take-append_length s t)
