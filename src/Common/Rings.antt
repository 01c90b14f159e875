-- ===== src/Common/Rings.antt =====
-- Ring buffers: the elements that lie from one index of an array round to another.
use native.Mathlib.Nat.{mod-eq_of_lt, mod-eq-sub-mod}
use Prim.Native.Nat.{ℕ, zero, suc, ◌+◌, ◌-◌, ◌%◌, ◌<◌}
use mathlib.Core.Path.{◌≡◌, refl, ap, ap₂}
use mathlib.Core.List.{List, [], ◌∷◌, ◌++◌}
use native.Mathlib.Omega.{arith}
use native.Mathlib.Decide.{dec_lt}
use chromium_ec.Common.Tests.{ltb, if◌then◌else◌}
use chromium_ec.Common.Lists.{length, get_or, set, get_or-set_self, get_or-set_ne}

-- The next index round the buffer.
pub step_index : (size i : ℕ) → i < size → (i + 1) % size ≡ (if ltb (i + 1) size then i + 1 else 0)
step_index size i h = elim (dec_lt (i + 1) size) [
  | yes p ↦ ground (arith, mod-eq_of_lt p)
  | no p ↦ ground (
    arith,
    mod-eq-sub-mod {n = i + 1} {m = size} (omega arith),
    mod-eq_of_lt {n = 0} {m = size} (omega arith),
  )
]

-- How many elements lie from `h` round to `t`.
abbrev pub gap : ℕ → ℕ → ℕ → ℕ
gap size h t = if ltb t h then t + size - h else t - h

module _ {ℓ} {A : Type ℓ} (d : A) where
  -- The `n` elements from index `h` on, round a buffer of `size` elements.
  abbrev pub run_from : List A → ℕ → ℕ → ℕ → List A
  run_from buf size h zero = []
  run_from buf size h (suc n) = get_or buf h d ∷ run_from buf size ((h + 1) % size) n

  pub length-run_from : (buf : List A) (size h n : ℕ) → length (run_from buf size h n) ≡ n
  length-run_from buf size h zero = refl
  length-run_from buf size h (suc n) = ap suc (length-run_from buf size ((h + 1) % size) n)

  -- A write at the index just past a run extends the run by that element.
  pub run_from-set :
      (buf : List A) (size t : ℕ) (x : A) (n h : ℕ)
      → length buf ≡ size
      → h < size
      → t < size
      → n ≡ gap size h t
      → run_from (set buf t x) size h (suc n) ≡ run_from buf size h n ++ (x ∷ [])
  run_from-set buf size t x zero h len hh ht e =
      let at : h ≡ t = ground arith in rw (at, get_or-set_self buf t x d (omega arith))
  run_from-set buf size t x (suc n) h len hh ht e =
      ap₂ ◌∷◌ (get_or-set_ne buf t h x d (ground arith)) (
        run_from-set buf size t x n ((h + 1) % size) len (ground (arith, step_index size h hh)) ht
          (ground (arith, step_index size h hh)))

  -- The function matches on the number of elements, the code tests the indices.
  pub run_from-pos :
      (buf : List A) (size h n : ℕ)
      → 0 < n
      → run_from buf size h n ≡ get_or buf h d ∷ run_from buf size ((h + 1) % size) (n - 1)
  run_from-pos buf size h zero p = elim p [ ]
  run_from-pos buf size h (suc n) p = ap (λ k. run_from buf size h (suc k)) (omega arith)
