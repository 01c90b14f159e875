-- ===== src/Thermal/Limits.antt =====
-- What a history of readings says of the limits of the sensors of common/thermal.c.
use chromium_ec.Common.{
  ℕ, ◌+◌, ◌≡◌, refl, ap, ap₂, ◌∙◌, Bool, not, ◌&&◌, ◌||◌, List, [], ◌∷◌, ltb, nonzero, Option, some,
  none, if◌then◌else◌,
}
use chromium_ec.Thermal.{Sensor, Locals, visit, visit_all}
use chromium_ec.Thermal.Hot.{any_over, all_under, any_read, hot}

-- One control changes no limit of a sensor.
pub SameLimits : List Sensor → List Sensor → Type 0
SameLimits [] [] = Unit
SameLimits [] (s ∷ ss) = ⊥
SameLimits (s ∷ ss) [] = ⊥
SameLimits (s ∷ ss) (s' ∷ ss') =
    (s'.warn ≡ s.warn) × (s'.high ≡ s.high) × (s'.halt ≡ s.halt) × SameLimits ss ss'

SameLimits-refl : (ss : List Sensor) → SameLimits ss ss
unfolding SameLimits
SameLimits-refl [] = tt
SameLimits-refl (s ∷ ss) = (refl, refl, refl, SameLimits-refl ss)

pub visit_all-SameLimits :
    (id : ℕ) (readings : List (Option ℕ)) (ss : List Sensor) (l : Locals)
    → SameLimits ss (visit_all id readings ss l).0
unfolding visit_all visit SameLimits
visit_all-SameLimits id readings [] l = tt
visit_all-SameLimits id [] (s ∷ ss) l = (refl, refl, refl, SameLimits-refl ss)
visit_all-SameLimits id (none ∷ rs) (s ∷ ss) l =
    (refl, refl, refl, visit_all-SameLimits (id + 1) rs ss l)
visit_all-SameLimits id (some t ∷ rs) (s ∷ ss) l =
    (refl, refl, refl, visit_all-SameLimits (id + 1) rs ss (visit id (some t) s l).1)

any_over-SameLimits :
    (rs : List (Option ℕ)) (ss ss' : List Sensor)
    → SameLimits ss ss'
    → (any_over (λ s. s.warn) rs ss' ≡ any_over (λ s. s.warn) rs ss)
      × (any_over (λ s. s.high) rs ss' ≡ any_over (λ s. s.high) rs ss)
      × (any_over (λ s. s.halt) rs ss' ≡ any_over (λ s. s.halt) rs ss)
unfolding SameLimits any_over
any_over-SameLimits rs [] [] h = (refl, refl, refl)
any_over-SameLimits rs [] (s ∷ ss) h = absurd h
any_over-SameLimits rs (s ∷ ss) [] h = absurd h
any_over-SameLimits [] (s ∷ ss) (s' ∷ ss') h = (refl, refl, refl)
any_over-SameLimits (none ∷ rs) (s ∷ ss) (s' ∷ ss') h = any_over-SameLimits rs ss ss' h.3
any_over-SameLimits (some t ∷ rs) (s ∷ ss) (s' ∷ ss') h =
    let (w, g, x) = any_over-SameLimits rs ss ss' h.3 in
    (
      ap₂ (λ k b. (nonzero k && ltb k t) || b) h.0 w,
      ap₂ (λ k b. (nonzero k && ltb k t) || b) h.1 g,
      ap₂ (λ k b. (nonzero k && ltb k t) || b) h.2 x,
    )

all_under-SameLimits :
    (rs : List (Option ℕ)) (ss ss' : List Sensor)
    → SameLimits ss ss'
    → (all_under (λ s. s.warn) rs ss' ≡ all_under (λ s. s.warn) rs ss)
      × (all_under (λ s. s.high) rs ss' ≡ all_under (λ s. s.high) rs ss)
      × (all_under (λ s. s.halt) rs ss' ≡ all_under (λ s. s.halt) rs ss)
unfolding SameLimits all_under
all_under-SameLimits rs [] [] h = (refl, refl, refl)
all_under-SameLimits rs [] (s ∷ ss) h = absurd h
all_under-SameLimits rs (s ∷ ss) [] h = absurd h
all_under-SameLimits [] (s ∷ ss) (s' ∷ ss') h = (refl, refl, refl)
all_under-SameLimits (none ∷ rs) (s ∷ ss) (s' ∷ ss') h = all_under-SameLimits rs ss ss' h.3
all_under-SameLimits (some t ∷ rs) (s ∷ ss) (s' ∷ ss') h =
    let (w, g, x) = all_under-SameLimits rs ss ss' h.3 in
    (
      ap₂ (λ k b. (not (nonzero k) || ltb t k) && b) h.0 w,
      ap₂ (λ k b. (not (nonzero k) || ltb t k) && b) h.1 g,
      ap₂ (λ k b. (not (nonzero k) || ltb t k) && b) h.2 x,
    )

any_read-SameLimits :
    (rs : List (Option ℕ)) (ss ss' : List Sensor)
    → SameLimits ss ss'
    → any_read rs ss' ≡ any_read rs ss
unfolding SameLimits any_read
any_read-SameLimits rs [] [] h = refl
any_read-SameLimits rs [] (s ∷ ss) h = absurd h
any_read-SameLimits rs (s ∷ ss) [] h = absurd h
any_read-SameLimits [] (s ∷ ss) (s' ∷ ss') h = refl
any_read-SameLimits (none ∷ rs) (s ∷ ss) (s' ∷ ss') h = any_read-SameLimits rs ss ss' h.3
any_read-SameLimits (some t ∷ rs) (s ∷ ss) (s' ∷ ss') h = refl

-- Whether a limit is exceeded after a control.
abbrev pub hot_next : (Sensor → ℕ) → List Sensor → List (Option ℕ) → Bool → Bool
hot_next limit sensors readings before =
    if any_read readings sensors then hot limit readings sensors before else before

-- After a sequence of controls, and how often it has come to be.
module _ (limit : Sensor → ℕ) (sensors : List Sensor) where
  unfoldable pub hot_after : List (List (Option ℕ)) → Bool → Bool
  hot_after [] before = before
  hot_after (r ∷ rs) before = hot_after rs (hot_next limit sensors r before)

  unfoldable pub rises : List (List (Option ℕ)) → Bool → ℕ
  rises [] before = 0
  rises (r ∷ rs) before =
      let now = hot_next limit sensors r before in
      (if now && not before then 1 else 0) + rises rs now

pub hot_next-SameLimits :
    (rs : List (Option ℕ)) (ss ss' : List Sensor) (b : Bool)
    → SameLimits ss ss'
    → (hot_next (λ s. s.warn) ss' rs b ≡ hot_next (λ s. s.warn) ss rs b)
      × (hot_next (λ s. s.high) ss' rs b ≡ hot_next (λ s. s.high) ss rs b)
      × (hot_next (λ s. s.halt) ss' rs b ≡ hot_next (λ s. s.halt) ss rs b)
unfolding hot
hot_next-SameLimits rs ss ss' b h =
    let (w, g, x) = any_over-SameLimits rs ss ss' h in
    let (w', g', x') = all_under-SameLimits rs ss ss' h in
    let r = any_read-SameLimits rs ss ss' h in
    (
      (λ i. if r i then w i || (b && not (w' i)) else b),
      (λ i. if r i then g i || (b && not (g' i)) else b),
      (λ i. if r i then x i || (b && not (x' i)) else b),
    )

pub hot_after-SameLimits :
    (history : List (List (Option ℕ))) (ss ss' : List Sensor) (b : Bool)
    → SameLimits ss ss'
    → (hot_after (λ s. s.warn) ss' history b ≡ hot_after (λ s. s.warn) ss history b)
      × (hot_after (λ s. s.high) ss' history b ≡ hot_after (λ s. s.high) ss history b)
      × (hot_after (λ s. s.halt) ss' history b ≡ hot_after (λ s. s.halt) ss history b)
      × (rises (λ s. s.halt) ss' history b ≡ rises (λ s. s.halt) ss history b)
unfolding hot_after rises
hot_after-SameLimits [] ss ss' b h = (refl, refl, refl, refl)
hot_after-SameLimits (rs ∷ history) ss ss' b h =
    let (w, g, x) = hot_next-SameLimits rs ss ss' b h in
    (
      ap (hot_after (λ s. s.warn) ss' history) w
          ∙ (hot_after-SameLimits history ss ss' (hot_next (λ s. s.warn) ss rs b) h).0,
      ap (hot_after (λ s. s.high) ss' history) g
          ∙ (hot_after-SameLimits history ss ss' (hot_next (λ s. s.high) ss rs b) h).1,
      ap (hot_after (λ s. s.halt) ss' history) x
          ∙ (hot_after-SameLimits history ss ss' (hot_next (λ s. s.halt) ss rs b) h).2,
      ap (λ now. (if now && not b then 1 else 0) + rises (λ s. s.halt) ss' history now) x
          ∙ ap (λ n. (if hot_next (λ s. s.halt) ss rs b && not b then 1 else 0) + n)
              (hot_after-SameLimits history ss ss' (hot_next (λ s. s.halt) ss rs b) h).3,
    )
