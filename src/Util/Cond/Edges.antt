-- ===== src/Util/Cond/Edges.antt =====
-- A stateful condition of common/util.c reports each edge once.
use chromium_ec.Common.{
  ℕ, ◌/◌, ◌<◌, ◌≡◌, refl, ◌∙◌, ap, ap₂, Bool, true, false, not, ◌&&◌, ◌||◌, ◌==◌, if◌then◌else◌,
  List, [], ◌∷◌, arith, passes_under, passes_under-lt,
}
use chromium_ec.Util.Cond.{
  curr_mask, rise_mask, fall_mask, is, mark_edge, set, went, Op, assign, ask, poll, run, has_bits,
}

-- The specification: the value, and whether an edge up or down waits to be told.
pub record Condition : Type 0 where
  pub value : Bool
  pub risen : Bool
  pub fallen : Bool

pub spec_set : Bool → Condition → Condition
spec_set true s = record { value = true; risen = s.risen || not s.value; fallen = s.fallen }
spec_set false s = record { value = false; risen = s.risen; fallen = s.fallen || s.value }

pub spec_run : Condition → List Op → List Bool
spec_run s [] = []
spec_run s (assign val ∷ ops) = spec_run (spec_set val s) ops
spec_run s (ask val ∷ ops) = (if val then s.value else not s.value) ∷ spec_run s ops
spec_run s (poll true ∷ ops) = s.risen ∷ spec_run (record s { risen = false }) ops
spec_run s (poll false ∷ ops) = s.fallen ∷ spec_run (record s { fallen = false }) ops

abbrev pub view : ℕ → Condition
view c = record {
  value = has_bits c curr_mask;
  risen = has_bits c rise_mask;
  fallen = has_bits c fall_mask;
}

abbrev same_bool : Bool → Bool → Bool
same_bool true b = b
same_bool false b = not b

abbrev same : Condition → Condition → Bool
same s t = same_bool s.value t.value && (same_bool s.risen t.risen && same_bool s.fallen t.fallen)

same_sound : (s t : Condition) → same s t ≡ true → s ≡ t
same_sound s t h = ground arith

-- A condition has eight values, and each operation is checked on all of them.
set_agrees : Bool → ℕ → Bool
set_agrees v c = same (view (set c v)) (spec_set v (view c)) && (set c v / 8 == 0)

poll_agrees : ℕ → Bool
poll_agrees c =
    same (view (went c true).1) (record (view c) { risen = false })
    && (same (view (went c false).1) (record (view c) { fallen = false })
        && ((went c true).1 / 8 == 0 && (went c false).1 / 8 == 0))

set_table : (v : Bool) → passes_under (set_agrees v) 8 ≡ true
unfolding passes_under set_agrees set mark_edge is spec_set
set_table true = refl
set_table false = refl

poll_table : passes_under poll_agrees 8 ≡ true
unfolding passes_under poll_agrees went
poll_table = refl

and_parts : (a b : Bool) → (a && b) ≡ true → (a ≡ true) × (b ≡ true)
and_parts a b h = ground arith

set-view : (v : Bool) (c : ℕ) → c < 8 → (view (set c v) ≡ spec_set v (view c)) × (set c v < 8)
unfolding set_agrees
set-view v c h =
    let (eq, lt) = and_parts _ _ (passes_under-lt (set_agrees v) 8 c h (set_table v)) in
    (same_sound (view (set c v)) (spec_set v (view c)) eq, ground arith)

went-view :
    (c : ℕ)
    → c < 8
    → (view (went c true).1 ≡ record (view c) { risen = false })
      × (view (went c false).1 ≡ record (view c) { fallen = false })
      × ((went c true).1 < 8)
      × ((went c false).1 < 8)
unfolding poll_agrees
went-view c h =
    let (up, rest) = and_parts _ _ (passes_under-lt poll_agrees 8 c h poll_table) in
    let (down, lt) = and_parts _ _ rest in
    (
      same_sound (view (went c true).1) (record (view c) { risen = false }) up,
      same_sound (view (went c false).1) (record (view c) { fallen = false }) down,
      ground arith,
      ground arith,
    )

-- On a condition in one of its eight values, any sequence of `cond_set`, `cond_is` and `cond_went`
-- calls returns what the specification returns: the last value set, and for each direction whether
-- the value has gone that way since the client last asked, each edge being told once.
pub run-edges : (ops : List Op) (c : ℕ) → c < 8 → run c ops ≡ spec_run (view c) ops
unfolding run spec_run
run-edges [] c h = refl
run-edges (assign v ∷ ops) c h =
    let (eq, lt) = set-view v c h in run-edges ops (set c v) lt ∙ ap (λ s. spec_run s ops) eq
run-edges (ask v ∷ ops) c h = ap₂ ◌∷◌ (unfold is in refl) (run-edges ops c h)
run-edges (poll true ∷ ops) c h =
    let (up, down, lt, lt') = went-view c h in
    ap₂ ◌∷◌ (unfold went in refl) (run-edges ops (went c true).1 lt ∙ ap (λ s. spec_run s ops) up)
run-edges (poll false ∷ ops) c h =
    let (up, down, lt, lt') = went-view c h in
    ap₂ ◌∷◌ (unfold went in refl)
      (run-edges ops (went c false).1 lt' ∙ ap (λ s. spec_run s ops) down)
