-- ===== src/Button/Schedule.antt =====
-- The debouncing of common/button.c, and that no button is forgotten.
use chromium_ec.Common.{
  ℕ, ◌-◌, ◌≡◌, ◌≤◌, ◌<◌, refl, subst, Bool, not, List, [], ◌∷◌, some, none, arith, leb, ◌==◌,
  if◌then◌else◌, Bool-cases, inl, inr, ◌⊎◌,
}
use chromium_ec.Button.{
  Button, Buttons, raw_button_pressed, change_entry, change_entries, change_deferred,
}

-- What a round does to one button.
pub record Debounced (levels : ℕ → Bool) (now : ℕ) (b b' : Button) : Type 0 where
  pub pressed_is : b'.debounced_pressed ≡ (
      if not (b.debounce_time == 0)
      then (if leb b.debounce_time now then raw_button_pressed levels b else b.debounced_pressed)
      else b.debounced_pressed)
  pub time_is : b'.debounce_time ≡ (if leb b.debounce_time now then 0 else b.debounce_time)

pub AllDebounced : (ℕ → Bool) → ℕ → List Button → List Button → Type 0
AllDebounced levels now [] [] = Unit
AllDebounced levels now [] (b ∷ bs) = ⊥
AllDebounced levels now (b ∷ bs) [] = ⊥
AllDebounced levels now (b ∷ bs) (c ∷ cs) = Debounced levels now b c × AllDebounced levels now bs cs

-- No button waits for a time before `soonest`, and none waits where that is 0.
abbrev pub AllAfter : ℕ → List Button → Type 0
AllAfter soonest [] = Unit
AllAfter soonest (b ∷ bs) =
    ((b.debounce_time ≡ 0) ⊎ ((0 < soonest) × (soonest ≤ b.debounce_time))) × AllAfter soonest bs

-- What the loop makes of the soonest time: it only gets sooner, and stays after `now`.
record Sooner (now soonest soon : ℕ) : Type 0 where
  sooner : (soonest ≡ 0) ⊎ ((0 < soon) × (soon ≤ soonest))
  later : (soon ≡ 0) ⊎ (now < soon)

change_entry-Debounced :
    (levels : ℕ → Bool) (now : ℕ) (b : Button) (soonest : ℕ)
    → (soonest ≡ 0) ⊎ (now < soonest)
    → Debounced levels now b (change_entry levels now b soonest).0
      × Sooner now soonest (change_entry levels now b soonest).2
      × (((change_entry levels now b soonest).0.debounce_time ≡ 0)
          ⊎ ((0 < (change_entry levels now b soonest).2)
              × ((change_entry levels now b soonest).2
                  ≤ (change_entry levels now b soonest).0.debounce_time)))
unfolding change_entry
change_entry-Debounced levels now b soonest h = ground arith

AllAfter-sooner :
    (now soonest soon : ℕ) (bs : List Button)
    → Sooner now soonest soon
    → AllAfter soonest bs
    → AllAfter soon bs
AllAfter-sooner now soonest soon [] s a = tt
AllAfter-sooner now soonest soon (b ∷ bs) s a =
    (ground (arith, s.sooner, a.0), AllAfter-sooner now soonest soon bs s a.1)

-- What the loop makes of all buttons.
record Swept (levels : ℕ → Bool) (now : ℕ) (bs : List Button) (soonest : ℕ) (cs : List Button)
    (soon : ℕ) : Type 0 where
  all : AllDebounced levels now bs cs
  bound : Sooner now soonest soon
  after : AllAfter soon cs

change_entries-Swept :
    (levels : ℕ → Bool) (now : ℕ) (bs : List Button) (soonest : ℕ)
    → (soonest ≡ 0) ⊎ (now < soonest)
    → Swept levels now bs soonest
        (change_entries levels now bs soonest).0
        (change_entries levels now bs soonest).2
unfolding change_entries AllDebounced
change_entries-Swept levels now [] soonest h = record {
  all = tt;
  bound = record { sooner = ground arith; later = h };
  after = tt;
}
change_entries-Swept levels now (b ∷ bs) soonest h =
    let (one, here, late) = change_entry-Debounced levels now b soonest h in
    let rest =
      change_entries-Swept levels now bs (change_entry levels now b soonest).2 here.later in
    record {
      all = (one, rest.all);
      bound = record {
        sooner = ground (arith, here.sooner, rest.bound.sooner);
        later = rest.bound.later;
      };
      after = (ground (arith, late, rest.bound.sooner), rest.after);
    }

-- The state that `button_change_deferred` leaves.
pub record IsSettled (levels : ℕ → Bool) (now : ℕ) (s s' : Buttons) : Type 0 where
  pub all : AllDebounced levels now s.entries s'.entries
  pub waits :
      (AllAfter 0 s'.entries × (s'.deferred ≡ none))
      ⊎ ((now < s'.next_deferred_time)
          × AllAfter s'.next_deferred_time s'.entries
          × (s'.deferred ≡ some (s'.next_deferred_time - now)))

-- The deferred call at the time `now` gives every button whose debounce time has come the level of
-- its pin and stops waiting for it, and keeps the pressed state and the debounce time of every
-- other button. Then either no button waits and no call is asked for, or a call is asked for at a
-- later time that is not after the debounce time of any button that waits, so that none is
-- forgotten.
pub change_deferred-IsSettled :
    (levels : ℕ → Bool) (now : ℕ) (s : Buttons)
    → IsSettled levels now s (change_deferred levels now s)
unfolding change_deferred
change_deferred-IsSettled levels now s =
    let r = change_entries-Swept levels now s.entries 0 (inl refl) in
    elim (Bool-cases ((change_entries levels now s.entries 0).2 == 0)) [
      | inl none_left ↦
          let zero_soon : (change_entries levels now s.entries 0).2 ≡ 0 =
            ground (arith, none_left) in
          rw none_left (record {
            all = r.all;
            waits = inl (
              subst (λ n. AllAfter n (change_entries levels now s.entries 0).0) zero_soon r.after,
              refl,
            );
          })
      | inr some_left ↦ rw some_left (record {
        all = r.all;
        waits = inr (ground (arith, some_left, r.bound.later), r.after, refl);
      })
    ]
