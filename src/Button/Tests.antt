-- ===== src/Button/Tests.antt =====
-- common/button.c on concrete buttons.
use chromium_ec.Common.{ℕ, Bool, true, false, [], ◌∷◌, some}
use chromium_ec.Button.{Button, Buttons, change_deferred}
use chromium_ec.Button.Schedule.{IsSettled, change_deferred-IsSettled}

abbrev volume_up : Button
volume_up = record {
  button_type = 1;
  gpio = 4;
  debounce_us = 30;
  active_high = true;
  debounce_time = 100;
  debounced_pressed = false;
}

abbrev volume_down : Button
volume_down = record volume_up {
  button_type = 2;
  gpio = 5;
  active_high = false;
  debounce_time = 130;
}

abbrev bouncing : Buttons
bouncing = record {
  entries = volume_up ∷ volume_down ∷ [];
  next_deferred_time = 100;
  deferred = some 10;
  updates = [];
}

abbrev all_high : ℕ → Bool
all_high gpio = true

change_deferred-IsSettled_example :
    IsSettled all_high 110 bouncing (change_deferred all_high 110 bouncing)
change_deferred-IsSettled_example = change_deferred-IsSettled all_high 110 bouncing
