-- ===== src/Port80/Tests.antt =====
-- common/port80.c on a concrete history.
use chromium_ec.Common.{ℕ, ◌≡◌, ◌-◌, refl, List, [], ◌∷◌, length, drop, replicate}
use chromium_ec.Port80.{Port80, flush, listed}
use chromium_ec.Port80.History.{as_words, write_all, listed-write_all}

abbrev old : Port80
old = record { history = replicate 256 9; writes = 300; last_boot = 17 }

abbrev codes : List ℕ
codes = 0x10 ∷ 0x1002 ∷ 0x20 ∷ []

listed-write_all_example :
    listed (write_all codes (flush old)) ≡ drop (length (as_words codes) - 256) (as_words codes)
listed-write_all_example = listed-write_all codes old refl
