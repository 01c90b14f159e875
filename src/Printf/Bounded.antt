-- ===== src/Printf/Bounded.antt =====
-- snprintf of common/printf.c keeps to its buffer, and fills it with the beginning of the text.
use chromium_ec.Common.{ℕ, ◌-◌, Bool, false, List, [], ◌∷◌, ◌++◌, length, take}
use chromium_ec.Printf.{Context}

-- What the context takes of a text.
abbrev filled : List ℕ → Context → Context
filled cs ctx = record { str = ctx.str ++ take ctx.size cs; size = ctx.size - length cs }

-- A sink that refuses nothing.
abbrev pub collect : ℕ → List ℕ → Bool × List ℕ
collect c s = (false, s ++ c ∷ [])
