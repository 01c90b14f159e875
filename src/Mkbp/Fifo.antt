-- ===== src/Mkbp/Fifo.antt =====
-- The contract of common/keyboard_mkbp.c with the keyboard scanner and the host: a bounded first-in
-- first-out sequence of scans that remembers the last scan read.
pub mod Held
pub mod Refinement
use chromium_ec.Common.{
  ℕ, zero, suc, ◌+◌, ◌-◌, ◌%◌, ◌≤◌, ◌<◌, ◌≡◌, refl, ap, ap₂, ◌∙◌, sym, Bool, true, false, not, ◌&&◌,
  ◌||◌, List, [], ◌∷◌, ◌++◌, arith, leb, nonzero, if◌then◌else◌, min, length, get_or, set,
  replicate, bit_xor, length-run_from, Bool-cases, inl, inr, leb→le,
}
use chromium_ec.Common.Bits.{test_bit}
use chromium_ec.Mkbp.{
  Mkbp, MkbpConfig, EcError, success, overflow, fifo_add, fifo_remove, clear_buffer, get_scan,
  send_battery_key, set_config,
}

-- The calls of the scanner, the chipset code and the host.
pub data Op : Type 0 where
  add : List ℕ → Op
  battery : List ℕ → Bool → Op
  get : Op
  clear : Op
  configure : MkbpConfig → Op

-- What a call answers.
pub data Answer : Type 0 where
  status : EcError → Answer
  scan : List ℕ → Answer
  nothing : Answer

unfoldable pub step : Op → Mkbp → Answer × Mkbp
step (add x) m = let (code, m') = fifo_add x m in (status code, m')
step (battery x is_on) m = (nothing, send_battery_key x is_on m)
step get m = let (x, m') = get_scan m in (scan x, m')
step clear m = (nothing, clear_buffer m)
step (configure req) m = (nothing, set_config req m)

-- The answers to a sequence of calls, each with the level of the interrupt line after it.
unfoldable pub run : List Op → Mkbp → List (Answer × Bool)
run [] m = []
run (op ∷ ops) m = let (a, m') = step op m in (a, m'.line_active) ∷ run ops m'

-- The specification. The host enables the sequence and bounds its length, by no more than 16.
pub record Spec : Type 0 where
  pub queue : List (List ℕ)
  pub last : List ℕ
  pub enabled : Bool
  pub depth : ℕ
  pub line : Bool

-- The first argument tells whether the sequence is enabled.
abbrev pub spec_add_when : Bool → List ℕ → Spec → EcError × Spec
spec_add_when false x s = (success, s)
spec_add_when true x s =
    if leb s.depth (length s.queue)
    then (overflow, s)
    else (success, record s { queue = s.queue ++ (x ∷ []); line = true })

abbrev pub spec_add : List ℕ → Spec → EcError × Spec
spec_add x s = spec_add_when s.enabled x s

abbrev pub is_nil : List (List ℕ) → Bool
is_nil [] = true
is_nil (x ∷ xs) = false

abbrev pub spec_get_from : List (List ℕ) → Spec → List ℕ × Spec
spec_get_from [] s = (s.last, record s { line = false })
spec_get_from (x ∷ q) s = (x, record s { queue = q; last = x; line = not (is_nil q) && s.line })

abbrev pub with_battery_key : List ℕ → List ℕ
with_battery_key x = set x 0 (bit_xor (get_or x 0 0) 128)

pub spec_step : Op → Spec → Answer × Spec
spec_step (add x) s = let (code, s') = spec_add x s in (status code, s')
spec_step (battery x is_on) s = (nothing, if is_on then (spec_add (with_battery_key x) s).1 else s)
spec_step get s = let (x, s') = spec_get_from s.queue s in (scan x, s')
spec_step clear s = (nothing, record s { queue = []; last = replicate 13 0 })
spec_step (configure req) s = (
  nothing,
  record s {
    enabled = if test_bit req.valid_flags 0 then test_bit req.flags 0 else s.enabled;
    depth = if test_bit req.valid_mask 7 then min req.fifo_max_depth 16 else s.depth;
  },
)

pub spec_run : List Op → Spec → List (Answer × Bool)
spec_run [] s = []
spec_run (op ∷ ops) s = let (a, s') = spec_step op s in (a, s'.line) ∷ spec_run ops s'
