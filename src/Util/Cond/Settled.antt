-- ===== src/Util/Cond/Settled.antt =====
-- A condition of common/util.c that is polled for both edges after each assignment: it is always as
-- `cond_init` makes it, and shows the edge of that one assignment.
use chromium_ec.Common.{◌≡◌, refl, Bool, true, false, not, ◌&&◌}
use chromium_ec.Util.Cond.{init, is, mark_edge, set, went}

-- Polled for its rise.
pub went-set : (b v : Bool) → (went (set (init b) v) true).0 ≡ (v && not b)
unfolding went set mark_edge is init
went-set true true = refl
went-set true false = refl
went-set false true = refl
went-set false false = refl

-- Then it is left as it is assigned, if it has risen.
pub went-set_rise : (went (set (init false) true) true).1 ≡ init true
unfolding went set mark_edge is init
went-set_rise = refl

-- And else polled for its fall.
pub went-went-set : (b v : Bool) → went (went (set (init b) v) true).1 false ≡ (b && not v, init v)
unfolding went set mark_edge is init
went-went-set true true = refl
went-went-set true false = refl
went-went-set false true = refl
went-went-set false false = refl

pub went-init : (b v : Bool) → went (init b) v ≡ (false, init b)
unfolding went init
went-init true true = refl
went-init true false = refl
went-init false true = refl
went-init false false = refl
