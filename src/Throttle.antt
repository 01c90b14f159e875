-- ===== src/Throttle.antt =====
-- common/throttle_ap.c: the virtual OR of the requests to throttle the AP. A soft request goes to
-- the host as an event (HAS_TASK_HOSTCMD), a hard one to the chipset (CONFIG_CHIPSET_CAN_THROTTLE),
-- whose board code is left out: the model keeps the last word that it was given. The mutex makes
-- each call one step.
pub mod Requests
mod Tests
use chromium_ec.Common.{ℕ, ◌^◌, Bool, true, false, List, [], ◌∷◌}
use chromium_ec.HostEvent.{HostEvents, atomic_clear, atomic_or, throttle_cpu}

-- `enum throttle_level`, `enum throttle_type` and `enum throttle_sources`
pub data Level : Type 0 where
  off on : Level

pub data ThrottleType : Type 0 where
  soft hard : ThrottleType

pub data Source : Type 0 where
  thermal power : Source

abbrev pub source_bit : Source → ℕ
source_bit thermal = 0
source_bit power = 1

pub record Throttle : Type 0 where
  pub soft_request : ℕ  -- `throttle_request[]`
  pub hard_request : ℕ
  pub host : HostEvents
  pub chipset : ℕ

-- The first `switch`, on the word of the type.
pub apply_level : Level → ℕ → ℕ → ℕ
apply_level on bitmask request = atomic_or request bitmask
apply_level off bitmask request = atomic_clear request bitmask

-- `throttle_ap`
unfoldable pub throttle_ap : Level → ThrottleType → Source → Throttle → Throttle
throttle_ap level soft source s =
    let tmpval = apply_level level (2 ^ source_bit source) s.soft_request in
    record s { soft_request = tmpval; host = throttle_cpu tmpval s.host }
throttle_ap level hard source s =
    let tmpval = apply_level level (2 ^ source_bit source) s.hard_request in
    record s { hard_request = tmpval; chipset = tmpval }

pub record Request : Type 0 where
  pub level : Level
  pub type : ThrottleType
  pub source : Source

pub run : List Request → Throttle → Throttle
run [] s = s
run (r ∷ rs) s = run rs (throttle_ap r.level r.type r.source s)
