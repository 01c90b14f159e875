-- ===== src/Throttle/Requests.antt =====
-- The AP is throttled as long as some source asks for it.
use chromium_ec.Common.{
  nonzero, ℕ, ◌^◌, ◌<◌, ◌≡◌, refl, ◌∙◌, ap, ap₂, Bool, true, false, ◌&&◌, ◌||◌, List, [], ◌∷◌,
  arith, if◌then◌else◌,
}
use chromium_ec.Common.Bits.{
  test_bit, test_bit-clear, test_bit-set, bit_or-lt, bit_and-lt, complement,
}
use chromium_ec.HostEvent.{throttle_cpu}
use chromium_ec.HostEvent.History.{throttle_cpu-copy_b}
use chromium_ec.Throttle.{
  Level, off, on, ThrottleType, soft, hard, Source, thermal, power, source_bit, Throttle,
  apply_level, throttle_ap, Request, run,
}

abbrev pub is_on : Level → Bool
is_on on = true
is_on off = false

abbrev pub same_type : ThrottleType → ThrottleType → Bool
same_type soft soft = true
same_type hard hard = true
same_type _ _ = false

abbrev pub same_source : Source → Source → Bool
same_source thermal thermal = true
same_source power power = true
same_source _ _ = false

-- What a source last asked for, of one type, by the requests alone.
pub asks : ThrottleType → Source → List Request → Bool → Bool
asks t c [] b = b
asks t c (r ∷ rs) b =
    asks t c rs (if same_type t r.type && same_source c r.source then is_on r.level else b)

abbrev pub request_of : ThrottleType → Throttle → ℕ
request_of soft s = s.soft_request
request_of hard s = s.hard_request

-- Only the bits of the two sources are ever set: a word below 4.
abbrev pub IsRequest : Throttle → Type 0
IsRequest s = (s.soft_request < 2 ^ 2) × (s.hard_request < 2 ^ 2)

pub apply_level-bit :
    (l : Level) (a c : Source) (x : ℕ)
    → test_bit (apply_level l (2 ^ source_bit a) x) (source_bit c)
      ≡ (if same_source c a then is_on l else test_bit x (source_bit c))
unfolding apply_level
apply_level-bit on thermal thermal x = test_bit-set x 0 0 ∙ ground arith
apply_level-bit on thermal power x = test_bit-set x 0 1 ∙ ground arith
apply_level-bit on power thermal x = test_bit-set x 1 0 ∙ ground arith
apply_level-bit on power power x = test_bit-set x 1 1 ∙ ground arith
apply_level-bit off thermal thermal x =
    test_bit-clear 32 x 0 0 (omega arith) (omega arith) ∙ ground arith
apply_level-bit off thermal power x =
    test_bit-clear 32 x 0 1 (omega arith) (omega arith) ∙ ground arith
apply_level-bit off power thermal x =
    test_bit-clear 32 x 1 0 (omega arith) (omega arith) ∙ ground arith
apply_level-bit off power power x =
    test_bit-clear 32 x 1 1 (omega arith) (omega arith) ∙ ground arith

apply_level-lt :
    (l : Level) (a : Source) (x : ℕ) → x < 2 ^ 2 → apply_level l (2 ^ source_bit a) x < 2 ^ 2
unfolding apply_level
apply_level-lt on thermal x h = bit_or-lt 2 x 1 h (omega arith)
apply_level-lt on power x h = bit_or-lt 2 x 2 h (omega arith)
apply_level-lt off a x h = bit_and-lt 2 x (complement 32 (2 ^ source_bit a)) h

-- A word below 4 is set exactly when one of its two bits is.
two_bits : (x : ℕ) → x < 2 ^ 2 → nonzero x ≡ (test_bit x 0 || test_bit x 1)
two_bits x h = ground arith

throttle_ap-asks :
    (l : Level) (u : ThrottleType) (a : Source) (t : ThrottleType) (c : Source) (s : Throttle)
    → test_bit (request_of t (throttle_ap l u a s)) (source_bit c) ≡ (
        if same_type t u && same_source c a
        then is_on l
        else test_bit (request_of t s) (source_bit c))
unfolding throttle_ap
throttle_ap-asks l soft a soft c s = apply_level-bit l a c s.soft_request
throttle_ap-asks l soft a hard c s = refl
throttle_ap-asks l hard a soft c s = refl
throttle_ap-asks l hard a hard c s = apply_level-bit l a c s.hard_request

throttle_ap-IsRequest :
    (l : Level) (u : ThrottleType) (a : Source) (s : Throttle)
    → IsRequest s
    → IsRequest (throttle_ap l u a s)
unfolding throttle_ap
throttle_ap-IsRequest l soft a s h = (apply_level-lt l a s.soft_request h.0, h.1)
throttle_ap-IsRequest l hard a s h = (h.0, apply_level-lt l a s.hard_request h.1)

run-asks :
    (rs : List Request) (t : ThrottleType) (c : Source) (s : Throttle)
    → test_bit (request_of t (run rs s)) (source_bit c)
      ≡ asks t c rs (test_bit (request_of t s) (source_bit c))
unfolding run asks
run-asks [] t c s = refl
run-asks (r ∷ rs) t c s =
    run-asks rs t c (throttle_ap r.level r.type r.source s)
    ∙ ap (asks t c rs) (throttle_ap-asks r.level r.type r.source t c s)

run-IsRequest : (rs : List Request) (s : Throttle) → IsRequest s → IsRequest (run rs s)
unfolding run
run-IsRequest [] s h = h
run-IsRequest (r ∷ rs) s h = run-IsRequest rs _ (throttle_ap-IsRequest r.level r.type r.source s h)

request_of-lt : (t : ThrottleType) (s : Throttle) → IsRequest s → request_of t s < 2 ^ 2
request_of-lt soft s h = h.0
request_of-lt hard s h = h.1

-- After any requests, from words that hold no bit but those of the two sources, throttling of a
-- type is requested exactly when the last request of that type from the thermal source or the last
-- one from the power source asked for it (a source that asked for nothing counts as it stood
-- before).
pub run_or :
    (rs : List Request) (t : ThrottleType) (s : Throttle)
    → IsRequest s
    → nonzero (request_of t (run rs s)) ≡ (
        asks t thermal rs (test_bit (request_of t s) 0)
        || asks t power rs (test_bit (request_of t s) 1))
run_or rs t s h =
    two_bits _ (request_of-lt t _ (run-IsRequest rs s h))
    ∙ ap₂ ◌||◌ (run-asks rs t thermal s) (run-asks rs t power s)

-- A soft request leaves one of the two throttle events pending for the host: THROTTLE_START if some
-- source still asks for it after the request, THROTTLE_STOP if none does. A hard request hands the
-- chipset the word that says which sources ask for it, and tells the host nothing.
pub throttle_ap-told :
    (l : Level) (a : Source) (s : Throttle)
    → (test_bit
          (throttle_ap l soft a s).host.events_copy_b
          (if nonzero (throttle_ap l soft a s).soft_request then 17 else 18)
        ≡ true)
      × ((throttle_ap l soft a s).chipset ≡ s.chipset)
      × ((throttle_ap l hard a s).chipset ≡ (throttle_ap l hard a s).hard_request)
      × ((throttle_ap l hard a s).host ≡ s.host)
unfolding throttle_ap
throttle_ap-told l a s = (told (apply_level l (2 ^ source_bit a) s.soft_request), refl, refl, refl)
  where
    told :
        (x : ℕ)
        → test_bit (throttle_cpu x s.host).events_copy_b (if nonzero x then 17 else 18) ≡ true
    told x = throttle_cpu-copy_b x (if nonzero x then 17 else 18) s.host ∙ ground arith
