-- ===== src/HostCommand/Respond.antt =====
-- The contract of `host_packet_respond` with the host.
use chromium_ec.Common.{
  ℕ, ◌+◌, ◌%◌, ◌^◌, ◌≡◌, ◌≤◌, ◌<◌, refl, ap, List, leb, arith, take, drop, get_or, nonzero,
  if◌then◌else◌,
}
use chromium_ec.HostCommand.{
  Response, respond, respond_with, clip, read16, sum_loop, response_header,
}
use chromium_ec.HostCommand.Bytes.{sum, sum_loop_lem, sum-take_add}

-- The result that the host is to see, and the number of bytes of data.
abbrev pub seen : ℕ → ℕ → ℕ → ℕ × ℕ
seen response_max result size =
    if nonzero result
    then (result, 0)
    else if leb (8 + size) response_max
    then (0, size)
    else (14, 0)

clip-seen :
    (response_max result size : ℕ)
    → 8 ≤ response_max
    → clip response_max result size ≡ seen response_max result size
clip-seen response_max result size h = ground arith

seen-fits :
    (response_max result size : ℕ)
    → 8 ≤ response_max
    → result < 2 ^ 16
    → size < 2 ^ 16
    → ((seen response_max result size).0 < 2 ^ 16)
      × ((seen response_max result size).1 < 2 ^ 16)
      × (8 + (seen response_max result size).1 ≤ response_max)
seen-fits response_max result size h r z = ground arith

-- A response that the host can read back.
pub record IsResponse (response_max : ℕ) (body : List ℕ) (s : ℕ × ℕ) (out : Response) : Type 0 where
  pub version_is : get_or out.response 0 0 ≡ 3
  pub result_is : read16 out.response 2 ≡ s.0
  pub size_is : read16 out.response 4 ≡ s.1
  pub length_is : out.response_size ≡ 8 + s.1
  pub room : out.response_size ≤ response_max
  pub body_is : take s.1 (drop 8 out.response) ≡ take s.1 body
  pub sum_is : sum (take out.response_size out.response) % 256 ≡ 0

respond_with-IsResponse :
    (response_max : ℕ) (body : List ℕ) (result size : ℕ)
    → result < 2 ^ 16
    → size < 2 ^ 16
    → 8 + size ≤ response_max
    → IsResponse response_max body (result, size) (respond_with body (result, size))
respond_with-IsResponse response_max body result size r z room = record {
  version_is = refl;
  result_is = omega arith;
  size_is = omega arith;
  length_is = refl;
  room = room;
  body_is = refl;
  sum_is =
      let head = response_header 0 result size in
      let one = ap (λ p. p.0) (sum_loop_lem 8 head 0) in
      let two = ap (λ p. p.0) (sum_loop_lem size body (sum_loop 8 head 0).0) in
      omega (arith, one, two, sum-take_add 8 size (respond_with body (result, size)).response);
}

-- For a 16-bit result code, a 16-bit response size and a response buffer with room for a header,
-- the host reads back a response of version 3 that fits the buffer and sums to 0: a failed command
-- gives its code and no data, a response that does not fit gives EC_RES_RESPONSE_TOO_BIG and no
-- data, and any other gives EC_RES_SUCCESS with the handler's data.
pub respond-IsResponse :
    (response_max result size : ℕ) (body : List ℕ)
    → 8 ≤ response_max
    → result < 2 ^ 16
    → size < 2 ^ 16
    → IsResponse response_max body
        (seen response_max result size)
        (respond response_max result size body)
unfolding respond
respond-IsResponse response_max result size body h r z =
    let (r', z', room) = seen-fits response_max result size h r z in
    rw (clip-seen response_max result size h) (
      respond_with-IsResponse response_max body (seen response_max result size).0
        (seen response_max result size).1 r' z' room)
