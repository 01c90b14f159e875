-- ===== src/HostCommand/Receive.antt =====
-- The contract of `host_packet_receive` with the host.
use chromium_ec.Common.{
  ℕ, ◌+◌, ◌-◌, ◌%◌, ◌≡◌, ◌≤◌, ◌<◌, refl, ap, ap₂, ◌∙◌, sym, Bool, true, false, not, List, arith,
  take, drop, get_or, ltb, ◌==◌, nonzero, if◌then◌else◌,
}
use chromium_ec.HostCommand.{
  HostPacket, Args, Received, bad, chained, receive, receive_data, chain, read16, data_len,
  command_of, command_version, fetch,
}
use chromium_ec.HostCommand.Bytes.{sum, source, fetch_lem, take-source, get_or-source, sum-take_add}

-- The packet is one that the interface can take, and the driver reports no error.
pub record IsDelivered (pkt : HostPacket) : Type 0 where
  pub no_error : pkt.driver_result ≡ 0
  pub fits : pkt.request_size ≤ pkt.request_max
  pub room : 8 ≤ pkt.response_max

-- The bytes of a request that the EC accepts: version, length and sum are right.
pub record IsRequest (s : List ℕ) (size : ℕ) : Type 0 where
  pub version_is : get_or s 0 0 ≡ 3
  pub size_is : 8 + data_len s ≤ size
  pub sum_is : sum (take (8 + data_len s) s) % 256 ≡ 0

-- What the handler is to get.
pub record Carries (s : List ℕ) (args : Args) : Type 0 where
  pub command_is : args.command ≡ command_of s
  pub command_version_is : args.version ≡ command_version s
  pub size_is : args.params_size ≡ data_len s
  pub params_is : take args.params_size args.params ≡ take (data_len s) (drop 8 s)

-- `receive` from the header on, on the numbers that the header has.
checked : HostPacket → ℕ → ℕ → ℕ → ℕ → ℕ → List ℕ → Received
checked pkt version len command command_version csum s =
    if not (version == 3)
    then bad 12
    else if ltb pkt.request_size (8 + len)
    then bad 13
    else if nonzero ((csum + sum (take len s)) % 256)
    then bad 7
    else chained (record {
      command = command;
      version = command_version;
      params = source pkt.has_temp len s;
      params_size = len;
      response_max = pkt.response_max - 8;
    })

chain_lem :
    (pkt : HostPacket) (r : List ℕ) (csum : ℕ) (s : List ℕ)
    → receive_data pkt (r, csum, s)
      ≡ checked pkt (get_or r 0 0) (data_len r) (command_of r) (command_version r) csum s
unfolding checked
chain_lem pkt r csum s =
    ap
      (λ f.
        if not (get_or r 0 0 == 3)
        then bad 12
        else if ltb pkt.request_size (8 + data_len r)
        then bad 13
        else chain pkt r f)
      (fetch_lem pkt.has_temp (data_len r) s csum)

read16-source :
    (temp : Bool) (i : ℕ) (s : List ℕ) → i + 1 < 8 → read16 (source temp 8 s) i ≡ read16 s i
read16-source temp i s h =
    omega (arith, get_or-source temp 8 i s (omega arith), get_or-source temp 8 (i + 1) s h)

header_lem :
    (pkt : HostPacket)
    → receive_data pkt (fetch pkt.has_temp 8 pkt.request 0)
      ≡ checked pkt
          (get_or pkt.request 0 0)
          (data_len pkt.request)
          (command_of pkt.request)
          (command_version pkt.request)
          (sum (take 8 pkt.request))
          (drop 8 pkt.request)
header_lem pkt =
    let s = pkt.request in
    let t = pkt.has_temp in
    let v = get_or-source t 8 0 s (omega arith) in
    let l = read16-source t 6 s (omega arith) in
    let c = read16-source t 2 s (omega arith) in
    let w = get_or-source t 8 4 s (omega arith) in
    let n : 0 + sum (take 8 s) ≡ sum (take 8 s) = omega arith in
    ap (receive_data pkt) (fetch_lem t 8 s 0)
    ∙ chain_lem pkt (source t 8 s) (0 + sum (take 8 s)) (drop 8 s)
    ∙ (λ i. checked pkt (v i) (l i) (c i) (w i) (n i) (drop 8 s))

-- A packet that the interface delivers whole, in which the header says version 3 and no more data
-- than the packet holds, and whose bytes up to the end of the data sum to 0, reaches the handler
-- with the command, the version and exactly the data that the header frames, whether or not the
-- request is copied to a buffer of its own on the way; bytes after the data do not matter.
pub receive-Carries :
    (pkt : HostPacket)
    → IsDelivered pkt
    → IsRequest pkt.request pkt.request_size
    → (args : Args) × (receive pkt ≡ chained args) × Carries pkt.request args
unfolding receive checked
receive-Carries pkt d r =
    let total = sum-take_add 8 (data_len pkt.request) pkt.request in
    let g0 : nonzero pkt.driver_result ≡ false = ground (arith, d.no_error) in
    let g1 : ltb pkt.request_size 8 ≡ false = ground (arith, r.size_is) in
    let g2 : ltb pkt.request_max pkt.request_size ≡ false = ground (arith, d.fits) in
    let g3 : ltb pkt.response_max 8 ≡ false = ground (arith, d.room) in
    let g4 : (get_or pkt.request 0 0 == 3) ≡ true = ground (arith, r.version_is) in
    let g5 : ltb pkt.request_size (8 + data_len pkt.request) ≡ false = ground (arith, r.size_is) in
    let g6 : nonzero (
          (sum (take 8 pkt.request) + sum (take (data_len pkt.request) (drop 8 pkt.request))) % 256)
        ≡ false =
      ground (arith, total, r.sum_is) in
    (
      record {
        command = command_of pkt.request;
        version = command_version pkt.request;
        params = source pkt.has_temp (data_len pkt.request) (drop 8 pkt.request);
        params_size = data_len pkt.request;
        response_max = pkt.response_max - 8;
      },
      rw (g0, g1, g2, g3, header_lem pkt, g4, g5, g6) refl,
      record {
        command_is = refl;
        command_version_is = refl;
        size_is = refl;
        params_is = take-source pkt.has_temp (data_len pkt.request) (drop 8 pkt.request);
      },
    )

checked-chained :
    (pkt : HostPacket) (version len command command_version csum : ℕ) (s : List ℕ) {args : Args}
    → checked pkt version len command command_version csum s ≡ chained args
    → (version ≡ 3)
      × (8 + len ≤ pkt.request_size)
      × ((csum + sum (take len s)) % 256 ≡ 0)
      × (args.command ≡ command)
      × (args.version ≡ command_version)
      × (args.params_size ≡ len)
      × (args.params ≡ source pkt.has_temp len s)
unfolding checked
checked-chained pkt version len command command_version csum s h = ground (arith, h)

receive-guards :
    {pkt : HostPacket} {args : Args}
    → receive pkt ≡ chained args
    → IsDelivered pkt × (receive_data pkt (fetch pkt.has_temp 8 pkt.request 0) ≡ chained args)
unfolding receive
receive-guards h = ground (arith, h)

-- Whatever arrives, a command is only started for a packet that the interface delivers whole, with
-- a header of version 3, no more data than the packet holds, and bytes that sum to 0; and its
-- handler sees the command, the version and the data of that packet.
pub receive-IsRequest :
    {pkt : HostPacket} {args : Args}
    → receive pkt ≡ chained args
    → IsDelivered pkt × IsRequest pkt.request pkt.request_size × Carries pkt.request args
receive-IsRequest {pkt} {args} h =
    let (d, e) = receive-guards h in
    let (v, l, t, c, w, n, p) = checked-chained pkt _ _ _ _ _ _ (sym (header_lem pkt) ∙ e) in
    (
      d,
      record {
        version_is = v;
        size_is = l;
        sum_is = omega (arith, t, sum-take_add 8 (data_len pkt.request) pkt.request);
      },
      record {
        command_is = c;
        command_version_is = w;
        size_is = n;
        params_is =
            ap₂ take n p ∙ take-source pkt.has_temp (data_len pkt.request) (drop 8 pkt.request);
      },
    )
