-- ===== src/HostCommand.antt =====
-- common/host_command.c: the packets of host protocol 3, and the choice of a command's handler. A
-- packet's buffers are lists of bytes and its sizes natural numbers. The functions that the code
-- reaches through pointers (the interface's `send_response`, the handlers) are not called here: a
-- function gives what it passes on.
pub mod Bytes
pub mod Receive
pub mod Respond
pub mod Dispatch
pub mod Status
mod Tests
use chromium_ec.Common.{
  ℕ, zero, suc, ◌+◌, ◌-◌, ◌*◌, ◌/◌, ◌%◌, ◌^◌, Bool, true, false, not, List, [], ◌∷◌, ◌++◌, Option,
  none, some, ltb, ◌==◌, nonzero, if◌then◌else◌, bit_and, get_or,
}

-- `enum ec_status`, as far as this file sets it.
abbrev pub res_success : ℕ
res_success = 0

abbrev pub res_invalid_command : ℕ
res_invalid_command = 1

abbrev pub res_invalid_version : ℕ
res_invalid_version = 6

abbrev pub res_invalid_checksum : ℕ
res_invalid_checksum = 7

abbrev pub res_invalid_header : ℕ
res_invalid_header = 12

abbrev pub res_request_truncated : ℕ
res_request_truncated = 13

abbrev pub res_response_too_big : ℕ
res_response_too_big = 14

-- EC_HOST_REQUEST_VERSION and EC_HOST_RESPONSE_VERSION
abbrev pub request_version : ℕ
request_version = 3

abbrev pub response_version : ℕ
response_version = 3

-- The sizes of `struct ec_host_request` and `struct ec_host_response`.
abbrev pub header_size : ℕ
header_size = 8

-- `struct host_packet`: what the interface passes to `host_packet_receive`.
pub record HostPacket : Type 0 where
  pub request : List ℕ
  pub has_temp : Bool  -- `request_temp` is not NULL
  pub request_max : ℕ
  pub request_size : ℕ
  pub response_max : ℕ
  pub driver_result : ℕ

-- A little-endian uint16_t at an offset.
abbrev pub read16 : List ℕ → ℕ → ℕ
read16 s i = get_or s i 0 + 256 * get_or s (i + 1) 0

-- The fields of `struct ec_host_request` at `r`.
abbrev pub struct_version : List ℕ → ℕ
struct_version r = get_or r 0 0

abbrev pub command_of : List ℕ → ℕ
command_of r = read16 r 2

abbrev pub command_version : List ℕ → ℕ
command_version r = get_or r 4 0

abbrev pub data_len : List ℕ → ℕ
data_len r = read16 r 6

-- The fields of `struct host_cmd_handler_args` that `host_packet_receive` sets. `params` is the
-- memory from the pointer on.
pub record Args : Type 0 where
  pub command : ℕ
  pub version : ℕ
  pub params : List ℕ
  pub params_size : ℕ
  pub response_max : ℕ

-- What `host_packet_receive` does at its end: respond with an error, or chain to
-- `host_command_received`. A response buffer without room for a header fails the ASSERT.
pub data Received : Type 0 where
  bad : ℕ → Received
  asserted : Received
  chained : Args → Received

-- `for (i = n; i > 0; i--) csum += *in++;`: the sum and what `in` points to.
pub sum_loop : ℕ → List ℕ → ℕ → ℕ × List ℕ
sum_loop zero s csum = (csum, s)
sum_loop (suc n) [] csum = (csum, [])
sum_loop (suc n) (x ∷ s) csum = sum_loop n s (csum + x)

-- `for (i = n; i > 0; i--) { *itmp = *in++; csum += *itmp++; }`: what is copied, the sum, and what
-- `in` points to.
pub copy_loop : ℕ → List ℕ → ℕ → List ℕ × ℕ × List ℕ
copy_loop zero s csum = ([], csum, s)
copy_loop (suc n) [] csum = ([], csum, [])
copy_loop (suc n) (x ∷ s) csum = let (t, csum', s') = copy_loop n s (csum + x) in (x ∷ t, csum', s')

-- Either loop, with the memory that the code then reads these bytes from.
pub fetch : Bool → ℕ → List ℕ → ℕ → List ℕ × ℕ × List ℕ
fetch true n s csum = copy_loop n s csum
fetch false n s csum = let (csum', s') = sum_loop n s csum in (s, csum', s')

-- The end of `host_packet_receive`, from the checksum on.
abbrev pub chain : HostPacket → List ℕ → List ℕ × ℕ × List ℕ → Received
chain pkt r (params, csum, s) =
    if nonzero (csum % 256)
    then bad res_invalid_checksum
    else chained (record {
      command = command_of r;
      version = command_version r;
      params = params;
      params_size = data_len r;
      response_max = pkt.response_max - header_size;
    })

-- The part after the header is read: `r` points to it, and `s` is what follows.
abbrev pub receive_data : HostPacket → List ℕ × ℕ × List ℕ → Received
receive_data pkt (r, csum, s) =
    if not (struct_version r == request_version)
    then bad res_invalid_header
    else if ltb pkt.request_size (header_size + data_len r)
    then bad res_request_truncated
    else chain pkt r (fetch pkt.has_temp (data_len r) s csum)

-- `host_request_expected_size`
pub expected_size : List ℕ → ℕ
expected_size r =
    if not (struct_version r == request_version)
    then 0
    else if nonzero (get_or r 5 0)
    then 0
    else header_size + data_len r

-- `host_packet_receive`
pub receive : HostPacket → Received
receive pkt =
    if nonzero pkt.driver_result
    then bad pkt.driver_result
    else if ltb pkt.request_size header_size
    then bad res_request_truncated
    else if ltb pkt.request_max pkt.request_size
    then bad res_request_truncated
    else if ltb pkt.response_max header_size
    then asserted
    else receive_data pkt (fetch pkt.has_temp header_size pkt.request 0)

-- What `host_packet_respond` leaves in the packet.
pub record Response : Type 0 where
  pub response : List ℕ
  pub response_size : ℕ
  pub driver_result : ℕ

-- `struct ec_host_response`, byte by byte.
abbrev pub response_header : ℕ → ℕ → ℕ → List ℕ
response_header checksum result len =
    response_version
    ∷ checksum
    ∷ result % 256
    ∷ result / 256 % 256
    ∷ len % 256
    ∷ len / 256 % 256
    ∷ 0
    ∷ 0
    ∷ []

-- `(uint8_t)(-csum)`
abbrev pub negate : ℕ → ℕ
negate csum = (256 - csum % 256) % 256

-- `host_packet_respond` from "Fill in response struct" on.
abbrev pub respond_with : List ℕ → ℕ × ℕ → Response
respond_with body (result, size) =
    let csum = (sum_loop header_size (response_header 0 result size) 0).0 in
    let csum' = (sum_loop size body csum).0 in
    record {
      response = response_header (negate csum') result size ++ body;
      response_size = header_size + size;
      driver_result = result;
    }

-- The result and size after clipping.
abbrev pub clip : ℕ → ℕ → ℕ → ℕ × ℕ
clip response_max result size =
    if nonzero result
    then (result, 0)
    else if ltb (response_max - header_size) size
    then (res_response_too_big, 0)
    else (result, size)

-- `host_packet_respond`, for the result, the response size and the data that the handler left
-- behind the header.
pub respond : ℕ → ℕ → ℕ → List ℕ → Response
respond response_max result size body = respond_with body (clip response_max result size)

-- `struct host_command`, with what the handler makes of its arguments.
pub record HostCommand : Type 0 where
  pub handler : Args → ℕ × List ℕ
  pub number : ℕ
  pub version_mask : ℕ

-- `find_host_command` on the table of commands.
pub find_host_command : ℕ → List HostCommand → Option HostCommand
find_host_command command [] = none
find_host_command command (c ∷ cs) =
    if command == c.number then some c else find_host_command command cs

-- `host_command_process` after its search: the status, with the response of a handler that is
-- called.
abbrev pub dispatch : Option HostCommand → Args → ℕ × List ℕ
dispatch none args = (res_invalid_command, [])
dispatch (some c) args =
    if nonzero (bit_and (2 ^ args.version) c.version_mask)
    then c.handler args
    else (res_invalid_version, [])

-- `host_command_process`
abbrev pub process : List HostCommand → Args → ℕ × List ℕ
process table args = dispatch (find_host_command args.command table) args
