-- ===== src/HostCommand/Tests.antt =====
-- common/host_command.c on concrete packets.
use chromium_ec.Common.{◌≡◌, refl, true, [], ◌∷◌, arith}
use chromium_ec.HostCommand.{HostPacket, Args, receive, chained, fetch, copy_loop, respond}
use chromium_ec.HostCommand.Receive.{
  IsDelivered, IsRequest, Carries, receive-Carries, receive-IsRequest,
}
use chromium_ec.HostCommand.Respond.{IsResponse, seen, respond-IsResponse}

-- Command 0x102 of version 1 with three bytes of data, and a byte of padding.
abbrev hello : HostPacket
hello = record {
  request = 3 ∷ 217 ∷ 2 ∷ 1 ∷ 1 ∷ 0 ∷ 3 ∷ 0 ∷ 7 ∷ 8 ∷ 14 ∷ 99 ∷ [];
  has_temp = true;
  request_max = 64;
  request_size = 12;
  response_max = 32;
  driver_result = 0;
}

abbrev hello_args : Args
hello_args = record {
  command = 258;
  version = 1;
  params = 7 ∷ 8 ∷ 14 ∷ [];
  params_size = 3;
  response_max = 24;
}

receive-hello : receive hello ≡ chained hello_args
unfolding receive fetch copy_loop
receive-hello = refl

receive-Carries_example :
    (args : Args) × (receive hello ≡ chained args) × Carries hello.request args
receive-Carries_example =
    receive-Carries hello (record { no_error = refl; fits = omega arith; room = omega arith })
      (record { version_is = refl; size_is = omega arith; sum_is = refl })

receive-IsRequest_example :
    IsDelivered hello × IsRequest hello.request 12 × Carries hello.request hello_args
receive-IsRequest_example = receive-IsRequest receive-hello

respond-IsResponse_example :
    IsResponse 32 (5 ∷ 6 ∷ 200 ∷ []) (seen 32 0 3) (respond 32 0 3 (5 ∷ 6 ∷ 200 ∷ []))
respond-IsResponse_example =
    respond-IsResponse 32 0 3 (5 ∷ 6 ∷ 200 ∷ []) (omega arith) (omega arith) (omega arith)
