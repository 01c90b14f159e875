-- ===== src/HostCommand/Status/Slow.antt =====
-- The life of a slow command in common/host_command.c.
use chromium_ec.Common.{ℕ, zero, suc}
use chromium_ec.HostCommand.Status.{
  Request, Status, Handler, received, finish, run_task, res_in_progress, cmd_get_comms_status,
  cmd_resend_response,
}

-- A valid command as the interface passes it on.
abbrev pub request : ℕ → Request
request c = record { command = c; result = 0; response_size = 0; flags = 0 }

-- The answers to a status query while a command is in progress, and to the slow command itself.
abbrev pub processing : Request
processing = record { command = cmd_get_comms_status; result = 0; response_size = 4; flags = 1 }

abbrev pub in_progress : ℕ → Request
in_progress c = record { command = c; result = res_in_progress; response_size = 0; flags = 0 }

-- `count` status queries.
abbrev pub poll : ℕ → Status → Status
poll zero s = s
poll (suc count) s = received (request cmd_get_comms_status) (poll count s)

module _ (other : ℕ → Handler) where
  -- The command `c`, `count` queries while it works, and its end with `result`.
  abbrev pub ended : ℕ → ℕ → ℕ → Status → Status
  ended c count result s = finish result (poll count (run_task other (received (request c) s)))

  -- The query of the result.
  abbrev pub resent : Status → Status
  resent s = run_task other (received (request cmd_resend_response) s)

-- The static after the queries.
abbrev polled : ℕ → Request → Request
polled zero args = args
polled (suc count) args = processing
