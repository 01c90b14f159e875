-- ===== src/HostCommand/Status.antt =====
-- common/host_command.c under CONFIG_HOST_COMMAND_STATUS: how a command gets from the interface to
-- the task of the host commands and its answer back, with the slow commands, which send
-- EC_RES_IN_PROGRESS from inside their handlers, as flash_command_erase of common/flash.c does, and
-- go on. The arguments of every command are in the one static of the interface (`args0`, or
-- `host_cmd_args` of chip/lm4/lpc.c), which the next command overwrites. The handlers of the other
-- commands are an argument. system_reset, which is meant not to return, is counted; debugging
-- output, versions and the hang detector are left out.
pub mod Slow
mod Tests
use chromium_ec.Common.{ℕ, suc, Bool, true, false, not, List, ◌∷◌, ◌==◌, nonzero, if◌then◌else◌}

-- EC_RES_ERROR, EC_RES_IN_PROGRESS and EC_RES_UNAVAILABLE
abbrev pub res_error : ℕ
res_error = 2

abbrev pub res_in_progress : ℕ
res_in_progress = 8

abbrev pub res_unavailable : ℕ
res_unavailable = 9

-- EC_CMD_GET_COMMS_STATUS, EC_CMD_REBOOT and EC_CMD_RESEND_RESPONSE
abbrev pub cmd_get_comms_status : ℕ
cmd_get_comms_status = 0x09

abbrev pub cmd_reboot : ℕ
cmd_reboot = 0xd1

abbrev pub cmd_resend_response : ℕ
cmd_resend_response = 0xdb

-- `struct host_cmd_handler_args`, with the flags of a response to EC_CMD_GET_COMMS_STATUS.
pub record Request : Type 0 where
  pub command : ℕ
  pub result : ℕ
  pub response_size : ℕ
  pub flags : ℕ

-- The statics, whether TASK_EVENT_CMD_PENDING is set, and what `send_response` has passed on, the
-- newest first. `pending_args` points to `args0` once the event has been set.
pub record Status : Type 0 where
  pub args0 : Request
  pub command_pending : Bool
  pub saved_result : ℕ
  pub event_pending : Bool
  pub resets : ℕ
  pub sent : List Request

-- A handler returns at once, with its value and the size of the response, or it sends
-- EC_RES_IN_PROGRESS and goes on to work.
pub data Handler : Type 0 where
  direct : ℕ → ℕ → Handler
  slow : Handler

-- Writes the result of the command in `args0`.
abbrev pub set_result : ℕ → Status → Status
set_result rv s = record s { args0 = record s.args0 { result = rv } }

-- `host_send_response` of `args0`
pub send_response : Bool → Status → Status
send_response in_interrupt s =
    let out = record s { sent = s.args0 ∷ s.sent } in
    if in_interrupt
    then out
    else if s.command_pending
    then record s {
      saved_result = if nonzero s.args0.response_size then res_unavailable else s.args0.result;
      command_pending = false;
    }
    else if s.args0.result == res_in_progress
    then record out { command_pending = true }
    else out

-- `host_command_get_comms_status`
pub get_comms_status : Status → ℕ × Status
get_comms_status s = (
  0,
  record s {
    args0 = record s.args0 { flags = if s.command_pending then 1 else 0; response_size = 4 };
  },
)

-- `host_command_resend_response`
pub resend_response : Status → ℕ × Status
resend_response s = (
  0,
  record s {
    args0 = record s.args0 { result = s.saved_result; response_size = 0 };
    saved_result = res_unavailable;
  },
)

-- `host_command_received`, in interrupt context, once the interface has written `args` to its
-- static. host_command_process calls `get_comms_status` for its command.
pub received : Request → Status → Status
received args s =
    let reboots = args.command == cmd_reboot in
    let taken = record s { args0 = args } in
    let s' =
      if reboots
      then record taken { args0 = record args { result = res_error }; resets = suc s.resets }
      else taken in
    let (rv, s'') = get_comms_status s' in
    if nonzero s'.args0.result
    then send_response true s'
    else if s'.args0.command == cmd_get_comms_status
    then send_response true (set_result rv s'')
    else record s' { event_pending = true }

-- What `host_command_task` does when a handler returns `rv`.
pub finish : ℕ → Status → Status
finish rv s = send_response false (set_result rv s)

-- `host_command_task`, at an event TASK_EVENT_CMD_PENDING, with `host_command_process`. A slow
-- handler is left at work; `finish` is its return.
pub run_task : (ℕ → Handler) → Status → Status
run_task other s =
    let taken = record s { event_pending = false } in
    if not s.event_pending
    then s
    else if s.args0.command == cmd_get_comms_status
    then (let (rv, s') = get_comms_status taken in finish rv s')
    else if s.args0.command == cmd_resend_response
    then (let (rv, s') = resend_response taken in finish rv s')
    else elim (other s.args0.command) [
      | direct rv size ↦
          finish rv (record taken { args0 = record s.args0 { response_size = size } })
      | slow ↦ send_response false (set_result res_in_progress taken)
    ]
