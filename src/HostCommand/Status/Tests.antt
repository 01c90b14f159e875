-- ===== src/HostCommand/Status/Tests.antt =====
-- A slow command of common/host_command.c that fails with EC_RES_ERROR.
use chromium_ec.Common.{ℕ, false, [], if◌then◌else◌, ◌==◌}
use chromium_ec.HostCommand.Status.{Status, Handler, direct, slow, res_unavailable}
use chromium_ec.HostCommand.Status.Slow.{request}

abbrev idle : Status
idle = record {
  args0 = request 0;
  command_pending = false;
  saved_result = res_unavailable;
  event_pending = false;
  resets = 0;
  sent = [];
}

-- The command 19, EC_CMD_FLASH_ERASE, is slow, and the others succeed.
abbrev handlers : ℕ → Handler
handlers c = if c == 19 then slow else direct 0 0
