-- ===== src/Lib.antt =====
-- A model of parts of the firmware of the Chromium OS embedded controller (EC), with proofs. The EC
-- runs beside the application processor (AP, the host): it scans the keyboard, sequences power,
-- watches the AP, and talks to it through host commands, a page of registers and interrupt lines.
-- Each part here is a module; the paths are from the root of the repository.
--
-- The parts and their files
--   Common      Boolean tests on the native numbers, lists and rings that are indexed by them, and
--               the bits of a machine word, which `&`, `|` and `~` are read through.
--   Queue       common/queue.c and include/queue.h: a ring of bytes that stores units of one size.
--               `add_units` is queue_add_units, `remove_unit` queue_remove_unit, `has_space`
--               queue_has_space. Queue.Bytes and Queue.Invariant carry the ring of bytes,
--               Queue.Fifo the sequence of units that clients see.
--   HostEvent   common/host_event_commands.c over the host event half of chip/lm4/lpc.c. The two
--               files keep a copy of the pending events each; the record `HostEvents` has the statics of
--               both. `set_events` is host_set_events, `set_state` lpc_set_host_event_state,
--               `update_status` update_host_event_status, `query_state` lpc_query_host_event_state,
--               and `call` runs one host command on the masks and the copies.
--   Throttle    common/throttle_ap.c, which tells the host by a host event and the processor by a
--               pin. It calls `HostEvent.throttle_cpu`.
--   HangDetect  common/ap_hang_detect.c, a watchdog on the AP that sends a host event and then
--               resets the chipset. `expire` is hang_detect_deferred, which the hook task runs when
--               the delay that hook_call_deferred was given is over; `step` is one occurrence.
--   Mkbp        common/keyboard_mkbp.c: scans of the keyboard wait in a ring of sixteen for the
--               host, under an interrupt line. `fifo_add` is keyboard_fifo_add, `get_scan`
--               keyboard_get_scan, `set_config` host_command_mkbp_set_config; Mkbp.Host has the steps of
--               keyboard_get_scan.
--   HostCommand common/host_command.c: the packets of host protocol 3. `receive` is
--               host_packet_receive up to its call of host_command_received, `respond`
--               host_packet_respond, `process` host_command_process over a table of handlers.
--               HostCommand.Status is the way of a command through host_command_received and
--               host_command_task, with the commands that answer only later.
--   Port80      common/port80.c: `write` is port_80_write, `listed` what the command port80 prints.
--   Acpi        common/acpi.c: `ap_to_ec` is acpi_ap_to_ec, one byte from the host, over the query of
--               HostEvent. What it asks of the backlight, thermal.c and the charger is recorded.
--   Button      common/button.c: debouncing. `interrupt` is button_interrupt, `change_deferred` the
--               deferred call button_change_deferred.
--   Hook        common/hooks.c: `notify` is hook_notify, `call_deferred` hook_call_deferred; `run_deferred`,
--               `periodic` and `sleep` are the parts of one round of hook_task, with the interrupts
--               that come between as an argument.
--   Thermal     common/thermal.c over Util.Cond and Throttle: `control` is thermal_control on the
--               readings of one second.
--   Task        core/cortex-m/task.c: `svc_handler` is the service call, `set_event` and
--               `wait_event` the calls of a task up to their next point of preemption;
--               Task.Soundness has the steps that they and the interrupts make, in any order.
--               Task.Mutex is the mutex of the same file, one step for each access to it.
--   Uart        common/uart_buffering.c without DMA: `putc`, `puts` and `getc` are the calls of the
--               tasks, `process_output` and `process_input` those of the UART's interrupt. Uart.Line
--               says what they promise.
--   Printf      common/printf.c: `vfnprintf` over any sink for the characters, `snprintf` into a buffer.
--               One round of the loop is `next`, which reads a format and its arguments, and `emit`,
--               which sends the characters. Printf.Render has the text as a list, Printf.Number the
--               digits of a number. What C leaves undefined (a number that does not fit `intbuf`, a width or a
--               precision above an int, missing arguments) is a result of its own.
--   KeyScan     common/keyboard_scan.c: `check_keys_changed` is one scan, with the pins and the time as
--               arguments, `scan_init` keyboard_scan_init. KeyScan.Notice and KeyScan.Settle have its
--               two loops, KeyScan.World the scans and the calls of other tasks in any order. KeyScan.Pins
--               says what was last read of each key, also by scans that were stopped.
--   PowerButton common/power_button_x86.c: `state_machine` is one round of the task, `changed` and
--               `lid_change` the hooks, over the answers of the other parts.
--   Lid         common/lid_switch.c with keyboard_lid_change of common/keyboard_scan.c, over KeyScan.
--   Timer       common/timer.c: `arm` is timer_arm, `process_timers` the service of the timer interrupt
--               over the readings of the clock, by passes over the running timers (Timer.Pass).
--   Util        common/util.c: Memory has memcpy, memmove and memset over a memory by addresses,
--               Divmod uint64divmod, Cond the conditions with edges (cond_t), Text the string and
--               number functions.
--
-- How the code is read
--   A function that writes statics takes the record of them and returns the new one. An output
--   pointer is a component of the result. Loops are structural recursion: on the count of the bytes
--   or the bits that are left, or on the string, so that no fuel is needed. The loop of the ACPI
--   query has 32 rounds as in the source, the slow loop of uint64divmod one round for each bit. The
--   loop of uart_getc has one round for each place of the buffer. A pass over the timers has 33
--   rounds, one for each bit of the word and one more, and so has process_timers; the loop of
--   hook_notify has one round for each hook and one more. The loop of vfnprintf has one round for
--   each character of the format and of "ERROR" and two more, that of a number 65. That these are enough is proved.
--   Addresses, bytes and words are natural numbers. `~x` on a word of w bits is `complement w x`;
--   where a C sum or product could leave its type, the remainder by the power of two is written out,
--   or the theorem has the bound as a hypothesis. Subtraction is only used where a guard of the
--   code or an invariant keeps it above 0.
--   A run is a list of calls in any order, and interrupts and tasks interleave between calls, not
--   inside them, also where the code has no lock. In Task, Hook.Sleep and Mkbp.Host the interleaving
--   itself is modelled: one step for each atomic operation, and in Mkbp.Host one for the removal, the
--   test and the clearing of the line in keyboard_get_scan, where there is a race.
--
-- What is not modelled
--   Console commands and printed text, which only show or force the state, but for the list of port
--   80 codes; the registers of the chips, whose documented effect (an interrupt line, a status bit,
--   a pulse) is a field of the state; boards, drivers, power sequences, charging, USB power delivery
--   and the host's own tools.
pub mod Common
pub mod HostCommand
pub mod Queue
pub mod HostEvent
pub mod Throttle
pub mod HangDetect
pub mod Util
pub mod Mkbp
pub mod Port80
pub mod Acpi
pub mod Button
pub mod Hook
pub mod Thermal
pub mod Task
pub mod Uart
pub mod Timer
pub mod Printf
pub mod KeyScan
pub mod PowerButton
pub mod Lid
