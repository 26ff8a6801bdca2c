-- ===== src/Firmware/SysLog/Tests.antt =====
-- A log line on a transmitter that takes every character, and on one that takes none.
use power_monitor.Prelude.{ℕ, zero, suc, ◌≡◌, refl, true, [], ◌++◌, List, replicate, none, arith}
use power_monitor.Prelude.Text.{codes}
use power_monitor.Firmware.SysLog.{l_error, l_warning, get_warning_text}
use power_monitor.Firmware.SysLog.Filter.{log_line}
use power_monitor.Firmware.SysLog.Printed.{print_log, syslog_sent}
use power_monitor.Firmware.UartBuffer.{UsartEvent, Uart, init}
use power_monitor.Firmware.UartBuffer.Receive.{init-IsValid}
use power_monitor.Firmware.UartBuffer.Ring.{window_empty}
use power_monitor.Firmware.UartBuffer.Strings.{AllReady}
use power_monitor.Firmware.UartBuffer.Transmit.{queued}

abbrev ready : UsartEvent
ready = record { tx_empty = true; received = none }

abbrev events : List UsartEvent
events = replicate 14 ready

all_ready : (n : ℕ) → AllReady n (replicate n ready)
all_ready zero = tt
all_ready (suc n) = (refl, all_ready n)

abbrev taking : Uart
taking = init events

abbrev idle : Uart
idle = init []

syslog_sent_example :
    ((print_log l_warning l_error (codes "M") (codes "T") taking).sent
      ≡ taking.sent ++ log_line l_error (codes "M") (codes "T"))
    × (queued (print_log l_warning l_error (codes "M") (codes "T") taking) ≡ [])
unfolding init get_warning_text
syslog_sent_example =
    syslog_sent l_warning l_error (codes "M") (codes "T") taking (omega arith) (init-IsValid events)
      (window_empty taking.tx_buffer 0 (omega arith)) (all_ready 14)
