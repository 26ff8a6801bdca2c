-- ===== src/Firmware/SysLog/Printed.antt =====
-- firmware/PowerMon/src/SysLog.c over UartBuffer.c: log lines through `UartBuffer_PutString`, the
-- response function that `main` of main.c sets.
use power_monitor.Prelude.{ℕ, ◌≤◌, ◌≡◌, refl, false, List, [], ◌++◌, some, length, ltb, arith}
use power_monitor.Firmware.SysLog.{init, emit, syslog}
use power_monitor.Firmware.SysLog.Filter.{log_line}
use power_monitor.Firmware.UartBuffer.{Uart, put_string}
use power_monitor.Firmware.UartBuffer.Receive.{IsValid}
use power_monitor.Firmware.UartBuffer.Strings.{AllReady, put_string_sent, put_string-append}
use power_monitor.Firmware.UartBuffer.Transmit.{queued}

-- `Syslog` behind `Syslog_Init(print_level, UartBuffer_PutString)`.
abbrev pub print_log : ℕ → ℕ → List ℕ → List ℕ → Uart → Uart
print_log print_level level mod_name text u =
    syslog (init print_level (some (λ t v. put_string v t))) level mod_name text u

-- The calls of the response function are one call with the whole line.
emit_line :
    (level : ℕ) (mod_name text : List ℕ) (u : Uart)
    → emit (λ t v. put_string v t) level mod_name text u
      ≡ put_string u (log_line level mod_name text)
unfolding emit
emit_line level mod_name text u = simp (put_string-append) refl

print_log_line :
    (print_level level : ℕ) (mod_name text : List ℕ) (u : Uart)
    → print_level ≤ level
    → print_log print_level level mod_name text u ≡ put_string u (log_line level mod_name text)
unfolding syslog init
print_log_line print_level level mod_name text u le =
    let above : ltb level print_level ≡ false = ground (arith, le) in
    rw above (emit_line level mod_name text u)

-- Behind `Syslog_Init` with `UartBuffer_PutString`, from a valid state of the rings with nothing
-- queued, where the transmitter is ready at each of the calls, a message at or above the print
-- level sends its whole line, `>> LEVEL,MODULE,TEXT` and the line end, behind what was sent before,
-- and leaves the queue empty.
pub syslog_sent :
    (print_level level : ℕ) (mod_name text : List ℕ) (u : Uart)
    → print_level ≤ level
    → IsValid u
    → queued u ≡ []
    → AllReady (length (log_line level mod_name text)) u.usart
    → ((print_log print_level level mod_name text u).sent ≡ u.sent ++ log_line level mod_name text)
      × (queued (print_log print_level level mod_name text u) ≡ [])
syslog_sent print_level level mod_name text u le v idle ready =
    rw (print_log_line print_level level mod_name text u le)
      (put_string_sent (log_line level mod_name text) u v idle ready)
