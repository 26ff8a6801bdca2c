-- ===== src/Firmware/Console/Line/Tests.antt =====
-- `ver` and a line end, typed on an empty line.
use power_monitor.Prelude.{
  suc, ◌+◌, ◌<◌, ◌≡◌, refl, true, false, [], ◌∷◌, ◌++◌, none, some, replicate, arith, drop, values,
}
use power_monitor.Prelude.Text.{codes}
use power_monitor.Firmware.Flash.Ram.{ram}
use power_monitor.Firmware.Eeprom
use power_monitor.Firmware.PowerChanel.{PowerChanel}
use power_monitor.Firmware.UartBuffer.{Uart}
use power_monitor.Firmware.UartBuffer.Receive.{IsValid, received}
use power_monitor.Firmware.UartBuffer.Ring.{window}
use power_monitor.Firmware.UartBuffer.Pending.{pending}
use power_monitor.Firmware.Console.{System}
use power_monitor.Firmware.Console.Line.{LineBuffer, c_string, run_command, run_config}
use power_monitor.Firmware.Console.Line.Ends.{run_config_ends}
use power_monitor.Firmware.Console.Line.Typed.{ArePlain, empty, char}
use power_monitor.Firmware.Console.Line.Typing.{run_config-command}

abbrev idle : PowerChanel
idle = record { adc = none; volts = 0; v_calib = 1; volt_offset = 0 }

-- Four characters wait, and a line end comes while the echo goes out.
abbrev uart : Uart
uart = record {
  tx_buffer = replicate 256 0;
  rx_buffer = codes "ver" ++ (13 ∷ drop 4 (replicate 256 0));
  tx_in = 0;
  tx_out = 0;
  rx_in = 4;
  rx_out = 0;
  usart = record { tx_empty = true; received = some 13 } ∷ [];
  sent = [];
}

abbrev system : System ram []
system = record {
  uart = uart;
  pri_ch = idle;
  sec_ch = idle;
  eeprom =
      Eeprom.init ram (record { pages = λ q i. 0xFF; buffers = λ b i. 0 })
        (record { first_page = 100; size = 16 }) 4;
  halted = false;
}

abbrev line : LineBuffer
line = record { msg_buf = replicate 256 0; size = 0; overrun = false }

uart-IsValid : IsValid uart
uart-IsValid = record {
  tx_size = refl;
  rx_size = refl;
  tx_in_lt = omega arith;
  tx_out_lt = omega arith;
  rx_in_lt = omega arith;
  rx_out_lt = omega arith;
}

waiting : received uart ≡ codes "ver" ++ (13 ∷ [])
unfolding window values
waiting = refl

ver-ArePlain : ArePlain (codes "ver")
ver-ArePlain =
    char (record { no_end = refl; not_nul = refl })
      (char (record { no_end = refl; not_nul = refl })
        (char (record { no_end = refl; not_nul = refl }) empty))

few : pending uart < 6
unfolding pending window values
few = omega arith

run_config_ends_example : (run_config ram [] 6 line system).0 ≡ true
run_config_ends_example = run_config_ends ram [] 6 line system uart-IsValid few

run_config-command_example :
    (l' : LineBuffer) × (u : Uart) × (c_string l'.msg_buf ≡ codes "ver")
    × IsValid u
    × (received u ≡ [])
    × (run_config ram [] (suc (suc (2 + 2))) line system ≡ (
        let r = run_command ram [] l' (record system { uart = u }) in run_config ram [] 2 r.0 r.1))
run_config-command_example =
    run_config-command ram [] 118 (codes "er") [] 2 line system ver-ArePlain (omega arith) refl refl
      uart-IsValid refl waiting
