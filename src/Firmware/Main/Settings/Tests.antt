-- ===== src/Firmware/Main/Settings/Tests.antt =====
-- `calib sec 900`, a flush and a restart.
use power_monitor.Prelude.{ℕ, ◌≡◌, ◌<◌, refl, false, List, [], some, ◌==◌, if◌then◌else◌, arith}
use power_monitor.Prelude.Text.{
  codes, strncmp_eq, skip_space, skip_chars, number_value, scan_digits, FitsLong, to_word32,
}
use power_monitor.Firmware.Eeprom
use power_monitor.Firmware.Eeprom.{cache_flush}
use power_monitor.Firmware.Eeprom.Coherent.{Holds}
use power_monitor.Firmware.Eeprom.Settings.{init_token}
use power_monitor.Firmware.Eeprom.Trace.{init-Holds}
use power_monitor.Firmware.Eeprom.Words.{store4}
use power_monitor.Firmware.UartBuffer
use power_monitor.Firmware.CmdProcessor.{cp_skip_space, cp_skip_chars}
use power_monitor.Firmware.Console.{
  pri, sec, volt_address, System, chanel, parse_supply, cmd_volt_calib,
}
use power_monitor.Firmware.Main.{start_up}
use power_monitor.Firmware.Main.Bench.{
  board, polls, driver, bus, set_bus, token, flash, memory, memory-AreBytes, pri_ch, sec_ch, line,
}
use power_monitor.Firmware.Main.Settings.{Restored, calibration_survives}

abbrev system : System driver []
system = record {
  uart = UartBuffer.init [];
  pri_ch = pri_ch;
  sec_ch = sec_ch;
  eeprom = Eeprom.init driver flash token 4;
  halted = false;
}

abbrev argument : List ℕ
argument = codes " sec 900"

system-Holds : Holds driver system.eeprom memory
system-Holds = init-Holds driver flash token 4 tt (omega arith) (omega arith)

parsed : parse_supply (cp_skip_space argument) ≡ some sec
unfolding parse_supply strncmp_eq skip_space
parsed = refl

number : cp_skip_space (cp_skip_chars (cp_skip_space argument)) ≡ codes "900"
unfolding skip_space skip_chars
number = refl

nine_hundred : FitsLong (number_value (codes "900"))
unfolding number_value scan_digits
nine_hundred = omega arith

pages : 0 < system.eeprom.token.size
pages = rw (init_token driver flash token 4) (omega arith)

calibration_survives_example :
    let v = to_word32 (number_value (codes "900")) in
    let e = (cmd_volt_calib driver [] argument [] system).state.eeprom in
    let after =
      (start_up driver [] board polls bus set_bus
        (cache_flush driver e).1.flash
        e.token
        pri_ch
        sec_ch
        line
        []).system in
    ((chanel driver [] after sec).v_calib ≡ (if v == 0xFFFFFFFF then 856 else v))
    × Restored pri (store4 memory (volt_address sec) v) after.pri_ch
    × Restored sec (store4 memory (volt_address sec) v) after.sec_ch
calibration_survives_example =
    calibration_survives driver [] board polls bus set_bus sec argument [] system memory 57
      (codes "00") pri_ch sec_ch line [] parsed number nine_hundred pages memory-AreBytes
      system-Holds
