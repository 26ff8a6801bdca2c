-- ===== src/Firmware/Console.antt =====
-- firmware/PowerMon/src/main.c: the commands of the serial console, their table, and the line
-- editor `Run_Config`. config/conf_eeprom.h has the addresses of the settings.
pub mod Keeps
pub mod Line
pub mod Replies
pub mod Settings
use power_monitor.Prelude.{
  ℕ, zero, suc, ◌+◌, ◌*◌, ◌%◌, ◌^◌, Bool, true, false, ◌||◌, List, [], ◌∷◌, ◌++◌, Option, none,
  some, length, get_or, set, replicate, ltb, ◌==◌, if◌then◌else◌,
}
use power_monitor.Prelude.Text.{
  codes, strncmp_eq, format_unsigned, format_signed, format_hex, atol, to_word32,
}
use power_monitor.Firmware.Flash.{FlashDriver}
use power_monitor.Firmware.Eeprom.{Eeprom}
use power_monitor.Firmware.Eeprom.Bytes.{read4_default, write4}
use power_monitor.Firmware.PowerChanel
use power_monitor.Firmware.PowerChanel.{PowerChanel}
use power_monitor.Firmware.UartBuffer.{Uart, put_char, put_string, rx_ready, get_char}
use power_monitor.Firmware.CmdProcessor.{
  Status, done, failed, Reply, CmdHandler, CmdTable, cp_lookup, cp_skip_chars, cp_skip_space,
}

-- `ch` of the commands: 1 and 2.
pub data Supply : Type 0 where
  pri sec : Supply

abbrev pub supply_name : Supply → List ℕ
supply_name pri = codes "Pri"
supply_name sec = codes "Sec"

-- `EE_CH_1_VOLT`, `EE_CH_2_VOLT`, `EE_CH_1_VOLT_OFFSET` and `EE_CH_2_VOLT_OFFSET`
abbrev pub volt_address : Supply → ℕ
volt_address pri = 0x0002
volt_address sec = 0x0006

abbrev pub volt_offset_address : Supply → ℕ
volt_offset_address pri = 0x000A
volt_offset_address sec = 0x000E

-- The tests at the head of each command: `sec` first, then `pri`.
unfoldable pub parse_supply : List ℕ → Option Supply
parse_supply argument =
    if strncmp_eq (codes "sec") argument 3
    then some sec
    else if strncmp_eq (codes "pri") argument 3
    then some pri
    else none

-- The line end of every reply.
abbrev pub crlf : List ℕ
crlf = 13 ∷ 10 ∷ []

-- `RX_SIZE`
abbrev pub rx_size : ℕ
rx_size = 256

-- `build` is the text of `__DATE__" "__TIME__`.
module _ (d : FlashDriver) (build : List ℕ) where
  -- What the commands work on. `halted` is the endless loop of `Cmd_Restart`, which ends by a reset.
  pub record System : Type 0 where
    pub uart : Uart
    pub pri_ch : PowerChanel
    pub sec_ch : PowerChanel
    pub eeprom : Eeprom d
    pub halted : Bool

  unfoldable pub chanel : System → Supply → PowerChanel
  chanel s pri = s.pri_ch
  chanel s sec = s.sec_ch

  unfoldable pub set_chanel : System → Supply → PowerChanel → System
  set_chanel s pri p = record s { pri_ch = p }
  set_chanel s sec p = record s { sec_ch = p }

  -- `return -1`, with the buffer as it was.
  abbrev pub refuse : List ℕ → System → Reply System
  refuse buffer s = record { status = failed; buffer = buffer; state = s }

  -- `return 0` behind `sprintf(resp->buffer, …)`.
  abbrev pub answer : List ℕ → System → Reply System
  answer text s = record { status = done; buffer = text; state = s }

  pub cmd_version : CmdHandler System
  cmd_version argument buffer s =
      answer (codes "Ver: Power Monitor Rev0, V0.1, " ++ (build ++ crlf)) s

  pub cmd_current : CmdHandler System
  cmd_current argument buffer s = elim (parse_supply (cp_skip_space argument)) [
    | none ↦ refuse buffer s
    | some ch ↦
        answer
          (codes "Current: "
            ++ (supply_name ch
                ++ (codes " "
                    ++ (format_signed (PowerChanel.get_current (chanel s ch))
                        ++ (codes " mA" ++ crlf)))))
          s
  ]

  pub cmd_voltage : CmdHandler System
  cmd_voltage argument buffer s = elim (parse_supply (cp_skip_space argument)) [
    | none ↦ refuse buffer s
    | some ch ↦
        answer
          (codes "Voltage: "
            ++ (supply_name ch
                ++ (codes " "
                    ++ (format_unsigned (PowerChanel.get_volts (chanel s ch))
                        ++ (codes " mV" ++ crlf)))))
          s
  ]

  pub cmd_voltage_raw : CmdHandler System
  cmd_voltage_raw argument buffer s = elim (parse_supply (cp_skip_space argument)) [
    | none ↦ refuse buffer s
    | some ch ↦
        let v = PowerChanel.get_volts_raw (chanel s ch) in
        answer
          (codes "RawV: "
            ++ (supply_name ch
                ++ (codes " " ++ (format_hex 8 v ++ (codes ", " ++ (format_signed v ++ crlf))))))
          s
  ]

  -- `rawc` prints the current, too, not a raw reading.
  pub cmd_current_raw : CmdHandler System
  cmd_current_raw argument buffer s = elim (parse_supply (cp_skip_space argument)) [
    | none ↦ refuse buffer s
    | some ch ↦
        answer
          (codes "RawC: "
            ++ (supply_name ch
                ++ (codes " " ++ (format_hex 8 (PowerChanel.get_current (chanel s ch)) ++ crlf))))
          s
  ]

  -- `Cmd_Restart` does not return.
  pub cmd_restart : CmdHandler System
  cmd_restart argument buffer s =
      let u = put_string s.uart (codes "System Restarting" ++ crlf) in
      record { status = done; buffer = buffer; state = record s { uart = u; halted = true } }

  unfoldable pub read_volt_calibration : Eeprom d → Supply → ℕ × Eeprom d
  read_volt_calibration e ch = read4_default d e (volt_address ch) 856

  unfoldable pub write_volt_calibration : Eeprom d → Supply → ℕ → Eeprom d
  write_volt_calibration e ch v = write4 d e (volt_address ch) v

  unfoldable pub read_volt_offset : Eeprom d → Supply → ℕ × Eeprom d
  read_volt_offset e ch = read4_default d e (volt_offset_address ch) 1

  unfoldable pub write_volt_offset : Eeprom d → Supply → ℕ → Eeprom d
  write_volt_offset e ch v = write4 d e (volt_offset_address ch) v

  -- The `if ( *argument )` of `Cmd_VoltCalib`.
  pub store_calibration : Supply → List ℕ → System → System
  store_calibration ch [] s = s
  store_calibration ch (c ∷ rest) s =
      let v = to_word32 (atol (c ∷ rest)) in
      let s' = record s { eeprom = write_volt_calibration s.eeprom ch v } in
      set_chanel s' ch (PowerChanel.set_volt_calib (chanel s' ch) v)

  pub cmd_volt_calib : CmdHandler System
  cmd_volt_calib argument buffer s = elim (parse_supply (cp_skip_space argument)) [
    | none ↦ refuse buffer s
    | some ch ↦
        let rest = cp_skip_space (cp_skip_chars (cp_skip_space argument)) in
        let s' = store_calibration ch rest s in
        let (v, e) = read_volt_calibration s'.eeprom ch in
        answer
          (codes "Volt Calib " ++ (supply_name ch ++ (codes ": " ++ (format_unsigned v ++ crlf))))
          (record s' { eeprom = e })
  ]

  pub store_offset : Supply → List ℕ → System → System
  store_offset ch [] s = s
  store_offset ch (c ∷ rest) s =
      let v = to_word32 (atol (c ∷ rest)) in
      let s' = record s { eeprom = write_volt_offset s.eeprom ch v } in
      set_chanel s' ch (PowerChanel.set_volt_offset (chanel s' ch) v)

  pub cmd_volt_offset : CmdHandler System
  cmd_volt_offset argument buffer s = elim (parse_supply (cp_skip_space argument)) [
    | none ↦ refuse buffer s
    | some ch ↦
        let rest = cp_skip_space (cp_skip_chars (cp_skip_space argument)) in
        let s' = store_offset ch rest s in
        let (v, e) = read_volt_offset s'.eeprom ch in
        answer
          (codes "Volt Offset " ++ (supply_name ch ++ (codes ": " ++ (format_signed v ++ crlf))))
          (record s' { eeprom = e })
  ]

  -- `SystemCommands`
  pub system_commands : CmdTable System
  system_commands =
      (codes "restart", cmd_restart)
      ∷ (codes "current", cmd_current)
      ∷ (codes "volt", cmd_voltage)
      ∷ (codes "rawv", cmd_voltage_raw)
      ∷ (codes "rawc", cmd_current_raw)
      ∷ (codes "calib", cmd_volt_calib)
      ∷ (codes "offset", cmd_volt_offset)
      ∷ (codes "ver", cmd_version)
      ∷ []
