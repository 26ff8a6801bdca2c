-- ===== src/Firmware/Console/Keeps.antt =====
-- firmware/PowerMon/src/main.c: what no command of the console breaks. A command touches the USART
-- by `UartBuffer_PutString` only, and the EEPROM by the calls on a setting only.
use power_monitor.Prelude.{ℕ, List, [], ◌∷◌, inl, inr, Option-cases, ◌^◌, ◌<◌}
use power_monitor.Prelude.Text.{atol, to_word32}
use power_monitor.Firmware.Flash.{FlashDriver}
use power_monitor.Firmware.Eeprom.{Eeprom}
use power_monitor.Firmware.PowerChanel.{PowerChanel, set_volt_calib, set_volt_offset}
use power_monitor.Firmware.Console.Settings.{to_word32-lt}
use power_monitor.Firmware.UartBuffer.{Uart, put_string}
use power_monitor.Firmware.CmdProcessor.{cp_skip_space, cp_skip_chars, cp_lookup}
use power_monitor.Firmware.CmdProcessor.Keeps.{Keeps, AllKeep, end, entry, cp_lookup-Keeps}
use power_monitor.Firmware.Console.{
  Supply, pri, sec, parse_supply, System, chanel, set_chanel, cmd_version, cmd_current, cmd_voltage,
  cmd_voltage_raw, cmd_current_raw, cmd_restart, cmd_volt_calib, cmd_volt_offset,
  read_volt_calibration, read_volt_offset, write_volt_calibration, write_volt_offset,
  store_calibration, store_offset, system_commands,
}

-- What the state of the EEPROM keeps through the calls on a setting.
pub record KeepsSettings (d : FlashDriver) (E : Eeprom d → Type 0) (Q : PowerChanel → Type 0)
    (build : List ℕ) : Type 0 where
  pub read_calib : (e : Eeprom d) (ch : Supply) → E e → E (read_volt_calibration d build e ch).1
  pub read_offset : (e : Eeprom d) (ch : Supply) → E e → E (read_volt_offset d build e ch).1
  pub write_calib :
      (e : Eeprom d) (ch : Supply) (v : ℕ)
      → v < 2 ^ 32
      → E e
      → E (write_volt_calibration d build e ch v)
  pub write_offset :
      (e : Eeprom d) (ch : Supply) (v : ℕ) → v < 2 ^ 32 → E e → E (write_volt_offset d build e ch v)
  pub set_calib : (p : PowerChanel) (v : ℕ) → v < 2 ^ 32 → Q p → Q (set_volt_calib p v)
  pub set_offset : (p : PowerChanel) (v : ℕ) → v < 2 ^ 32 → Q p → Q (set_volt_offset p v)

module _ (d : FlashDriver) (build : List ℕ) (U : Uart → Type 0) (E : Eeprom d → Type 0)
    (Q : PowerChanel → Type 0) (put : (u : Uart) (text : List ℕ) → U u → U (put_string u text))
    (settings : KeepsSettings d E Q build) where
  abbrev pub Kept : System d build → Type 0
  Kept s = U s.uart × E s.eeprom × Q s.pri_ch × Q s.sec_ch

  cmd_version-Keeps : Keeps Kept (cmd_version d build)
  unfolding cmd_version
  cmd_version-Keeps argument buffer s k = k

  cmd_current-Keeps : Keeps Kept (cmd_current d build)
  unfolding cmd_current
  cmd_current-Keeps argument buffer s k =
      elim (Option-cases (parse_supply (cp_skip_space argument))) [
        | inl e ↦ rw (e, cmd_current) k
        | inr (ch, e) ↦ rw (e, cmd_current) k
      ]

  cmd_voltage-Keeps : Keeps Kept (cmd_voltage d build)
  unfolding cmd_voltage
  cmd_voltage-Keeps argument buffer s k =
      elim (Option-cases (parse_supply (cp_skip_space argument))) [
        | inl e ↦ rw (e, cmd_voltage) k
        | inr (ch, e) ↦ rw (e, cmd_voltage) k
      ]

  cmd_voltage_raw-Keeps : Keeps Kept (cmd_voltage_raw d build)
  unfolding cmd_voltage_raw
  cmd_voltage_raw-Keeps argument buffer s k =
      elim (Option-cases (parse_supply (cp_skip_space argument))) [
        | inl e ↦ rw (e, cmd_voltage_raw) k
        | inr (ch, e) ↦ rw (e, cmd_voltage_raw) k
      ]

  cmd_current_raw-Keeps : Keeps Kept (cmd_current_raw d build)
  unfolding cmd_current_raw
  cmd_current_raw-Keeps argument buffer s k =
      elim (Option-cases (parse_supply (cp_skip_space argument))) [
        | inl e ↦ rw (e, cmd_current_raw) k
        | inr (ch, e) ↦ rw (e, cmd_current_raw) k
      ]

  cmd_restart-Keeps : Keeps Kept (cmd_restart d build)
  unfolding cmd_restart
  cmd_restart-Keeps argument buffer s k = (put s.uart _ k.0, k.1, k.2, k.3)

  Kept-chanel : (s : System d build) (ch : Supply) → Kept s → Q (chanel d build s ch)
  unfolding chanel
  Kept-chanel s pri k = k.2
  Kept-chanel s sec k = k.3

  set_chanel-Kept :
      (s : System d build) (ch : Supply) (p : PowerChanel)
      → Q p
      → Kept s
      → Kept (set_chanel d build s ch p)
  unfolding set_chanel
  set_chanel-Kept s pri p q k = (k.0, k.1, q, k.3)
  set_chanel-Kept s sec p q k = (k.0, k.1, k.2, q)

  store_calibration-Kept :
      (ch : Supply) (rest : List ℕ) (s : System d build)
      → Kept s
      → Kept (store_calibration d build ch rest s)
  unfolding store_calibration
  store_calibration-Kept ch [] s k = k
  store_calibration-Kept ch (c ∷ rest) s k =
      let v = to_word32 (atol (c ∷ rest)) in
      let lt = to_word32-lt (atol (c ∷ rest)) in
      let s' = record s { eeprom = write_volt_calibration d build s.eeprom ch v } in
      let k' : Kept s' = (k.0, settings.write_calib s.eeprom ch v lt k.1, k.2, k.3) in
      set_chanel-Kept s' ch (set_volt_calib (chanel d build s' ch) v)
        (settings.set_calib (chanel d build s' ch) v lt (Kept-chanel s' ch k')) k'

  cmd_volt_calib-Keeps : Keeps Kept (cmd_volt_calib d build)
  unfolding cmd_volt_calib
  cmd_volt_calib-Keeps argument buffer s k =
      elim (Option-cases (parse_supply (cp_skip_space argument))) [
        | inl e ↦ rw (e, cmd_volt_calib) k
        | inr (ch, e) ↦
            let rest = cp_skip_space (cp_skip_chars (cp_skip_space argument)) in
            let k' = store_calibration-Kept ch rest s k in
            rw (e, cmd_volt_calib)
              (
                k'.0,
                settings.read_calib (store_calibration d build ch rest s).eeprom ch k'.1,
                k'.2,
                k'.3,
              )
      ]

  store_offset-Kept :
      (ch : Supply) (rest : List ℕ) (s : System d build)
      → Kept s
      → Kept (store_offset d build ch rest s)
  unfolding store_offset
  store_offset-Kept ch [] s k = k
  store_offset-Kept ch (c ∷ rest) s k =
      let v = to_word32 (atol (c ∷ rest)) in
      let lt = to_word32-lt (atol (c ∷ rest)) in
      let s' = record s { eeprom = write_volt_offset d build s.eeprom ch v } in
      let k' : Kept s' = (k.0, settings.write_offset s.eeprom ch v lt k.1, k.2, k.3) in
      set_chanel-Kept s' ch (set_volt_offset (chanel d build s' ch) v)
        (settings.set_offset (chanel d build s' ch) v lt (Kept-chanel s' ch k')) k'

  cmd_volt_offset-Keeps : Keeps Kept (cmd_volt_offset d build)
  unfolding cmd_volt_offset
  cmd_volt_offset-Keeps argument buffer s k =
      elim (Option-cases (parse_supply (cp_skip_space argument))) [
        | inl e ↦ rw (e, cmd_volt_offset) k
        | inr (ch, e) ↦
            let rest = cp_skip_space (cp_skip_chars (cp_skip_space argument)) in
            let k' = store_offset-Kept ch rest s k in
            rw (e, cmd_volt_offset)
              (
                k'.0,
                settings.read_offset (store_offset d build ch rest s).eeprom ch k'.1,
                k'.2,
                k'.3,
              )
      ]

  system_commands-AllKeep : AllKeep Kept (system_commands d build)
  unfolding system_commands
  system_commands-AllKeep = entry cmd_restart-Keeps (
      entry cmd_current-Keeps (
        entry cmd_voltage-Keeps (
          entry cmd_voltage_raw-Keeps (
            entry cmd_current_raw-Keeps (
              entry cmd_volt_calib-Keeps
                (entry cmd_volt_offset-Keeps (entry cmd_version-Keeps end)))))))

  -- A command line keeps what the calls keep.
  pub command-Kept :
      (line : List ℕ) (s : System d build)
      → Kept s
      → Kept (cp_lookup line (system_commands d build) s).state
  command-Kept line s k =
      cp_lookup-Keeps Kept line (system_commands d build) s system_commands-AllKeep k
