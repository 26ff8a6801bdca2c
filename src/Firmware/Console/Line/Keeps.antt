-- ===== src/Firmware/Console/Line/Keeps.antt =====
-- firmware/PowerMon/src/main.c, `Run_Config`: what no typed character breaks.
use power_monitor.Prelude.{ℕ, zero, suc, not, ◌&&◌, ◌||◌, List, inl, inr, Bool-cases, ◌==◌}
use power_monitor.Firmware.Flash.{FlashDriver}
use power_monitor.Firmware.Eeprom.{Eeprom}
use power_monitor.Firmware.PowerChanel.{PowerChanel}
use power_monitor.Firmware.UartBuffer.{Uart, put_char, rx_ready, get_char}
use power_monitor.Firmware.UartBuffer.Pending.{put_string-keeps}
use power_monitor.Firmware.CmdProcessor.{cp_lookup}
use power_monitor.Firmware.Console.{System, system_commands}
use power_monitor.Firmware.Console.Keeps.{KeepsSettings, Kept, command-Kept}
use power_monitor.Firmware.Console.Line.{
  LineBuffer, store_char, c_string, run_command, handle_char, run_config,
}

module _ (d : FlashDriver) (build : List ℕ) (U : Uart → Type 0) (E : Eeprom d → Type 0)
    (Q : PowerChanel → Type 0) (L : LineBuffer → Type 0)
    (put : (u : Uart) (c : ℕ) → U u → U (put_char u c)) (settings : KeepsSettings d E Q build)
    (store : (l : LineBuffer) (c : ℕ) → L l → L (store_char l c))
    (clear : (l : LineBuffer) → L l → L (record l { size = 0 })) where
  abbrev KeptHere : System d build → Type 0
  KeptHere = Kept d build U E Q (put_string-keeps U put) settings

  run_command-Kept :
      (l : LineBuffer) (s : System d build) → KeptHere s → KeptHere (run_command d build l s).1
  unfolding run_command
  run_command-Kept l s k =
      let s' = record s { uart = put_char s.uart 10 } in
      let k' =
        command-Kept d build U E Q (put_string-keeps U put) settings (c_string l.msg_buf) s'
          (put s.uart 10 k.0, k.1, k.2, k.3) in
      let r = cp_lookup (c_string l.msg_buf) (system_commands d build) s' in
      (put_string-keeps U put r.state.uart r.buffer k'.0, k'.1, k'.2, k'.3)

  pub handle_char-Kept :
      (l : LineBuffer) (s : System d build) (c : ℕ)
      → L l
      → KeptHere s
      → let (l', s') = handle_char d build l s c in L l' × KeptHere s'
  unfolding handle_char run_command
  handle_char-Kept l s c typed k = elim (Bool-cases (c == 13 || c == 10)) [
    | inr e ↦ rw e (store l c typed, k)
    | inl e ↦ elim (Bool-cases (l.size == 0)) [
      | inl empty ↦ rw (e, empty) (typed, k)
      | inr line ↦ rw (e, line) (clear l typed, run_command-Kept l s k)
    ]
  ]

  pub run_config-Kept :
      (get : (u : Uart) → U u → U (get_char u).1) (fuel : ℕ) (l : LineBuffer) (s : System d build)
      → L l
      → KeptHere s
      → let (_, l', s') = run_config d build fuel l s in L l' × KeptHere s'
  unfolding run_config
  run_config-Kept get zero l s typed k = (typed, k)
  run_config-Kept get (suc fuel) l s typed k = elim (Bool-cases (rx_ready s.uart && not s.halted)) [
    | inr stop ↦ rw stop (typed, k)
    | inl go ↦
        let (c, u) = get_char s.uart in
        let (l', s') = handle_char d build l (record s { uart = u }) c in
        let (typed', k') =
          handle_char-Kept l (record s { uart = u }) c typed (get s.uart k.0, k.1, k.2, k.3) in
        rw go (run_config-Kept get fuel l' s' typed' k')
  ]
