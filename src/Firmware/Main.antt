-- ===== src/Firmware/Main.antt =====
-- firmware/PowerMon/src/main.c: the settings that `main` restores, and one round of its loop.
pub mod Bench
pub mod Bus
pub mod OnChip
pub mod Invariant
pub mod Interleaved
pub mod Phases
pub mod PowerOn
pub mod Preempted
pub mod Rounds
pub mod Settings
use power_monitor.Prelude.{
  zero, suc, ℕ, Bool, true, false, not, ◌++◌, List, Option, none, some, if◌then◌else◌,
}
use power_monitor.Firmware.Board.{Board}
use power_monitor.Firmware.Flash.{DfToken, FlashDriver}
use power_monitor.Firmware.Eeprom.{cache_check}
use power_monitor.Firmware.Heartbeat
use power_monitor.Firmware.SysLog
use power_monitor.Firmware.SysLog.{l_diag, syslog}
use power_monitor.Firmware.UartBuffer
use power_monitor.Firmware.Eeprom
use power_monitor.Prelude.Text.{codes}
use power_monitor.Firmware.Heartbeat.{tick, reset, Heartbeat, is_10ms, is_1s}
use power_monitor.Firmware.UartBuffer.{UsartEvent, put_string, interrupt}
use power_monitor.Firmware.PowerChanel
use power_monitor.Firmware.PowerChanel.{PowerChanel, set_volt_calib, set_volt_offset}
use power_monitor.Firmware.Console.{
  crlf, Supply, pri, sec, System, chanel, set_chanel, read_volt_calibration, read_volt_offset,
}
use power_monitor.Firmware.Console.Line.{LineBuffer, run_config}

-- Where `main` stands in its loop: in front of one of its five calls.
pub data Phase : Type 0 where
  at_heartbeat at_interrupt at_config at_10ms at_1s : Phase

-- The flash and the converters share the bus: `bus` and `set_bus` are its state in that of the
-- flash driver.
module _ (d : FlashDriver) (build : List ℕ) (b : Board) (miso_polls : b.State → ℕ)
    (bus : d.State → b.State) (set_bus : d.State → b.State → d.State) where
  -- The variables of `main` beside those of the console: the line that is typed, the counters, and
  -- `state`.
  pub record Machine : Type 0 where
    pub system : System d build
    pub line : LineBuffer
    pub heart : Heartbeat
    pub light : Bool

  -- `PowerChan_SetVoltCalib` and `PowerChan_SetVoltOffset` of a channel, from the EEPROM.
  pub restore : Supply → System d build → System d build
  restore ch s =
      let (v, e) = read_volt_calibration d build s.eeprom ch in
      let s₁ =
        set_chanel d build (record s { eeprom = e }) ch (set_volt_calib (chanel d build s ch) v) in
      let (o, e') = read_volt_offset d build s₁.eeprom ch in
      set_chanel d build (record s₁ { eeprom = e' }) ch (set_volt_offset (chanel d build s₁ ch) o)

  -- The four calls behind `EE_Init`.
  pub restore_settings : System d build → System d build
  unfolding restore
  restore_settings s = restore sec (restore pri s)

  -- `main` before its loop. The flash is as `DFS_ReadChipID` leaves it, the channels are those of
  -- `PowerChan_Init`, and `usart` is what the USART will answer.
  pub start_up :
      d.State → DfToken → PowerChanel → PowerChanel → LineBuffer → List UsartEvent → Machine
  unfolding restore_settings
  start_up flash token pri_ch sec_ch line usart =
      let s : System d build = record {
        uart = UartBuffer.init usart;
        pri_ch = pri_ch;
        sec_ch = sec_ch;
        eeprom = Eeprom.init d flash token 4;
        halted = false;
      } in
      let s' = restore_settings s in
      let log = SysLog.init l_diag (some (λ text u. put_string u text)) in
      let u = put_string s'.uart (crlf ++ (codes "System Startup" ++ crlf)) in
      record {
        system = record s' { uart = syslog log l_diag (codes "MAIN") (codes "Start up") u };
        line = line;
        heart = reset;
        light = false;
      }

  -- `USART0_Handler` and `SysTick_Handler`
  unfoldable pub usart0_handler : Machine → Machine
  usart0_handler m = let s = m.system in record m { system = record s { uart = interrupt s.uart } }

  unfoldable pub sys_tick_handler : Machine → Machine
  sys_tick_handler m = record m { heart = tick m.heart }

  -- `PowerChan_Run` of a channel; `none` is the fault of a NULL converter.
  pub run_chanel : Supply → System d build → Option (System d build)
  run_chanel ch s = elim (PowerChanel.run b miso_polls (chanel d build s ch) (bus s.eeprom.flash)) [
    | none ↦ none
    | some (p, t) ↦
        let e = record s.eeprom { flash = set_bus s.eeprom.flash t } in
        some (set_chanel d build (record s { eeprom = e }) ch p)
  ]

  -- The three pins of the lights.
  pub set_lights : Bool → b.State → b.State
  set_lights true s = b.pio_sodr (b.pio_codr (b.pio_sodr s 0x100) 0x200) 0x400
  set_lights false s = b.pio_codr (b.pio_sodr (b.pio_codr s 0x100) 0x200) 0x400

  -- What is done once in a second.
  pub each_second : Machine → Option Machine
  unfolding run_chanel set_lights
  each_second m = elim (run_chanel pri m.system) [
    | none ↦ none
    | some s₁ ↦ elim (run_chanel sec s₁) [
      | none ↦ none
      | some s₂ ↦
          let flash = set_bus s₂.eeprom.flash (set_lights m.light (bus s₂.eeprom.flash)) in
          let e = record s₂.eeprom { flash = flash } in
          some (record m { system = record s₂ { eeprom = e }; light = not m.light })
    ]
  ]

  -- One round of the loop of `main`, with the fuel of `Run_Config`; the watchdog is left out.
  pub round : ℕ → Machine → Option Machine
  unfolding each_second
  round fuel m =
      let (_, h) = Heartbeat.run m.heart in
      let s = record m.system { uart = interrupt m.system.uart } in
      let (_, l, s₁) = run_config d build fuel m.line s in
      let (ten, h₁) = is_10ms h in
      let s₂ = if ten then record s₁ { eeprom = (cache_check d s₁.eeprom).1 } else s₁ in
      let (second, h₂) = is_1s h₁ in
      let m' = record m { system = s₂; line = l; heart = h₂ } in
      let run = each_second m' in if second then run else some m'

  -- One call of the loop of `main`, with the test in front of it.
  unfoldable pub phase_step : ℕ → Phase → Machine → Option (Phase × Machine)
  unfolding each_second
  phase_step fuel at_heartbeat m =
      some (at_interrupt, record m { heart = (Heartbeat.run m.heart).1 })
  phase_step fuel at_interrupt m =
      some (at_config, record m { system = record m.system { uart = interrupt m.system.uart } })
  phase_step fuel at_config m =
      let (_, l, s) = run_config d build fuel m.line m.system in
      some (at_10ms, record m { system = s; line = l })
  phase_step fuel at_10ms m =
      let s = m.system in
      let (ten, h) = is_10ms m.heart in
      let s' = if ten then record s { eeprom = (cache_check d s.eeprom).1 } else s in
      some (at_1s, record m { system = s'; heart = h })
  phase_step fuel at_1s m =
      let (second, h) = is_1s m.heart in
      let m' = record m { heart = h } in
      let run : Option (Phase × Machine) = elim (each_second m') [
        | none ↦ none
        | some m'' ↦ some (at_heartbeat, m'')
      ] in
      if second then run else some (at_heartbeat, m')

  -- Calls in a row, with no interrupt between them.
  pub phase_steps : ℕ → ℕ → Phase → Machine → Option (Phase × Machine)
  unfolding phase_step
  phase_steps zero fuel ph m = some (ph, m)
  phase_steps (suc n) fuel ph m = elim (phase_step fuel ph m) [
    | none ↦ none
    | some (ph', m') ↦ phase_steps n fuel ph' m'
  ]
