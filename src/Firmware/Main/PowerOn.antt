-- ===== src/Firmware/Main/PowerOn.antt =====
-- firmware/PowerMon/src/main.c: from power-on to the loop of `main`, and every state behind it.
mod Tests
use power_monitor.Prelude.{ℕ, ◌≤◌, ◌<◌, refl, false, List, arith, ◌++◌}
use power_monitor.Prelude.Text.{codes}
use power_monitor.Firmware.Board.{Board}
use power_monitor.Firmware.Flash.{DfToken, FlashDriver}
use power_monitor.Firmware.Eeprom
use power_monitor.Firmware.Eeprom.Settings.{AreBytes, init_token}
use power_monitor.Firmware.Eeprom.Trace.{init-Holds}
use power_monitor.Firmware.PowerChanel.{PowerChanel, set_volt_calib, set_volt_offset}
use power_monitor.Firmware.SysLog.{l_diag}
use power_monitor.Firmware.SysLog.Filter.{syslog-keeps}
use power_monitor.Firmware.UartBuffer
use power_monitor.Firmware.UartBuffer.{UsartEvent, Uart, put_string}
use power_monitor.Firmware.UartBuffer.Receive.{IsValid, init-IsValid, put_char-IsValid}
use power_monitor.Firmware.UartBuffer.Pending.{put_string-keeps}
use power_monitor.Firmware.Console.{
  Supply, pri, sec, System, chanel, set_chanel, read_volt_calibration, read_volt_offset, crlf,
}
use power_monitor.Firmware.Console.Line.{LineBuffer}
use power_monitor.Firmware.Console.Line.Typed.{IsLine}
use power_monitor.Firmware.Main.{restore, restore_settings, start_up}
use power_monitor.Firmware.Main.Bus.{SharedBus}
use power_monitor.Firmware.Main.Invariant.{
  HasConverter, HoldsBytes, settings-HoldsBytes, State, Sound, SoundSystem, SoundSystem-chanel,
  SoundSystem-set_chanel,
}
use power_monitor.Firmware.Main.{Phase, at_heartbeat}
use power_monitor.Firmware.Main.Interleaved.{SoundAt, Reach, kept}

module _ (d : FlashDriver) (build : List ℕ) (b : Board) (miso_polls : b.State → ℕ)
    (bus : d.State → b.State) (set_bus : d.State → b.State → d.State)
    (shared : SharedBus d b bus set_bus) (t : DfToken) (pos : 0 < t.size) where
  abbrev Parts : System d build → Type 0
  Parts = SoundSystem d build b miso_polls bus set_bus shared t pos

  text_keeps : (u : Uart) (text : List ℕ) → IsValid u → IsValid (put_string u text)
  text_keeps = put_string-keeps IsValid put_char-IsValid

  -- The settings of a channel come from the EEPROM by two reads.
  restore-Parts :
      (ch : Supply) (s : System d build)
      → Parts s
      → Parts (restore d build b miso_polls bus set_bus ch s)
  unfolding restore set_volt_calib chanel set_volt_offset
  restore-Parts ch s h =
      let keeps = settings-HoldsBytes d build t pos in
      let own = SoundSystem-chanel d build b miso_polls bus set_bus shared t pos in
      let install = SoundSystem-set_chanel d build b miso_polls bus set_bus shared t pos in
      let (v, e) = read_volt_calibration d build s.eeprom ch in
      let s₀ : System d build = record s { eeprom = e } in
      let h₀ : Parts s₀ = (h.0, keeps.read_calib s.eeprom ch h.1, h.2, h.3) in
      let p = set_volt_calib (chanel d build s ch) v in
      let s₁ = set_chanel d build s₀ ch p in
      let q = own ch s h in
      let h₁ = install ch s₀ p (record { adc = q.adc; present = q.present; apart = q.apart }) h₀ in
      let (o, e') = read_volt_offset d build s₁.eeprom ch in
      let s₂ : System d build = record s₁ { eeprom = e' } in
      let h₂ : Parts s₂ = (h₁.0, keeps.read_offset s₁.eeprom ch h₁.1, h₁.2, h₁.3) in
      let q₁ = own ch s₁ h₁ in
      install ch s₂ (set_volt_offset (chanel d build s₁ ch) o)
        (record { adc = q₁.adc; present = q₁.present; apart = q₁.apart }) h₂

  pub start_up-Sound :
      (flash : d.State) (pri_ch sec_ch : PowerChanel) (line : LineBuffer) (usart : List UsartEvent)
      → d.Fits t
      → t.size ≤ 0xFFFF
      → AreBytes (d.page_at flash t)
      → HasConverter pri_ch
      → HasConverter sec_ch
      → IsLine line
      → Sound d build b miso_polls bus set_bus t
          (start_up d build b miso_polls bus set_bus flash t pri_ch sec_ch line usart)
  unfolding start_up restore_settings
  start_up-Sound flash pri_ch sec_ch line usart fits small bytes p q typed =
      let holds : HoldsBytes d t (Eeprom.init d flash t 4) = record {
        memory = d.page_at flash t;
        holds = init-Holds d flash t 4 fits small (omega arith);
        are_bytes = bytes;
        token = init_token d flash t 4;
      } in
      let s : System d build = record {
        uart = UartBuffer.init usart;
        pri_ch = pri_ch;
        sec_ch = sec_ch;
        eeprom = Eeprom.init d flash t 4;
        halted = false;
      } in
      let s₁ = restore d build b miso_polls bus set_bus pri s in
      let h = restore-Parts sec s₁ (restore-Parts pri s (init-IsValid usart, holds, p, q)) in
      record {
        uart =
            syslog-keeps IsValid (λ text u. put_string u text) l_diag l_diag (codes "MAIN")
              (codes "Start up") _ (λ text u. text_keeps u text)
              (text_keeps _ (crlf ++ (codes "System Startup" ++ crlf)) h.0);
        line = typed;
        eeprom = h.1;
        pri_ch = h.2;
        sec_ch = h.3;
        ten = omega arith;
        second = omega arith;
      }

  -- Over a flash whose pages are not disturbed by what happens on the bus without its select line,
  -- from a start-up with a token of at least one page that lies on the chip and has at most 0xFFFF
  -- pages, pages of bytes, two channels whose converters have other select lines, and a line buffer
  -- of 256 bytes of which at most 255 are in use: whatever state the calls of the main loop, with
  -- any fuel for `Run_Config`, and the two interrupts between them reach, in a run in which no call
  -- writes behind the end of that buffer, the rings are valid, at most 255 bytes of the line are in
  -- use, cache and flash together hold a memory of bytes under the token, both converters are
  -- there, and the 10 ms and 1 s counters are at most 10 and 1000, and below where the call behind
  -- has reset them.
  pub Reach-Sound :
      (flash : d.State) (pri_ch sec_ch : PowerChanel) (line : LineBuffer) (usart : List UsartEvent)
      (ph : Phase) (m : State d build b miso_polls bus set_bus)
      → d.Fits t
      → t.size ≤ 0xFFFF
      → AreBytes (d.page_at flash t)
      → HasConverter pri_ch
      → HasConverter sec_ch
      → IsLine line
      → Reach d build b miso_polls bus set_bus shared t pos
          (at_heartbeat, start_up d build b miso_polls bus set_bus flash t pri_ch sec_ch line usart)
          (ph, m)
      → SoundAt d build b miso_polls bus set_bus t ph m
  Reach-Sound flash pri_ch sec_ch line usart ph m fits small bytes p q typed r =
      let h = start_up-Sound flash pri_ch sec_ch line usart fits small bytes p q typed in
      kept d build b miso_polls bus set_bus shared t pos _ (ph, m)
        (record {
          uart = h.uart;
          line = h.line;
          eeprom = h.eeprom;
          pri_ch = h.pri_ch;
          sec_ch = h.sec_ch;
          counters = (h.ten, h.second);
        })
        r
