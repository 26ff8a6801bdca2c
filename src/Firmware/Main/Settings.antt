-- ===== src/Firmware/Main/Settings.antt =====
-- firmware/PowerMon/src/main.c: the settings after a restart are those that the console stored.
mod Tests
use power_monitor.Prelude.{
  ℕ, ◌+◌, ◌%◌, ◌-◌, ◌/◌, ◌^◌, ◌<◌, ◌≡◌, refl, false, sym, ap, ◌∙◌, List, [], ◌∷◌, ◌++◌, Option,
  none, some, ◌==◌, if◌then◌else◌, arith,
}
use mathlib.Core.Path.{subst}
use power_monitor.Prelude.Text.{number_value, FitsLong, to_word32}
use power_monitor.Firmware.Board.{Board}
use power_monitor.Firmware.Flash.{DfToken, FlashDriver}
use power_monitor.Firmware.Eeprom
use power_monitor.Firmware.Eeprom.{Eeprom, u32, cache_flush}
use power_monitor.Firmware.Eeprom.Bytes.{read4_default}
use power_monitor.Firmware.Eeprom.Coherent.{Holds}
use power_monitor.Firmware.Eeprom.Memory.{Memory}
use power_monitor.Firmware.Eeprom.Words.{IsBytes, word4, store4}
use power_monitor.Firmware.Eeprom.Settings.{
  AreBytes, setting, read4_default-setting, restarted, restarted_memory, restarted-Holds,
  restarted-setting, restarted_token, store4-AreBytes, word4-store4,
}
use power_monitor.Firmware.PowerChanel.{PowerChanel, set_volt_calib, set_volt_offset}
use power_monitor.Firmware.CmdProcessor.{Reply, cp_skip_space, cp_skip_chars}
use power_monitor.Firmware.Console.{
  Supply, pri, sec, volt_address, volt_offset_address, parse_supply, System, chanel, set_chanel,
  read_volt_calibration, read_volt_offset, cmd_volt_calib,
}
use power_monitor.Firmware.Console.Line.{LineBuffer}
use power_monitor.Firmware.Console.Settings.{
  Answered, cmd_volt_calib-Answered, to_word32-lt, volt_address_inside,
}
use power_monitor.Firmware.UartBuffer.{UsartEvent}
use power_monitor.Firmware.UartBuffer
use power_monitor.Firmware.Main.{Machine, restore, restore_settings, start_up}

-- A channel has the settings of the memory at its addresses.
pub record Restored (ch : Supply) (m : Memory) (p : PowerChanel) : Type 0 where
  pub calibration : p.v_calib ≡ setting m (volt_address ch) 856
  pub offset : p.volt_offset ≡ setting m (volt_offset_address ch) 1

module _ (d : FlashDriver) (build : List ℕ) (b : Board) (miso_polls : b.State → ℕ)
    (bus : d.State → b.State) (set_bus : d.State → b.State → d.State) where
  abbrev settings : System d build → System d build
  settings = restore_settings d build b miso_polls bus set_bus

  -- The settings are read one after the other, and each leaves the memory alone.
  pub restore_settings-Restored :
      (s : System d build) (m : Memory)
      → 0 < s.eeprom.token.size
      → IsBytes m 2
      → IsBytes m 6
      → IsBytes m 10
      → IsBytes m 14
      → Holds d s.eeprom m
      → Restored pri m (settings s).pri_ch
        × Restored sec m (settings s).sec_ch
        × Holds d (settings s).eeprom m
        × ((settings s).eeprom.token ≡ s.eeprom.token)
  unfolding restore_settings read_volt_calibration read_volt_offset set_chanel chanel set_volt_calib
      set_volt_offset
  restore_settings-Restored s m pos b₁ b₂ b₃ b₄ h =
      let r₁ = read4_default-setting d s.eeprom m 2 856 (omega arith) b₁ h in
      let e₁ = (read4_default d s.eeprom 2 856).1 in
      let r₂ = read4_default-setting d e₁ m 10 1 (rw (r₁.token) (omega arith)) b₃ r₁.holds in
      let e₂ = (read4_default d e₁ 10 1).1 in
      let t₂ : e₂.token ≡ s.eeprom.token = r₂.token ∙ r₁.token in
      let r₃ = read4_default-setting d e₂ m 6 856 (rw t₂ (omega arith)) b₂ r₂.holds in
      let e₃ = (read4_default d e₂ 6 856).1 in
      let t₃ : e₃.token ≡ s.eeprom.token = r₃.token ∙ t₂ in
      let r₄ = read4_default-setting d e₃ m 14 1 (rw t₃ (omega arith)) b₄ r₃.holds in
      (
        record { calibration = r₁.value; offset = r₂.value },
        record { calibration = r₃.value; offset = r₄.value },
        r₄.holds,
        r₄.token ∙ t₃,
      )

  Restored-chanel :
      (ch : Supply) (m : Memory) (s : System d build)
      → Restored pri m s.pri_ch
      → Restored sec m s.sec_ch
      → (chanel d build s ch).v_calib ≡ setting m (volt_address ch) 856
  unfolding chanel
  Restored-chanel pri m s p q = p.calibration
  Restored-chanel sec m s p q = q.calibration

  -- A restart over the flash of a flush gives both channels the settings of the memory.
  pub start_up-Restored :
      (e : Eeprom d) (m : Memory) (pri_ch sec_ch : PowerChanel) (line : LineBuffer)
      (usart : List UsartEvent)
      → 0 < e.token.size
      → AreBytes m
      → Holds d e m
      → let after =
          (start_up d build b miso_polls bus set_bus
            (cache_flush d e).1.flash
            e.token
            pri_ch
            sec_ch
            line
            usart).system in
        Restored pri m after.pri_ch × Restored sec m after.sec_ch
  unfolding start_up
  start_up-Restored e m pri_ch sec_ch line usart pos bytes h =
      let (i₁, v₁) = restarted-setting d e m 2 856 (omega arith) bytes h in
      let (i₂, v₂) = restarted-setting d e m 6 856 (omega arith) bytes h in
      let (i₃, v₃) = restarted-setting d e m 10 1 (omega arith) bytes h in
      let (i₄, v₄) = restarted-setting d e m 14 1 (omega arith) bytes h in
      let fresh : System d build = record {
        uart = UartBuffer.init usart;
        pri_ch = pri_ch;
        sec_ch = sec_ch;
        eeprom = restarted d e 4;
        halted = false;
      } in
      let (p, s, h', token) =
        restore_settings-Restored fresh (restarted_memory d e) (rw (restarted_token d e 4) pos) i₁
          i₂ i₃ i₄ (restarted-Holds d e m 4 (omega arith) h) in
      (
        record { calibration = p.calibration ∙ v₁; offset = p.offset ∙ v₃ },
        record { calibration = s.calibration ∙ v₂; offset = s.offset ∙ v₄ },
      )

  -- From a state that holds a memory of bytes under a token of at least one page, `calib` with a
  -- channel and a number that fits 32 bits with its sign, then `EE_Cache_Flush` and a start-up over
  -- the flash that it left, gives the channel the number modulo 2^32 as its calibration, or 856
  -- where that is 0xFFFFFFFF; both channels have the calibration and the offset that the memory
  -- with that word stored has at their addresses.
  pub calibration_survives :
      (ch : Supply) (argument buffer : List ℕ) (s : System d build) (m : Memory) (c : ℕ)
      (number : List ℕ) (pri_ch sec_ch : PowerChanel) (line : LineBuffer) (usart : List UsartEvent)
      → parse_supply (cp_skip_space argument) ≡ some ch
      → cp_skip_space (cp_skip_chars (cp_skip_space argument)) ≡ c ∷ number
      → FitsLong (number_value (c ∷ number))
      → 0 < s.eeprom.token.size
      → AreBytes m
      → Holds d s.eeprom m
      → let v = to_word32 (number_value (c ∷ number)) in
        let e = (cmd_volt_calib d build argument buffer s).state.eeprom in
        let after =
          (start_up d build b miso_polls bus set_bus
            (cache_flush d e).1.flash
            e.token
            pri_ch
            sec_ch
            line
            usart).system in
        ((chanel d build after ch).v_calib ≡ (if v == 0xFFFFFFFF then 856 else v))
        × Restored pri (store4 m (volt_address ch) v) after.pri_ch
        × Restored sec (store4 m (volt_address ch) v) after.sec_ch
  calibration_survives ch argument buffer s m c number pri_ch sec_ch line usart e rest fits pos
        bytes h =
      let v = to_word32 (number_value (c ∷ number)) in
      let m' = store4 m (volt_address ch) v in
      let lt = volt_address_inside ch s.eeprom.token.size pos in
      let a =
        (cmd_volt_calib-Answered d build ch argument buffer s m c number e rest fits pos bytes
          h).0 in
      let e' = (cmd_volt_calib d build argument buffer s).state.eeprom in
      let r =
        start_up-Restored e' m' pri_ch sec_ch line usart (rw (a.token) pos)
          (store4-AreBytes d s.eeprom m (volt_address ch) v lt h bytes) a.holds in
      let w =
        word4-store4 d s.eeprom m (volt_address ch) v lt (to_word32-lt (number_value (c ∷ number)))
          h in
      (
        Restored-chanel ch m'
              (start_up d build b miso_polls bus set_bus (cache_flush d e').1.flash e'.token pri_ch
                sec_ch line usart).system
              r.0 r.1
            ∙ ap (λ (x : ℕ). if x == 0xFFFFFFFF then 856 else x) w,
        r.0,
        r.1,
      )
