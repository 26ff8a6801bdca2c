-- ===== src/Firmware/Main/Invariant.antt =====
-- firmware/PowerMon/src/main.c: what the main loop and its interrupts keep.
use Prim.Native.Nat.{bit_and}
use power_monitor.Prelude.{ℕ, ◌+◌, not, ◌/◌, ◌<◌, ◌≡◌, refl, ◌∙◌, Bool, List, Option, some}
use power_monitor.Firmware.Board.{Board}
use power_monitor.Firmware.Flash.{DfToken, FlashDriver}
use power_monitor.Firmware.Eeprom.{Eeprom, cache_check}
use power_monitor.Firmware.Eeprom.Bytes.{read4_default, write4}
use power_monitor.Firmware.Eeprom.Coherent.{Holds}
use power_monitor.Firmware.Eeprom.Flush.{cache_check-Checked}
use power_monitor.Firmware.Eeprom.Memory.{Memory}
use power_monitor.Firmware.Eeprom.Settings.{AreBytes, read4_default-setting, store4-AreBytes}
use power_monitor.Firmware.Eeprom.Words.{store4, write4-store4}
use power_monitor.Firmware.Ad7787
use power_monitor.Firmware.Ad7787.{Ad7787, ad_ch_2}
use power_monitor.Firmware.Ad7787.Keeps.{run-keeps}
use power_monitor.Firmware.PowerChanel
use power_monitor.Firmware.PowerChanel.Scale.{run-some}
use power_monitor.Firmware.PowerChanel.{PowerChanel, set_volt_calib, set_volt_offset}
use power_monitor.Firmware.UartBuffer.Receive.{IsValid}
use power_monitor.Firmware.Console.{
  Supply, pri, sec, volt_address, volt_offset_address, System, chanel, set_chanel,
  read_volt_calibration, read_volt_offset, write_volt_calibration, write_volt_offset,
}
use power_monitor.Firmware.Console.Keeps.{KeepsSettings}
use power_monitor.Firmware.Console.Settings.{volt_address_inside, volt_offset_address_inside}
use power_monitor.Firmware.Console.Line.Typed.{IsLine}
use power_monitor.Firmware.Main.{Machine, run_chanel, set_lights, each_second}
use power_monitor.Firmware.Main.Bus.{flash_pin, SharedBus, set_lights-keeps, Holds-flash}

-- A channel has a converter, whose select line is not that of the flash.
pub record HasConverter (p : PowerChanel) : Type 0 where
  pub adc : Ad7787
  pub present : p.adc ≡ some adc
  pub apart : bit_and adc.cs_pin flash_pin ≡ 0

-- The cache and the flash hold a memory of bytes under the token `t`.
pub record HoldsBytes (d : FlashDriver) (t : DfToken) (e : Eeprom d) : Type 0 where
  pub memory : Memory
  pub holds : Holds d e memory
  pub are_bytes : AreBytes memory
  pub token : e.token ≡ t

module _ (d : FlashDriver) (build : List ℕ) (t : DfToken) (pos : 0 < t.size) where
  read-HoldsBytes :
      (e : Eeprom d) (addr def : ℕ)
      → (addr + 3) / 512 < t.size
      → HoldsBytes d t e
      → HoldsBytes d t (read4_default d e addr def).1
  read-HoldsBytes e addr def lt h =
      let b = h.are_bytes in
      let r =
        read4_default-setting d e h.memory addr def (rw (h.token) lt)
          (b addr, b (addr + 1), b (addr + 2), b (addr + 3)) h.holds in
      record { memory = h.memory; holds = r.holds; are_bytes = b; token = r.token ∙ h.token }

  write-HoldsBytes :
      (e : Eeprom d) (addr v : ℕ)
      → (addr + 3) / 512 < t.size
      → HoldsBytes d t e
      → HoldsBytes d t (write4 d e addr v)
  write-HoldsBytes e addr v lt h =
      let inside : (addr + 3) / 512 < e.token.size = rw (h.token) lt in
      let (holds, token) = write4-store4 d e h.memory addr v inside h.holds in
      record {
        memory = store4 h.memory addr v;
        holds = holds;
        are_bytes = store4-AreBytes d e h.memory addr v inside h.holds h.are_bytes;
        token = token ∙ h.token;
      }

  pub settings-HoldsBytes : KeepsSettings d (HoldsBytes d t) HasConverter build
  unfolding read_volt_calibration read_volt_offset write_volt_calibration write_volt_offset
      set_volt_calib set_volt_offset
  settings-HoldsBytes = record {
    read_calib =
        λ e ch. read-HoldsBytes e (volt_address ch) 856 (volt_address_inside ch t.size pos);
    read_offset = λ e ch.
        read-HoldsBytes e (volt_offset_address ch) 1 (volt_offset_address_inside ch t.size pos);
    write_calib =
        λ e ch v lt. write-HoldsBytes e (volt_address ch) v (volt_address_inside ch t.size pos);
    write_offset = λ e ch v lt.
        write-HoldsBytes e (volt_offset_address ch) v (volt_offset_address_inside ch t.size pos);
    set_calib = λ p v lt q. record { adc = q.adc; present = q.present; apart = q.apart };
    set_offset = λ p v lt q. record { adc = q.adc; present = q.present; apart = q.apart };
  }

module _ (d : FlashDriver) (build : List ℕ) (b : Board) (miso_polls : b.State → ℕ)
    (bus : d.State → b.State) (set_bus : d.State → b.State → d.State) where
  abbrev pub State : Type 0
  State = Machine d build b miso_polls bus set_bus

  -- What holds between two rounds of the main loop.
  pub record Sound (t : DfToken) (m : State) : Type 0 where
    pub uart : IsValid m.system.uart
    pub line : IsLine m.line
    pub eeprom : HoldsBytes d t m.system.eeprom
    pub pri_ch : HasConverter m.system.pri_ch
    pub sec_ch : HasConverter m.system.sec_ch
    pub ten : m.heart.count_10ms < 10
    pub second : m.heart.count_1s < 1000

  module _ (shared : SharedBus d b bus set_bus) (t : DfToken) (pos : 0 < t.size) where
    flash-HoldsBytes :
        (e : Eeprom d) (s : b.State)
        → SharedBus.Quiet shared e.flash s
        → HoldsBytes d t e
        → HoldsBytes d t (record e { flash = set_bus e.flash s })
    flash-HoldsBytes e s quiet h = record {
      memory = h.memory;
      holds =
          Holds-flash d e h.memory (set_bus e.flash s)
            (λ p. shared.same_pages e.flash s e.token p quiet) h.holds;
      are_bytes = h.are_bytes;
      token = h.token;
    }

    pub check-HoldsBytes : (e : Eeprom d) → HoldsBytes d t e → HoldsBytes d t (cache_check d e).1
    check-HoldsBytes e h =
        let c = cache_check-Checked d e h.memory h.holds in
        record {
          memory = h.memory;
          holds = c.holds;
          are_bytes = h.are_bytes;
          token = c.token ∙ h.token;
        }

    -- `PowerChan_Run` does not fault, and takes a reading.
    run-returns :
        (p : PowerChanel) (f : d.State)
        → HasConverter p
        → (p' : PowerChanel) × (s : b.State) × (PowerChanel.run b miso_polls p (bus f)
            ≡ some (p', s))
          × HasConverter p'
          × SharedBus.Quiet shared f s
    run-returns p f h =
        let r = Ad7787.run b miso_polls h.adc ad_ch_2 (bus f) in
        (
          record p { volts = r.0 / 256 },
          r.1,
          run-some b miso_polls p h.adc (bus f) h.present,
          record { adc = h.adc; present = h.present; apart = h.apart },
          run-keeps b miso_polls flash_pin (shared.Quiet f) (shared.undisturbed f) h.adc ad_ch_2
              (bus f) h.apart (shared.at_rest f),
        )

    abbrev pub SoundSystem : System d build → Type 0
    SoundSystem s =
        IsValid s.uart × HoldsBytes d t s.eeprom × HasConverter s.pri_ch × HasConverter s.sec_ch

    abbrev chanel_run : Supply → System d build → Option (System d build)
    chanel_run = run_chanel d build b miso_polls bus set_bus

    pub SoundSystem-chanel :
        (ch : Supply) (s : System d build) → SoundSystem s → HasConverter (chanel d build s ch)
    unfolding chanel
    SoundSystem-chanel pri s h = h.2
    SoundSystem-chanel sec s h = h.3

    pub SoundSystem-set_chanel :
        (ch : Supply) (s : System d build) (p : PowerChanel)
        → HasConverter p
        → SoundSystem s
        → SoundSystem (set_chanel d build s ch p)
    unfolding set_chanel
    SoundSystem-set_chanel pri s p q h = (h.0, h.1, q, h.3)
    SoundSystem-set_chanel sec s p q h = (h.0, h.1, h.2, q)

    run_chanel-returns :
        (ch : Supply) (s : System d build)
        → SoundSystem s
        → (s' : System d build) × (chanel_run ch s ≡ some s') × SoundSystem s'
    unfolding run_chanel
    run_chanel-returns ch s h =
        let (p, u, eq, q, quiet) =
          run-returns (chanel d build s ch) s.eeprom.flash (SoundSystem-chanel ch s h) in
        let s₁ : System d build = record s {
          eeprom = record s.eeprom { flash = set_bus s.eeprom.flash u };
        } in
        let h₁ : SoundSystem s₁ = (h.0, flash-HoldsBytes s.eeprom u quiet h.1, h.2, h.3) in
        (set_chanel d build s₁ ch p, rw (eq, run_chanel) refl, SoundSystem-set_chanel ch s₁ p q h₁)

    lights-Sound :
        (on : Bool) (s : System d build)
        → SoundSystem s
        → SoundSystem (record s {
          eeprom = record s.eeprom {
            flash =
                set_bus s.eeprom.flash
                  (set_lights d build b miso_polls bus set_bus on (bus s.eeprom.flash));
          };
        })
    lights-Sound on s h =
        let f = s.eeprom.flash in
        let quiet =
          set_lights-keeps d build b miso_polls bus set_bus (shared.Quiet f) (shared.undisturbed f)
            on (bus f) (shared.at_rest f) in
        (
          h.0,
          flash-HoldsBytes s.eeprom (set_lights d build b miso_polls bus set_bus on (bus f)) quiet
              h.1,
          h.2,
          h.3,
        )

    pub each_second-returns :
        (m : State)
        → SoundSystem m.system
        → (m' : State) × (each_second d build b miso_polls bus set_bus m ≡ some m')
          × SoundSystem m'.system
          × (m'.line ≡ m.line)
          × (m'.heart ≡ m.heart)
    unfolding each_second
    each_second-returns m h =
        let (s₁, e₁, h₁) = run_chanel-returns pri m.system h in
        let (s₂, e₂, h₂) = run_chanel-returns sec s₁ h₁ in
        let f = s₂.eeprom.flash in
        let flash = set_bus f (set_lights d build b miso_polls bus set_bus m.light (bus f)) in
        let m' : State = record m {
          system = record s₂ { eeprom = record s₂.eeprom { flash = flash } };
          light = not m.light;
        } in
        (m', rw (e₁, e₂, each_second) refl, lights-Sound m.light s₂ h₂, refl, refl)
