-- ===== src/Firmware/Main/OnChip.antt =====
-- firmware/PowerMon/src/main.c over DataFlash.c: flash and converters on the select lines of one bus.
mod Tests
use power_monitor.Prelude.{
  ℕ, ◌+◌, ◌/◌, ◌%◌, ◌^◌, ◌≤◌, ◌<◌, ◌≡◌, refl, sym, ap, ◌∙◌, true, List, ◌∷◌, some, length, values,
  get_or, get_or-values, arith,
}
use mathlib.Core.Path.{ap₂, subst}
use power_monitor.Prelude.Text.{number_value, FitsLong, to_word32}
use power_monitor.Firmware.Board.{Board}
use power_monitor.Firmware.Flash.{DfToken, FlashDriver}
use power_monitor.Firmware.DataFlash.{chip_page}
use power_monitor.Firmware.DataFlash.Chip.{At45db}
use power_monitor.Firmware.DataFlash.Wired.{at, wired_driver, Unselected}
use power_monitor.Firmware.Eeprom.{Eeprom, cache_flush}
use power_monitor.Firmware.Eeprom.Coherent.{Holds}
use power_monitor.Firmware.Eeprom.Flush.{cache_flush-stores}
use power_monitor.Firmware.Eeprom.Memory.{Memory, byte_at}
use power_monitor.Firmware.Eeprom.Words.{store4, store4-Stored4}
use power_monitor.Firmware.Eeprom.Settings.{AreBytes}
use power_monitor.Firmware.PowerChanel.{PowerChanel}
use power_monitor.Firmware.CmdProcessor.{cp_skip_space, cp_skip_chars}
use power_monitor.Firmware.Console.{Supply, pri, sec, volt_address, parse_supply, cmd_volt_calib}
use power_monitor.Firmware.Console.Line.{LineBuffer}
use power_monitor.Firmware.Console.Line.Typed.{IsLine}
use power_monitor.Firmware.Console.Settings.{
  cmd_volt_calib-Answered, to_word32-lt, volt_address_inside,
}
use power_monitor.Firmware.UartBuffer.{UsartEvent}
use power_monitor.Firmware.Main.{Phase, at_heartbeat, start_up}
use power_monitor.Firmware.Main.Invariant.{HasConverter, State}
use power_monitor.Firmware.Main.Interleaved.{Reach}
use power_monitor.Firmware.Main.PowerOn.{Reach-Sound}
use power_monitor.Firmware.Main.Bus.{flash_pin, SharedBus}

volt_address-lt : (ch : Supply) → volt_address ch < 509
volt_address-lt pri = omega arith
volt_address-lt sec = omega arith

module _ (b : Board) (polls : b.State → ℕ) (chip : At45db b polls)
    (unselected : Unselected b polls chip flash_pin) where
  abbrev pub shared_bus : SharedBus (wired_driver b polls chip flash_pin) b (λ s. s) (λ f s. s)
  shared_bus = record {
    Quiet = λ f s.
        chip.content (at b polls chip flash_pin s) ≡ chip.content (at b polls chip flash_pin f);
    at_rest = λ f. refl;
    undisturbed = λ f. unselected (chip.content (at b polls chip flash_pin f));
    same_pages = λ f s t p quiet. ap (λ c. values (c (chip_page t p)) 0 512) quiet;
  }

  -- The bytes of a word in the first page of a token, the lowest first.
  pub record WordOnChip (t : DfToken) (s : b.State) (addr v : ℕ) : Type 0 where
    pub byte0 : chip.content (at b polls chip flash_pin s) (chip_page t 0) addr ≡ v % 256
    pub byte1 :
        chip.content (at b polls chip flash_pin s) (chip_page t 0) (addr + 1) ≡ v / 256 % 256
    pub byte2 :
        chip.content (at b polls chip flash_pin s) (chip_page t 0) (addr + 2) ≡ v / 65536 % 256
    pub byte3 :
        chip.content (at b polls chip flash_pin s) (chip_page t 0) (addr + 3) ≡ v / 16777216 % 256

  module _ (build : List ℕ) (miso_polls : b.State → ℕ) (t : DfToken) (pos : 0 < t.size) where
    abbrev d : FlashDriver
    d = wired_driver b polls chip flash_pin

    -- The bytes of the first page of the token.
    abbrev on_chip : b.State → ℕ → ℕ
    on_chip s = chip.content (at b polls chip flash_pin s) (chip_page t 0)

    -- A flush leaves the bytes of the memory in the chip.
    flushed :
        (e : Eeprom d) (m : Memory) (addr : ℕ)
        → Holds d e m
        → e.token ≡ t
        → addr < 512
        → on_chip (cache_flush d e).1.flash addr ≡ byte_at m addr
    unfolding byte_at
    flushed e m addr h at_token inside =
        let (_, _, stored, token) = cache_flush-stores d e m h in
        let f = at b polls chip flash_pin (cache_flush d e).1.flash in
        let whole =
          subst
            (λ (u : DfToken). (p : ℕ) → p < u.size → d.page_at (cache_flush d e).1.flash u p ≡ m p)
            (token ∙ at_token) stored in
        sym (
          get_or-values (chip.content f (chip_page t 0)) 0 512 addr 0 inside
          ∙ ap (chip.content f (chip_page t 0)) (omega arith))
        ∙ ap (λ (l : List ℕ). get_or l addr 0) (whole 0 pos)
        ∙ ap₂ (λ (p i : ℕ). get_or (m p) i 0) {x = 0} {y = addr / 512} (omega arith) (omega arith)

    -- A word that the cache holds is on the chip after a flush.
    stored_word :
        (e : Eeprom d) (m : Memory) (addr v : ℕ)
        → Holds d e (store4 m addr v)
        → e.token ≡ t
        → ((k : ℕ) → k ≤ 3 → length (m ((addr + k) / 512)) ≡ 512)
        → addr < 509
        → v < 2 ^ 32
        → WordOnChip t (cache_flush d e).1.flash addr v
    stored_word e m addr v h token sized inside small =
        let w = store4-Stored4 m addr v sized in
        let byte : (k : ℕ)
            → k < 512
            → on_chip (cache_flush d e).1.flash k ≡ byte_at (store4 m addr v) k =
          λ k lt. flushed e (store4 m addr v) k h token lt in
        record {
          byte0 = omega (arith, byte addr (omega arith), w.byte0);
          byte1 = omega (arith, byte (addr + 1) (omega arith), w.byte1);
          byte2 = omega (arith, byte (addr + 2) (omega arith), w.byte2);
          byte3 =
              ap (on_chip (cache_flush d e).1.flash) {x = addr + 3} {y = addr + 2 + 1} (omega arith)
              ∙ byte (addr + 2 + 1) (omega arith)
              ∙ w.byte3
              ∙ omega arith;
        }

    -- Over the driver of DataFlash.c, a chip on PIO_PA17 that behaves as its data sheet says and
    -- whose main memory no access changes that leaves that line alone: from a start-up with a token
    -- of at least one page that lies on the chip and has at most 0xFFFF pages, pages of bytes, two
    -- channels whose converters have other select lines, and a line buffer of 256 bytes of which at
    -- most 255 are in use, after whatever calls of the main loop and interrupts between them that
    -- do not write behind the end of that buffer, `calib` with a channel and a number that fits 32
    -- bits with its sign and then `EE_Cache_Flush` leave the four bytes of the number, the lowest
    -- first, in the chip's main memory at the address of that calibration in the token's first
    -- page; the flush ends by its test.
    pub calibration_on_chip :
        (flash : b.State) (pri_ch sec_ch : PowerChanel) (line : LineBuffer)
        (usart : List UsartEvent) (ph : Phase) (m : State d build b miso_polls (λ s. s) (λ f s. s))
        (ch : Supply) (argument buffer : List ℕ) (c : ℕ) (number : List ℕ)
        → d.Fits t
        → t.size ≤ 0xFFFF
        → AreBytes (d.page_at flash t)
        → HasConverter pri_ch
        → HasConverter sec_ch
        → IsLine line
        → Reach d build b miso_polls
            (λ s. s)
            (λ f s. s)
            shared_bus
            t
            pos
            (
              at_heartbeat,
              start_up d build b miso_polls (λ s. s) (λ f s. s) flash t pri_ch sec_ch line usart,
            )
            (ph, m)
        → parse_supply (cp_skip_space argument) ≡ some ch
        → cp_skip_space (cp_skip_chars (cp_skip_space argument)) ≡ c ∷ number
        → FitsLong (number_value (c ∷ number))
        → let e = (cmd_volt_calib d build argument buffer m.system).state.eeprom in
          ((cache_flush d e).0 ≡ true)
          × WordOnChip t
              (cache_flush d e).1.flash
              (volt_address ch)
              (to_word32 (number_value (c ∷ number)))
    calibration_on_chip flash pri_ch sec_ch line usart ph m ch argument buffer c number fits small
          bytes p q typed r named value exact =
        let sound =
          Reach-Sound d build b miso_polls (λ s. s) (λ f s. s) shared_bus t pos flash pri_ch sec_ch
            line usart ph m fits small bytes p q typed r in
        let held = sound.eeprom in
        let own : 0 < m.system.eeprom.token.size = rw (held.token) pos in
        let a =
          (cmd_volt_calib-Answered d build ch argument buffer m.system held.memory c number named
            value exact own held.are_bytes held.holds).0 in
        let v = to_word32 (number_value (c ∷ number)) in
        let e = (cmd_volt_calib d build argument buffer m.system).state.eeprom in
        (
          (cache_flush-stores d e (store4 held.memory (volt_address ch) v) a.holds).0,
          stored_word e held.memory (volt_address ch) v a.holds (a.token ∙ held.token)
              (λ k le.
                held.holds.bytes _
                  (omega (arith, volt_address_inside ch m.system.eeprom.token.size own)))
              (volt_address-lt ch) (to_word32-lt (number_value (c ∷ number))),
        )
