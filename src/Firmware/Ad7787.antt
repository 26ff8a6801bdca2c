-- ===== src/Firmware/Ad7787.antt =====
-- firmware/PowerMon/src/AD7787_Driver.c: one conversion of the AD7787 converter over SPI, with
-- `spi_wait_miso_low` of spi_master.c.
pub mod Conversion
pub mod Keeps
mod Tests
use power_monitor.Prelude.{
  ℕ, zero, suc, ◌+◌, ◌*◌, ◌%◌, ◌^◌, Bool, true, false, List, [], ◌∷◌, Option, none, some,
  if◌then◌else◌,
}
use power_monitor.Firmware.Board.{Board}

-- `AD7787_Chanel`
pub data Chanel : Type 0 where
  ad_ch_1 ad_ch_2 : Chanel

abbrev pub config_byte : Chanel → ℕ
config_byte ad_ch_1 = 0x10
config_byte ad_ch_2 = 0x11

abbrev pub read_byte : Chanel → ℕ
read_byte ad_ch_1 = 0x38
read_byte ad_ch_2 = 0x39

-- `struct AD7787_Data`; the bus and the device are those of the board.
pub record Ad7787 : Type 0 where
  pub cs_pin : ℕ

-- `miso_polls s` bounds how often the MISO line still reads high.
module _ (b : Board) (miso_polls : b.State → ℕ) where
  pub cs_on : Ad7787 → b.State → b.State
  cs_on adc s = b.pio_codr (b.spi_select_device s) adc.cs_pin

  pub cs_off : Ad7787 → b.State → b.State
  cs_off adc s = b.pio_sodr (b.spi_deselect_device s) adc.cs_pin

  pub cs_init : Ad7787 → b.State → b.State
  cs_init adc s = b.pio_sodr (b.pio_oer (b.pio_per s adc.cs_pin) adc.cs_pin) adc.cs_pin

  -- Transfers in a row whose results the code drops.
  pub send : b.State → List ℕ → b.State
  send s [] = s
  send s (v ∷ vs) = send (b.spi_transfer s v).1 vs

  -- `spi_wait_miso_low` with fuel; the Boolean says that it ended by its test.
  pub wait_miso_loop : ℕ → b.State → Bool × b.State
  wait_miso_loop zero s = (false, s)
  wait_miso_loop (suc fuel) s =
      let (high, s') = b.miso_high s in
      let rest = wait_miso_loop fuel s' in if high then rest else (true, s')

  pub spi_wait_miso_low : b.State → b.State
  spi_wait_miso_low s = (wait_miso_loop (suc (miso_polls s)) s).1

  -- `AD7787_Init`: `none` where `malloc` fails, which is `allocated ≡ false`.
  pub init : Bool → ℕ → b.State → Option Ad7787 × b.State
  init allocated cs_pin s =
      let adc : Ad7787 = record { cs_pin = cs_pin } in
      let wake = 0xFF ∷ 0xFF ∷ 0xFF ∷ 0xFF ∷ 0xFF ∷ 0xFF ∷ 0xFF ∷ 0xFF ∷ [] in
      let s' = cs_off adc (send (cs_on adc (cs_init adc s)) wake) in
      if allocated then (some adc, s') else (none, s)

  -- `AD7787_Run`, on `uint32_t value`.
  pub run : Ad7787 → Chanel → b.State → ℕ × b.State
  run adc ch s =
      let s₁ = send (cs_on adc s) (config_byte ch ∷ 0x82 ∷ []) in
      let s₂ = send (spi_wait_miso_low s₁) (read_byte ch ∷ []) in
      let (v₁, s₃) = b.spi_transfer s₂ 0 in
      let (r₂, s₄) = b.spi_transfer s₃ 0 in
      let v₂ = (r₂ + v₁ * 256) % 2 ^ 32 in
      let (r₃, s₅) = b.spi_transfer s₄ 0 in let v₃ = (r₃ + v₂ * 256) % 2 ^ 32 in (v₃, cs_off adc s₅)
