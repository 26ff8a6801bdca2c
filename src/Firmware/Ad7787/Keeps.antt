-- ===== src/Firmware/Ad7787/Keeps.antt =====
-- firmware/PowerMon/src/AD7787_Driver.c: what a conversion does to the bus, one register at a time.
use Prim.Native.Nat.{bit_and}
use power_monitor.Prelude.{ℕ, zero, suc, ◌≡◌, List, [], ◌∷◌, inl, inr, Bool-cases}
use power_monitor.Firmware.Board.{Board}
use power_monitor.Firmware.Ad7787.{
  Ad7787, Chanel, config_byte, read_byte, cs_on, cs_off, send, wait_miso_loop, spi_wait_miso_low,
  run,
}

-- What the accesses to the bus keep, as long as they leave the pins of `mask` alone.
pub record Undisturbed (b : Board) (mask : ℕ) (P : b.State → Type 0) : Type 0 where
  pub select : (s : b.State) → P s → P (b.spi_select_device s)
  pub deselect : (s : b.State) → P s → P (b.spi_deselect_device s)
  pub transfer : (s : b.State) (v : ℕ) → P s → P (b.spi_transfer s v).1
  pub codr : (s : b.State) (pin : ℕ) → bit_and pin mask ≡ 0 → P s → P (b.pio_codr s pin)
  pub sodr : (s : b.State) (pin : ℕ) → bit_and pin mask ≡ 0 → P s → P (b.pio_sodr s pin)
  pub miso : (s : b.State) → P s → P (b.miso_high s).1

module _ (b : Board) (miso_polls : b.State → ℕ) (mask : ℕ) (P : b.State → Type 0)
    (u : Undisturbed b mask P) where
  send-keeps : (vs : List ℕ) (s : b.State) → P s → P (send b miso_polls s vs)
  unfolding send
  send-keeps [] s k = k
  send-keeps (v ∷ vs) s k = send-keeps vs (b.spi_transfer s v).1 (u.transfer s v k)

  wait-keeps : (fuel : ℕ) (s : b.State) → P s → P (wait_miso_loop b miso_polls fuel s).1
  unfolding wait_miso_loop
  wait-keeps zero s k = k
  wait-keeps (suc fuel) s k = elim (Bool-cases (b.miso_high s).0) [
    | inl high ↦ rw high (wait-keeps fuel (b.miso_high s).1 (u.miso s k))
    | inr low ↦ rw low (u.miso s k)
  ]

  -- A conversion keeps what each access keeps.
  pub run-keeps :
      (adc : Ad7787) (ch : Chanel) (s : b.State)
      → bit_and adc.cs_pin mask ≡ 0
      → P s
      → P (run b miso_polls adc ch s).1
  unfolding run cs_on cs_off spi_wait_miso_low
  run-keeps adc ch s apart k =
      let s₁ = b.pio_codr (b.spi_select_device s) adc.cs_pin in
      let k₁ = u.codr _ adc.cs_pin apart (u.select s k) in
      let s₂ = send b miso_polls s₁ (config_byte ch ∷ 0x82 ∷ []) in
      let k₂ = send-keeps (config_byte ch ∷ 0x82 ∷ []) s₁ k₁ in
      let s₃ = (wait_miso_loop b miso_polls (suc (miso_polls s₂)) s₂).1 in
      let k₃ = wait-keeps (suc (miso_polls s₂)) s₂ k₂ in
      let k₄ = send-keeps (read_byte ch ∷ []) s₃ k₃ in
      u.sodr _ adc.cs_pin apart (u.deselect _ (u.transfer _ 0 (u.transfer _ 0 (u.transfer _ 0 k₄))))
