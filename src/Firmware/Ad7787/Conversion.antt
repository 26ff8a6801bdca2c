-- ===== src/Firmware/Ad7787/Conversion.antt =====
-- The value of a conversion, and the end of the wait for it.
use power_monitor.Prelude.{
  ℕ, zero, suc, ◌+◌, ◌*◌, ◌-◌, ◌^◌, ◌<◌, ◌≡◌, inl, inr, true, not, [], ◌∷◌, arith, ◌==◌, Bool-cases,
}
use power_monitor.Firmware.Board.{Board}
use power_monitor.Firmware.Ad7787.{
  Ad7787, Chanel, config_byte, read_byte, cs_on, send, wait_miso_loop, spi_wait_miso_low, run,
}

module _ (b : Board) (miso_polls : b.State → ℕ) where
  -- The MISO line is high for as long as the converter works: `miso_polls` counts the reads of the
  -- port that still see it high.
  pub record LineFalls : Type 0 where
    pub high : (s : b.State) → (b.miso_high s).0 ≡ not (miso_polls s == 0)
    pub counts : (s : b.State) → miso_polls (b.miso_high s).1 ≡ miso_polls s - 1

  wait_miso_loop_ends :
      (fuel : ℕ) (s : b.State)
      → LineFalls
      → miso_polls s < fuel
      → (wait_miso_loop b miso_polls fuel s).0 ≡ true
  unfolding wait_miso_loop
  wait_miso_loop_ends zero s l lt = absurd (omega arith)
  wait_miso_loop_ends (suc fuel) s l lt = rw (l.high s) (elim (Bool-cases (miso_polls s == 0)) [
    | inl idle ↦ rw idle
    | inr busy ↦
        let some_left : 0 < miso_polls s = ground arith in
        rw busy (wait_miso_loop_ends fuel (b.miso_high s).1 l (omega (arith, l.counts s)))
  ])

  -- The state in which the three data bytes are read.
  abbrev pub converted : Ad7787 → Chanel → b.State → b.State
  converted adc ch s =
      send b miso_polls
        (spi_wait_miso_low b miso_polls
          (send b miso_polls (cs_on b miso_polls adc s) (config_byte ch ∷ 0x82 ∷ [])))
        (read_byte ch ∷ [])

  -- Where MISO reads high exactly as often as the bound on the polls says and every transfer
  -- returns a byte, the wait of `AD7787_Run` ends by its test, and its value is the 24-bit number
  -- of the three data bytes, the first one highest.
  pub run_value :
      (adc : Ad7787) (ch : Chanel) (s : b.State)
      → LineFalls
      → ((t : b.State) (v : ℕ) → (b.spi_transfer t v).0 < 256)
      → let s₁ = send b miso_polls (cs_on b miso_polls adc s) (config_byte ch ∷ 0x82 ∷ []) in
        let (v₁, t₁) = b.spi_transfer (converted adc ch s) 0 in
        let (v₂, t₂) = b.spi_transfer t₁ 0 in
        let (v₃, t₃) = b.spi_transfer t₂ 0 in
        ((wait_miso_loop b miso_polls (suc (miso_polls s₁)) s₁).0 ≡ true)
        × ((run b miso_polls adc ch s).0 ≡ v₁ * 65536 + v₂ * 256 + v₃)
        × ((run b miso_polls adc ch s).0 < 2 ^ 24)
  unfolding run
  run_value adc ch s l bytes =
      let s₂ = converted adc ch s in
      let t₁ = (b.spi_transfer s₂ 0).1 in
      let t₂ = (b.spi_transfer t₁ 0).1 in
      (
        wait_miso_loop_ends _ _ l (omega arith),
        omega (arith, bytes s₂ 0, bytes t₁ 0, bytes t₂ 0),
        omega (arith, bytes s₂ 0, bytes t₁ 0, bytes t₂ 0),
      )
