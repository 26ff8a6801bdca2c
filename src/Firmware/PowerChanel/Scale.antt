-- ===== src/Firmware/PowerChanel/Scale.antt =====
-- The voltage in millivolts that a reading, the calibration and the offset give.
use power_monitor.Prelude.{
  ℕ, ◌+◌, ◌-◌, ◌*◌, ◌/◌, ◌^◌, ◌≤◌, ◌<◌, ◌≡◌, ◌⊎◌, inl, inr, Bool-cases, refl, some, arith, ltb,
}
use power_monitor.Firmware.Board.{Board}
use power_monitor.Firmware.Ad7787.Conversion.{LineFalls, run_value}
use power_monitor.Firmware.Ad7787.{Ad7787, ad_ch_2}
use power_monitor.Firmware.Ad7787
use power_monitor.Firmware.PowerChanel.{PowerChanel, get_volts, run}

-- The calibrated reading, in exact arithmetic.
abbrev pub scaled : PowerChanel → ℕ
scaled p = p.volts * p.v_calib / 4096

-- Readings and calibration factors of 16 bits do not overflow 32 bits.
product_fits : (v c : ℕ) → v < 65536 → c < 65536 → v * c < 2 ^ 32
product_fits v c hv hc = grind arith

-- For a reading and a calibration of 16 bits and an offset of 32 bits, `PowerChan_GetVolts` is 0
-- for a reading below 0x9000; above, it is the calibrated reading less the offset where the bit
-- pattern of the offset does not exceed it, and their difference plus 2^32 where it does.
pub get_volts_exact :
    (p : PowerChanel)
    → p.volts < 65536
    → p.v_calib < 65536
    → p.volt_offset < 2 ^ 32
    → ((p.volts < 0x9000) × (get_volts p ≡ 0))
      ⊎ (((0x9000 ≤ p.volts)
            × (p.volt_offset ≤ scaled p)
            × (get_volts p ≡ scaled p - p.volt_offset))
          ⊎ ((0x9000 ≤ p.volts)
              × (scaled p < p.volt_offset)
              × (get_volts p ≡ scaled p + (2 ^ 32 - p.volt_offset))))
unfolding get_volts
get_volts_exact p hv hc ho =
    let fits = product_fits p.volts p.v_calib hv hc in
    elim (Bool-cases (ltb p.volts 0x9000)) [
      | inl low ↦ inl (ground arith)
      | inr high ↦ elim (Bool-cases (ltb (scaled p) p.volt_offset)) [
        | inl over ↦ inr (inr (ground arith))
        | inr under ↦ inr (inl (ground arith))
      ]
    ]

-- For a reading from 0x9000 on and a calibration of 16 bits, a positive offset above the calibrated
-- reading makes `PowerChan_GetVolts` larger than 2^31.
pub get_volts_wraps :
    (p : PowerChanel)
    → p.volts < 65536
    → p.v_calib < 65536
    → 0x9000 ≤ p.volts
    → scaled p < p.volt_offset
    → p.volt_offset < 2 ^ 31
    → 2 ^ 31 < get_volts p
unfolding get_volts
get_volts_wraps p hv hc high lt ho = let fits = product_fits p.volts p.v_calib hv hc in ground arith

product_mono : (v w c c' : ℕ) → v ≤ w → c ≡ c' → v * c ≤ w * c'
product_mono v w c c' le e = rw (← e) (grind arith)

-- Of two channels with the same calibration of 16 bits and the same positive offset, which does not
-- exceed the lower calibrated reading, the one with the higher reading has the higher voltage or an
-- equal one.
pub get_volts_mono :
    (p q : PowerChanel)
    → p.volts ≤ q.volts
    → q.volts < 65536
    → p.v_calib < 65536
    → p.v_calib ≡ q.v_calib
    → p.volt_offset ≡ q.volt_offset
    → p.volt_offset < 2 ^ 31
    → p.volt_offset ≤ scaled p
    → get_volts p ≤ get_volts q
unfolding get_volts
get_volts_mono p q le hq hc same_calib same_offset ho fits = ground (
  arith,
  product_fits p.volts p.v_calib (omega arith) hc,
  product_fits q.volts q.v_calib hq (omega arith),
  product_mono p.volts q.volts p.v_calib q.v_calib le same_calib,
)

module _ (b : Board) (miso_polls : b.State → ℕ) where
  -- With a converter `PowerChan_Run` succeeds and leaves a reading of 16 bits, the range that the
  -- exact voltage asks for; calibration and offset stay.
  pub run_reading :
      (p : PowerChanel) (adc : Ad7787) (s : b.State)
      → p.adc ≡ some adc
      → LineFalls b miso_polls
      → ((t : b.State) (v : ℕ) → (b.spi_transfer t v).0 < 256)
      → (r : PowerChanel × b.State) × (run b miso_polls p s ≡ some r)
        × (r.0.volts < 65536)
        × (r.0.v_calib ≡ p.v_calib)
        × (r.0.volt_offset ≡ p.volt_offset)
  unfolding run
  run_reading p adc s e l bytes =
      let (ended, value, bound) = run_value b miso_polls adc ad_ch_2 s l bytes in
      let (v, s') = Ad7787.run b miso_polls adc ad_ch_2 s in
      ((record p { volts = v / 256 }, s'), simp (e, run), omega arith, refl, refl)

-- With a converter, `PowerChan_Run` does not fault.
pub run-some :
    (b : Board) (miso_polls : b.State → ℕ) (p : PowerChanel) (adc : Ad7787) (s : b.State)
    → p.adc ≡ some adc
    → run b miso_polls p s
      ≡ some (
        record p { volts = (Ad7787.run b miso_polls adc ad_ch_2 s).0 / 256 },
        (Ad7787.run b miso_polls adc ad_ch_2 s).1,
      )
unfolding run
run-some b miso_polls p adc s e = simp (e, run)
