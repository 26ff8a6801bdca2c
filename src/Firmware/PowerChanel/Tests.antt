-- ===== src/Firmware/PowerChanel/Tests.antt =====
-- Readings of a supply with the default calibration.
use power_monitor.Prelude.{ℕ, ◌+◌, ◌-◌, ◌^◌, ◌≡◌, ◌⊎◌, ◌≤◌, ◌<◌, refl, none, arith}
use power_monitor.Firmware.PowerChanel.{
  PowerChanel, get_volts, get_volts_raw, get_volt_calib, get_volt_offset, set_volt_calib,
  set_volt_offset,
}
use power_monitor.Firmware.PowerChanel.Scale.{scaled, get_volts_exact}

abbrev measured : ℕ → ℕ → PowerChanel
measured reading offset = record {
  adc = none;
  volts = reading;
  v_calib = 856;
  volt_offset = offset;
}

get_volts_exact_example :
    (((measured 40000 1).volts < 0x9000) × (get_volts (measured 40000 1) ≡ 0))
    ⊎ (((0x9000 ≤ (measured 40000 1).volts)
          × ((measured 40000 1).volt_offset ≤ scaled (measured 40000 1))
          × (get_volts (measured 40000 1)
              ≡ scaled (measured 40000 1) - (measured 40000 1).volt_offset))
        ⊎ ((0x9000 ≤ (measured 40000 1).volts)
            × (scaled (measured 40000 1) < (measured 40000 1).volt_offset)
            × (get_volts (measured 40000 1)
                ≡ scaled (measured 40000 1) + (2 ^ 32 - (measured 40000 1).volt_offset))))
get_volts_exact_example =
    get_volts_exact (measured 40000 1) (omega arith) (omega arith) (omega arith)

settings_kept :
    get_volt_calib (set_volt_offset (set_volt_calib (measured 3 4) 5) 6)
      + get_volt_offset (set_volt_offset (set_volt_calib (measured 3 4) 5) 6)
      + get_volts_raw (measured 3 4)
    ≡ 14
unfolding get_volt_calib get_volt_offset get_volts_raw set_volt_calib set_volt_offset
settings_kept = refl
