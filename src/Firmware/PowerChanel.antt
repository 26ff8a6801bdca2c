-- ===== src/Firmware/PowerChanel.antt =====
-- firmware/PowerMon/src/PowerChanel.c: a supply that is measured, with its calibration.
pub mod Scale
mod Tests
use power_monitor.Prelude.{
  ℕ, ◌+◌, ◌-◌, ◌*◌, ◌/◌, ◌%◌, ◌^◌, Bool, Option, none, some, ltb, if◌then◌else◌,
}
use power_monitor.Firmware.Board.{Board}
use power_monitor.Firmware.Ad7787
use power_monitor.Firmware.Ad7787.{Ad7787, ad_ch_2}

-- `struct PowerChanel`; `adc` is `none` for NULL, `volt_offset` the bit pattern of an `int32_t`.
pub record PowerChanel : Type 0 where
  pub adc : Option Ad7787
  pub volts : ℕ
  pub v_calib : ℕ
  pub volt_offset : ℕ

unfoldable pub set_volt_calib : PowerChanel → ℕ → PowerChanel
set_volt_calib p factor = record p { v_calib = factor }

pub get_volt_calib : PowerChanel → ℕ
get_volt_calib p = p.v_calib

unfoldable pub set_volt_offset : PowerChanel → ℕ → PowerChanel
set_volt_offset p offset = record p { volt_offset = offset }

pub get_volt_offset : PowerChanel → ℕ
get_volt_offset p = p.volt_offset

-- `PowerChan_GetVolts`, on `uint32_t`: the product and the difference wrap.
unfoldable pub get_volts : PowerChanel → ℕ
get_volts p =
    if ltb p.volts 0x9000
    then 0
    else (p.volts * p.v_calib % 2 ^ 32 / 4096 + 2 ^ 32 - p.volt_offset) % 2 ^ 32

pub get_volts_raw : PowerChanel → ℕ
get_volts_raw p = p.volts

-- `PowerChan_GetCurrent`
unfoldable pub get_current : PowerChanel → ℕ
get_current p = 0

module _ (b : Board) (miso_polls : b.State → ℕ) where
  -- `PowerChan_Init`: the flags say whether its own `malloc` and the one of `AD7787_Init` succeed.
  -- The result of the second is stored unchecked.
  pub init : Bool → Bool → ℕ → b.State → Option PowerChanel × b.State
  init allocated adc_allocated cs_pin s =
      let (adc, s') = Ad7787.init b miso_polls adc_allocated cs_pin s in
      if allocated
      then (some (record { adc = adc; volts = 0; v_calib = 1; volt_offset = 0 }), s')
      else (none, s)

  -- `PowerChan_Run`; `none` is the fault of a NULL converter.
  pub run : PowerChanel → b.State → Option (PowerChanel × b.State)
  run p s = elim p.adc [
    | none ↦ none
    | some adc ↦
        let (value, s') = Ad7787.run b miso_polls adc ad_ch_2 s in
        some (record p { volts = value / 256 }, s')
  ]
