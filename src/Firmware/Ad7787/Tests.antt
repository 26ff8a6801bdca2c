-- ===== src/Firmware/Ad7787/Tests.antt =====
-- A converter whose line stays high for two reads of the port, and which answers 0x9C.
use power_monitor.Prelude.{
  ℕ, suc, ◌+◌, ◌*◌, ◌-◌, ◌^◌, ◌<◌, ◌≡◌, refl, true, false, none, not, [], ◌∷◌, arith, ◌==◌,
}
use power_monitor.Firmware.Board.{Board}
use power_monitor.Firmware.Ad7787.{
  Ad7787, ad_ch_2, config_byte, cs_on, send, wait_miso_loop, init, run,
}
use power_monitor.Firmware.Ad7787.Conversion.{LineFalls, converted, run_value}

abbrev pub converting : Board
converting = record {
  State = ℕ;
  spi_select_device = λ s. 2;
  spi_deselect_device = λ s. s;
  spi_transfer = λ s v. (0x9C, s);
  pio_codr = λ s pin. s;
  pio_sodr = λ s pin. s;
  pio_per = λ s pin. s;
  pio_oer = λ s pin. s;
  miso_high = λ s. (not (s == 0), s - 1);
}

abbrev pub high_reads : ℕ → ℕ
high_reads s = s

pub falls : LineFalls converting high_reads
falls = record { high = λ s. refl; counts = λ s. refl }

abbrev pub adc : Ad7787
adc = record { cs_pin = 0x10000 }

run_value_example :
    let s₁ =
      send converting high_reads
        (cs_on converting high_reads adc 0)
        (config_byte ad_ch_2 ∷ 0x82 ∷ []) in
    let (v₁, t₁) = converting.spi_transfer (converted converting high_reads adc ad_ch_2 0) 0 in
    let (v₂, t₂) = converting.spi_transfer t₁ 0 in
    let (v₃, t₃) = converting.spi_transfer t₂ 0 in
    ((wait_miso_loop converting high_reads (suc (high_reads s₁)) s₁).0 ≡ true)
    × ((run converting high_reads adc ad_ch_2 0).0 ≡ v₁ * 65536 + v₂ * 256 + v₃)
    × ((run converting high_reads adc ad_ch_2 0).0 < 2 ^ 24)
run_value_example = run_value converting high_reads adc ad_ch_2 0 falls (λ t v. omega arith)

no_memory : init converting high_reads false 0x10000 0 ≡ (none, 0)
unfolding init
no_memory = refl
