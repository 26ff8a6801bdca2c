-- ===== src/Firmware/Board.antt =====
-- What the firmware calls below its own files: the SPI and PIO registers of the SAM4N through the
-- vendor's framework (firmware/PowerMon/src/ASF and spi_master.c). The state of the peripherals
-- and of the chips behind them is a parameter, and so is the result of each transfer.
use power_monitor.Prelude.{ℕ, Bool}

pub record Board : Type 1 where
  pub State : Type 0
  pub spi_select_device : State → State
  pub spi_deselect_device : State → State
  -- `spi_transfer`: the byte that comes back while one is sent.
  pub spi_transfer : State → ℕ → ℕ × State
  -- Writes of a pin mask to PIO_CODR, PIO_SODR, PIO_PER and PIO_OER.
  pub pio_codr : State → ℕ → State
  pub pio_sodr : State → ℕ → State
  pub pio_per : State → ℕ → State
  pub pio_oer : State → ℕ → State
  -- One read of PIO_PDSR: whether PA12, the MISO line, is high.
  pub miso_high : State → Bool × State
