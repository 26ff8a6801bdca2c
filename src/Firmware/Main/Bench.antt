-- ===== src/Firmware/Main/Bench.antt =====
-- A machine to run the loop of `main` on: an erased flash, two converters and an idle USART.
use power_monitor.Prelude.{
  ℕ, ◌-◌, ◌%◌, refl, false, not, ◌==◌, some, replicate, arith, get_or-values,
}
use power_monitor.Firmware.Board.{Board}
use power_monitor.Firmware.Flash.{DfToken, FlashDriver}
use power_monitor.Firmware.Flash.Beside.{ram_beside}
use power_monitor.Firmware.Eeprom.Settings.{AreBytes}
use power_monitor.Firmware.Eeprom.Memory.{Memory, byte_at}
use power_monitor.Firmware.PowerChanel.{PowerChanel}
use power_monitor.Firmware.Console.Line.{LineBuffer}
use power_monitor.Firmware.Console.Line.Typed.{IsLine}
use power_monitor.Firmware.Main.Bus.{SharedBus}
use power_monitor.Firmware.Main.Invariant.{HasConverter}

-- The bus counts the reads of the port that still see the line of the converter high.
abbrev pub board : Board
board = record {
  State = ℕ;
  spi_select_device = λ s. 2;
  spi_deselect_device = λ s. s;
  spi_transfer = λ s v. (0x9C, s);
  pio_codr = λ s pin. s;
  pio_sodr = λ s pin. s;
  pio_per = λ s pin. s;
  pio_oer = λ s pin. s;
  miso_high = λ s. (not (s == 0), s - 1);
}

abbrev pub polls : ℕ → ℕ
polls s = s

abbrev pub driver : FlashDriver
driver = ram_beside ℕ

abbrev pub bus : driver.State → ℕ
bus f = f.1

abbrev pub set_bus : driver.State → ℕ → driver.State
set_bus f s = (f.0, s)

abbrev pub shared : SharedBus driver board bus set_bus
shared = record {
  Quiet = λ f s. Unit;
  at_rest = λ f. tt;
  undisturbed = λ f. record {
    select = λ s k. tt;
    deselect = λ s k. tt;
    transfer = λ s v k. tt;
    codr = λ s pin e k. tt;
    sodr = λ s pin e k. tt;
    miso = λ s k. tt;
  };
  same_pages = λ f s t p k. refl;
}

abbrev pub token : DfToken
token = record { first_page = 100; size = 16 }

abbrev pub flash : driver.State
flash = (record { pages = λ q i. 0xFF; buffers = λ b i. 0 }, 0)

abbrev pub memory : Memory
memory = driver.page_at flash token

pub memory-AreBytes : AreBytes memory
unfolding byte_at
memory-AreBytes a =
    omega (arith, get_or-values {A = ℕ} (λ (i : ℕ). 0xFF) 0 512 (a % 512) 0 (omega arith))

abbrev pub converter : ℕ → PowerChanel
converter pin = record {
  adc = some (record { cs_pin = pin });
  volts = 0;
  v_calib = 1;
  volt_offset = 0;
}

abbrev pub pri_ch : PowerChanel
pri_ch = converter 0x10000

abbrev pub sec_ch : PowerChanel
sec_ch = converter 0x8000

pub pri_ch-HasConverter : HasConverter pri_ch
pri_ch-HasConverter = record { adc = record { cs_pin = 0x10000 }; present = refl; apart = refl }

pub sec_ch-HasConverter : HasConverter sec_ch
sec_ch-HasConverter = record { adc = record { cs_pin = 0x8000 }; present = refl; apart = refl }

abbrev pub line : LineBuffer
line = record { msg_buf = replicate 256 0; size = 0; overrun = false }

pub line-IsLine : IsLine line
line-IsLine = record { bytes = refl; size = omega arith; inside = refl }
