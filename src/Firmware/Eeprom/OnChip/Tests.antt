-- ===== src/Firmware/Eeprom/OnChip/Tests.antt =====
-- A byte that is written through the cache, on the simulated chip.
use power_monitor.Prelude.{◌/◌, ◌%◌, ◌<◌, ◌≡◌, sym, [], none, arith}
use mathlib.Core.Path.{subst}
use power_monitor.Firmware.Flash.{DfToken, FlashDriver}
use power_monitor.Firmware.DataFlash.{DataFlash, chip_page}
use power_monitor.Firmware.DataFlash.Driver.{flash_driver}
use power_monitor.Firmware.DataFlash.Simulated.{chip}
use power_monitor.Firmware.DataFlash.SimulatedBus.{board, polls}
use power_monitor.Firmware.Eeprom.{Eeprom, init, cache_flush}
use power_monitor.Firmware.Eeprom.Bytes.{write1}
use power_monitor.Firmware.Eeprom.Coherent.{Holds}
use power_monitor.Firmware.Eeprom.Memory.{Memory, byte_at, store}
use power_monitor.Firmware.Eeprom.OnChip.{flushed_byte}
use power_monitor.Firmware.Eeprom.Refine.{write1-store}
use power_monitor.Firmware.Eeprom.Trace.{init-Holds}

abbrev token : DfToken
token = record { first_page = 100; size = 16 }

abbrev flash : DataFlash board polls
flash = record {
  cs_pin = 0x20000;
  spi = record {
    content = λ pin q i. 0xFF;
    sram = λ pin w i. 0;
    busy = 2;
    working = 0;
    selected = none;
    frame = [];
  };
}

abbrev driver : FlashDriver
driver = flash_driver board polls chip

abbrev start : Eeprom driver
start = init driver flash token 4

abbrev memory : Memory
memory = driver.page_at flash token

start-Holds : Holds driver start memory
start-Holds = init-Holds driver flash token 4 (omega arith) (omega arith) (omega arith)

written :
    Holds driver (write1 driver start 1030 7) (store memory 1030 7)
    × ((write1 driver start 1030 7).token ≡ token)
unfolding init
written = write1-store driver start memory 1030 7 (omega arith) start-Holds

flushed_byte_example :
    chip.content
      (cache_flush driver (write1 driver start 1030 7)).1.flash
      (chip_page (write1 driver start 1030 7).token (1030 / 512))
      (1030 % 512)
    ≡ byte_at (store memory 1030 7) 1030
flushed_byte_example =
    flushed_byte board polls chip (write1 driver start 1030 7) (store memory 1030 7) 1030
      (subst (λ (t : DfToken). 1030 / 512 < t.size) (sym written.1) (omega arith)) written.0
