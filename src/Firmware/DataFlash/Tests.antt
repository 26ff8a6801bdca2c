-- ===== src/Firmware/DataFlash/Tests.antt =====
-- The driver on the simulated chip, which is busy at first.
use power_monitor.Prelude.{◌+◌, ◌%◌, ◌≡◌, true, [], none, ◌==◌, if◌then◌else◌, arith}
use power_monitor.Firmware.Flash.{DfToken, buffer2}
use power_monitor.Firmware.DataFlash.{DataFlash, chip_page, wait_loop, write_buffer_to_flash}
use power_monitor.Firmware.DataFlash.Driver.{Ready, wait_loop-Ready, content-write_buffer_to_flash}
use power_monitor.Firmware.DataFlash.Simulated.{chip}
use power_monitor.Firmware.DataFlash.SimulatedBus.{board, polls}

abbrev token : DfToken
token = record { first_page = 100; size = 16 }

abbrev busy_flash : DataFlash board polls
busy_flash = record {
  cs_pin = 0x20000;
  spi = record {
    content = λ pin q i. (q + i) % 256;
    sram = λ pin w i. i % 256;
    busy = 2;
    working = 0;
    selected = none;
    frame = [];
  };
}

wait_loop-Ready_example :
    let (done, f') = wait_loop board polls 3 busy_flash in
    (done ≡ true) × Ready board polls chip busy_flash f'
wait_loop-Ready_example = wait_loop-Ready board polls chip 3 busy_flash (omega arith)

content-write_buffer_to_flash_example :
    chip.content (write_buffer_to_flash board polls busy_flash token 3 buffer2) 103 9 ≡ (
      if chip_page token 3 == 103
      then chip.buffer busy_flash buffer2 9
      else chip.content busy_flash 103 9)
content-write_buffer_to_flash_example =
    content-write_buffer_to_flash board polls chip busy_flash token 3 buffer2 103 9 (omega arith)
      (omega arith)
