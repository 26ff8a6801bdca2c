-- ===== src/Firmware/Flash/Beside.antt =====
-- A flash in memory, with a state beside it that it leaves alone.
use power_monitor.Prelude.{ap}
use power_monitor.Firmware.Flash.{FlashDriver}
use power_monitor.Firmware.Flash.Ram.{Ram, ram}

abbrev pub ram_beside : Type 0 → FlashDriver
ram_beside B = record {
  State = Ram × B;
  read_page_direct =
      λ s t p start n dest. let (l, r) = ram.read_page_direct s.0 t p start n dest in (l, (r, s.1));
  write_buffer_to_flash = λ s t p b. (ram.write_buffer_to_flash s.0 t p b, s.1);
  buffer_write = λ s t p start n b src. (ram.buffer_write s.0 t p start n b src, s.1);
  Fits = λ t. Unit;
  page_at = λ s. ram.page_at s.0;
  held = λ s. ram.held s.0;
  length-page_at = λ s. ram.length-page_at s.0;
  read_page = λ s. ram.read_page s.0;
  read_keeps = λ s. ram.read_keeps s.0;
  read_keeps_held = λ s. ram.read_keeps_held s.0;
  program_page = λ s. ram.program_page s.0;
  program_refused = λ s t p b le. ap (λ (r : Ram). (r, s.1)) (ram.program_refused s.0 t p b le);
  buffer_write_held = λ s. ram.buffer_write_held s.0;
  buffer_write_keeps = λ s. ram.buffer_write_keeps s.0;
}
