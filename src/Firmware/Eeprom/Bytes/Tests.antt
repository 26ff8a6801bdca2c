-- ===== src/Firmware/Eeprom/Bytes/Tests.antt =====
-- The accesses with defaults, and those of blocks and strings, at places that are erased.
use power_monitor.Prelude.{ℕ, ◌≡◌, refl, [], ◌∷◌}
use power_monitor.Firmware.Flash.Ram.{ram}
use power_monitor.Firmware.Eeprom.{Eeprom}
use power_monitor.Firmware.Eeprom.Bytes.{
  read1, read2, read1_default, read2_default, read, read_string_loop, read_string, write1, write,
  write_string,
}

read_none : (e : Eeprom ram) (a : ℕ) → read ram e a 0 ≡ ([], e)
unfolding read
read_none e a = refl

write_none : (e : Eeprom ram) (a : ℕ) → write ram e a [] ≡ e
unfolding write
write_none e a = refl

read_string_none : (e : Eeprom ram) (a : ℕ) → read_string ram e a 1 ≡ (0 ∷ [], 0, e)
unfolding read_string read_string_loop
read_string_none e a = refl

write_string_one : (e : Eeprom ram) (a : ℕ) → write_string ram e a (65 ∷ []) 1 ≡ write1 ram e a 65
unfolding write_string write
write_string_one e a = refl

read1_default_keeps : (e : Eeprom ram) (a : ℕ) → (read1_default ram e a 3).1 ≡ (read1 ram e a).1
unfolding read1_default
read1_default_keeps e a = refl

read2_default_keeps : (e : Eeprom ram) (a : ℕ) → (read2_default ram e a 3).1 ≡ (read2 ram e a).1
unfolding read2_default
read2_default_keeps e a = refl
