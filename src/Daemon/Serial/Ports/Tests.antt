-- ===== src/Daemon/Serial/Ports/Tests.antt =====
-- A system whose state is the number of open descriptors, and which refuses the attributes.
use power_monitor.Prelude.{ℕ, ◌+◌, ◌-◌, ◌≡◌, ◌⊎◌, refl, true, false, none, some, arith, ltb, length}
use power_monitor.Prelude.Text.{codes}
use power_monitor.Daemon.Serial.{Os, open_port, write_byte, baud_rate, has_rate}
use power_monitor.Daemon.Serial.Ports.{Descriptors, open_port-opened}

abbrev system : Os
system = record {
  State = ℕ;
  open_file = λ s port. (some s, s + 1);
  set_blocking = λ s fd. s;
  set_attributes = λ s fd rate n t. (false, s);
  write = λ s fd bytes. (some (length bytes), s);
  read = λ s fd n. (none, s);
  close = λ s fd. (some 0, s - 1);
}

last_open : (s fd : ℕ) → some s ≡ some fd → ltb fd (s + 1) ≡ true
last_open s fd e = ground arith

no_failure : (s : ℕ) → some s ≡ none → s + 1 ≡ s
no_failure s e = ground arith

removed : (s fd : ℕ) → ltb fd s ≡ true → s - 1 + 1 ≡ s
removed s fd h = ground arith

abbrev descriptors : Descriptors system
descriptors = record {
  opened = λ s. s;
  is_open = λ s fd. ltb fd s;
  open_adds = λ s port fd e. (refl, last_open s fd e);
  open_fails = λ s port e. no_failure s e;
  blocking_keeps = λ s fd. (refl, refl);
  attributes_keep = λ s fd rate n t. (refl, refl);
  close_removes = λ s fd h. removed s fd h;
}

open_port-opened_example :
    (((fd : ℕ) × ((open_port system 2 (codes "/dev/ttyS0") 115200 0 0).0 ≡ some fd))
      × ((open_port system 2 (codes "/dev/ttyS0") 115200 0 0).1 ≡ 2 + 1))
    ⊎ (((open_port system 2 (codes "/dev/ttyS0") 115200 0 0).0 ≡ none)
        × ((open_port system 2 (codes "/dev/ttyS0") 115200 0 0).1 ≡ 2))
open_port-opened_example = open_port-opened system descriptors 2 (codes "/dev/ttyS0") 115200 0 0

byte_written : write_byte system 2 1 65 ≡ (some 0, 2)
unfolding write_byte
byte_written = refl

rates_known : (baud_rate 9600 ≡ 9600) × (baud_rate 7 ≡ 115200)
unfolding baud_rate has_rate
rates_known = (refl, refl)
