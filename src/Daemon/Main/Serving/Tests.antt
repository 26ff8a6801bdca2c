-- ===== src/Daemon/Main/Serving/Tests.antt =====
-- A port that gives the same reply at every read.
use power_monitor.Prelude.{ℕ, true, false, List, [], ◌∷◌, ◌++◌, none, some, length, take}
use power_monitor.Prelude.Text.{codes, Signed, plus, minus}
use power_monitor.Daemon.Serial.{Os}
use power_monitor.Daemon.Main.{Daemon, Selected}

abbrev pub milli : Signed → ℕ
milli (plus n) = n
milli (minus n) = 0

abbrev pub reply : List ℕ
reply = codes "Voltage: Pri 11999 mV" ++ (13 ∷ 10 ∷ [])

abbrev pub talking : Os
talking = record {
  State = ℕ;
  open_file = λ s port. (some 3, s);
  set_blocking = λ s fd. s;
  set_attributes = λ s fd rate n t. (true, s);
  write = λ s fd bytes. (some (length bytes), s);
  read = λ s fd n. (some (take n reply), s);
  close = λ s fd. (some 0, s);
}

abbrev pub fresh : Daemon milli 0 talking
fresh = record {
  serial_fd = none;
  mem = record {
    mem = record { voltage = 0 ∷ 0 ∷ []; current = 0 ∷ 0 ∷ []; port_connected = false };
    attached = true;
    faulted = false;
  };
  sys = 0;
  last = 0;
  overrun = false;
}

abbrev pub rounds : List (ℕ × Selected)
rounds =
    (1, some (some (codes "old")))
    ∷ (1, none)
    ∷ (2, some none)
    ∷ (3, some (some (codes "old")))
    ∷ []
