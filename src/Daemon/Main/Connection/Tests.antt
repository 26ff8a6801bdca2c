-- ===== src/Daemon/Main/Connection/Tests.antt =====
-- A system without ports.
use power_monitor.Prelude.{ℕ, ◌≡◌, ◌⊎◌, refl, true, false, [], ◌∷◌, none, some}
use power_monitor.Prelude.Text.{codes}
use power_monitor.Daemon.Main.Serving.Tests as Serving
use power_monitor.Daemon.Main.Serving.Tests.{milli, talking}
use power_monitor.Daemon.Main.Connection.{connect_to_port-is_connected}
use power_monitor.Daemon.Commands.{poll}
use power_monitor.Daemon.Library.{is_connected}
use power_monitor.Daemon.Serial.{Os, write_data, read_data, close_port}
use power_monitor.Daemon.Main.{
  start, Daemon, connect_to_port, lose_port, c_string, run_receiver, run_poll, system_shutdown,
}

abbrev no_ports : Os
no_ports = record {
  State = ℕ;
  open_file = λ s port. (none, s);
  set_blocking = λ s fd. s;
  set_attributes = λ s fd rate n t. (true, s);
  write = λ s fd bytes. (none, s);
  read = λ s fd n. (none, s);
  close = λ s fd. (some 0, s);
}

abbrev fresh : Daemon milli 0 no_ports
fresh = record {
  serial_fd = none;
  mem = record {
    mem = record { voltage = 0 ∷ 0 ∷ []; current = 0 ∷ 0 ∷ []; port_connected = false };
    attached = true;
    faulted = false;
  };
  sys = 0;
  last = 0;
  overrun = false;
}

fresh_idle : is_connected milli 0 1 (some fresh.mem.mem) ≡ false
unfolding is_connected
fresh_idle = refl

-- After a failed read the descriptor is the 0 that `close` returns.
failed_read : (run_receiver milli 0 no_ports fresh 3 []).serial_fd ≡ some 0
unfolding run_receiver lose_port read_data close_port
failed_read = refl

failed_poll : (run_poll milli 0 no_ports fresh 3 9).serial_fd ≡ some 0
unfolding run_poll lose_port poll write_data close_port
failed_poll = refl

after_shutdown : (system_shutdown milli 0 no_ports fresh).sys ≡ 0
unfolding system_shutdown
after_shutdown = refl

two_strings : c_string (65 ∷ 0 ∷ 66 ∷ []) ≡ 65 ∷ []
unfolding c_string
two_strings = refl

no_argument : start milli 0 no_ports 1 true true true true 0 ≡ none
unfolding start
no_argument = refl

talking_idle : is_connected milli 0 1 (some Serving.fresh.mem.mem) ≡ false
unfolding is_connected
talking_idle = refl

connect_to_port-is_connected_example :
    let p = connect_to_port milli 0 talking Serving.fresh (codes "tty") in
    (((p.serial_fd ≡ none) × (is_connected milli 0 1 (some p.mem.mem) ≡ false))
      ⊎ (((fd : ℕ) × (p.serial_fd ≡ some fd)) × (is_connected milli 0 1 (some p.mem.mem) ≡ true)))
    × (p.mem.mem.voltage ≡ Serving.fresh.mem.mem.voltage)
    × (p.mem.mem.current ≡ Serving.fresh.mem.mem.current)
connect_to_port-is_connected_example =
    connect_to_port-is_connected milli 0 1 talking Serving.fresh (codes "tty") refl talking_idle
