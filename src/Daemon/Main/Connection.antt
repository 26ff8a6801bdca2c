-- ===== src/Daemon/Main/Connection.antt =====
-- What clients read of the connection.
mod Tests
use power_monitor.Prelude.{
  ℕ, ◌≡◌, ◌⊎◌, inl, inr, refl, Bool, true, false, List, Option, none, some, Option-cases,
  if◌then◌else◌,
}
use power_monitor.Prelude.Text.{Signed}
use power_monitor.Daemon.Commands.{SharedMem, through, set_connected}
use power_monitor.Daemon.Library.{is_connected}
use power_monitor.Daemon.Serial.{Os, open_port}
use power_monitor.Daemon.Main.{Daemon, connect_to_port}

module _ {F : Type 0} (milli : Signed → F) (nought minus_one : F) (os : Os) where
  -- With the memory attached, where clients read that no port is connected, `Connect_To_Port` makes
  -- them read that one is connected exactly if it got a descriptor, and changes no voltage and no
  -- current.
  pub connect_to_port-is_connected :
      (p : Daemon milli nought os) (port : List ℕ)
      → p.mem.attached ≡ true
      → is_connected milli nought minus_one (some p.mem.mem) ≡ false
      → ((((connect_to_port milli nought os p port).serial_fd ≡ none)
            × (is_connected milli nought minus_one
                  (some (connect_to_port milli nought os p port).mem.mem)
                ≡ false))
          ⊎ (((fd : ℕ) × ((connect_to_port milli nought os p port).serial_fd ≡ some fd))
              × (is_connected milli nought minus_one
                    (some (connect_to_port milli nought os p port).mem.mem)
                  ≡ true)))
        × ((connect_to_port milli nought os p port).mem.mem.voltage ≡ p.mem.mem.voltage)
        × ((connect_to_port milli nought os p port).mem.mem.current ≡ p.mem.mem.current)
  unfolding connect_to_port is_connected set_connected through
  connect_to_port-is_connected p port live idle =
      elim (Option-cases (open_port os p.sys port 115200 0 0).0) [
        | inl e ↦ rw (e, connect_to_port) (inl (refl, idle), refl, refl)
        | inr (fd, e) ↦
            simp (e, live, connect_to_port, through) (inr ((fd, refl), refl), refl, refl)
      ]
