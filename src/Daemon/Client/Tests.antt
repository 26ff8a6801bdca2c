-- ===== src/Daemon/Client/Tests.antt =====
-- The client on a memory that no daemon has connected, and on one with readings.
use power_monitor.Prelude.{ℕ, ◌≡◌, refl, true, false, [], ◌∷◌, none, some}
use power_monitor.Prelude.Text.{Signed, plus, minus}
use power_monitor.Daemon.Client.{failed_to_connect, hardware, ch, print_chanels, test_main}
use power_monitor.Daemon.Library.{is_connected, get_voltage, get_current}

abbrev milli : Signed → ℕ
milli (plus n) = n
milli (minus n) = 0

no_segment : test_main milli 0 9 none ≡ (false, failed_to_connect ∷ [])
unfolding test_main
no_segment = refl

readings :
    test_main milli 0 9
      (some (record { voltage = 5 ∷ 6 ∷ []; current = 7 ∷ 8 ∷ []; port_connected = true }))
    ≡ (true, hardware true ∷ ch 1 (some 5) (some 7) ∷ ch 2 (some 6) (some 8) ∷ [])
unfolding test_main print_chanels is_connected get_voltage get_current
readings = refl
