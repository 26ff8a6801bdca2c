-- ===== src/Daemon/Main/Detached/Tests.antt =====
-- A port that is lost, and opened again.
use power_monitor.Prelude.{◌≡◌, true, false, [], ◌∷◌}
use power_monitor.Prelude.Text.{codes}
use power_monitor.Daemon.Main.{lose_port, serve, main_loop, run_ctrl_c}
use power_monitor.Daemon.Main.Detached.{lost_port_faults}
use power_monitor.Daemon.Main.Serving.Tests.{milli, talking, fresh, rounds}

lost_port_faults_example :
    let last =
      main_loop milli 0 talking
        (codes "tty")
        (rounds ∷ [])
        (serve milli 0 talking rounds (lose_port milli 0 talking fresh 3)) in
    (last.mem.attached ≡ false) × ((run_ctrl_c milli 0 talking last).mem.faulted ≡ true)
lost_port_faults_example =
    lost_port_faults milli 0 talking fresh 3 rounds (codes "tty") (rounds ∷ [])
