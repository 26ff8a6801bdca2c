-- ===== src/Firmware/Heartbeat/Tests.antt =====
-- The counters from reset.
use power_monitor.Prelude.{◌+◌, ◌%◌, ◌≡◌, ◌↔◌, refl, true, false, arith}
use power_monitor.Firmware.Heartbeat.{reset, is_100ms}
use power_monitor.Firmware.Heartbeat.Timing.{ticks, runs, round, rounds, runs-ticks, round_exact}

runs-ticks_example :
    let h' = runs 3 (ticks 3 reset) in
    (h'.ms_counter ≡ 0)
    × (h'.count_10ms ≡ reset.count_10ms + 3)
    × (h'.count_1s ≡ reset.count_1s + 3)
runs-ticks_example = runs-ticks 3 reset refl (omega arith) (omega arith) (omega arith)

round_exact_example :
    (((round (rounds 9 reset)).0 ≡ true) ↔ ((9 + 1) % 10 ≡ 0))
    × (((round (rounds 9 reset)).1 ≡ true) ↔ ((9 + 1) % 1000 ≡ 0))
round_exact_example = round_exact 9 reset (refl, refl, refl)

is_100ms_early : is_100ms reset ≡ (false, reset)
unfolding is_100ms
is_100ms_early = refl
