-- ===== src/Firmware/Heartbeat.antt =====
-- firmware/PowerMon/src/Heartbeat.c: the millisecond counters behind the 10 ms, 100 ms and 1 s tests
-- of the main loop. `uint8_t`, `uint16_t` and `uint32_t` wrap.
pub mod Timing
mod Tests
use power_monitor.Prelude.{
  ℕ, zero, suc, ◌+◌, ◌-◌, ◌%◌, ◌^◌, Bool, true, false, ltb, leb, if◌then◌else◌,
}

pub record Heartbeat : Type 0 where
  pub ms_counter : ℕ
  pub alive_counter : ℕ
  pub count_10ms : ℕ
  pub count_100ms : ℕ
  pub count_1s : ℕ

-- The static variables start at zero.
abbrev pub reset : Heartbeat
reset = record { ms_counter = 0; alive_counter = 0; count_10ms = 0; count_100ms = 0; count_1s = 0 }

-- `Heartbeat_Tick`, from the SysTick interrupt.
pub tick : Heartbeat → Heartbeat
tick h = record h {
  ms_counter = (h.ms_counter + 1) % 2 ^ 8;
  alive_counter = (h.alive_counter + 1) % 2 ^ 32;
}

-- `Hearbeat_Run`: takes one millisecond over, with interrupts off.
pub run : Heartbeat → Bool × Heartbeat
run h =
    if ltb 0 h.ms_counter
    then (
      true,
      record h {
        ms_counter = h.ms_counter - 1;
        count_1s = (h.count_1s + 1) % 2 ^ 16;
        count_10ms = (h.count_10ms + 1) % 2 ^ 8;
        count_100ms = (h.count_100ms + 1) % 2 ^ 8;
      },
    )
    else (false, h)

pub is_10ms : Heartbeat → Bool × Heartbeat
is_10ms h = if leb 10 h.count_10ms then (true, record h { count_10ms = 0 }) else (false, h)

pub is_100ms : Heartbeat → Bool × Heartbeat
is_100ms h = if leb 100 h.count_100ms then (true, record h { count_100ms = 0 }) else (false, h)

pub is_1s : Heartbeat → Bool × Heartbeat
is_1s h = if leb 1000 h.count_1s then (true, record h { count_1s = 0 }) else (false, h)
