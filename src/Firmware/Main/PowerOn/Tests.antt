-- ===== src/Firmware/Main/PowerOn/Tests.antt =====
-- A round, and calls of the loop with both interrupts between them, from power-on.
use power_monitor.Prelude.{refl, ◌≡◌, [], ◌∷◌, some, true, arith}
use power_monitor.Firmware.Heartbeat
use power_monitor.Firmware.Console.Line.{run_config}
use power_monitor.Firmware.Main.Interleaved
use power_monitor.Firmware.Main.{
  at_heartbeat, at_1s, phase_step, at_interrupt, at_config, at_10ms, start_up, usart0_handler,
  sys_tick_handler, round,
}
use power_monitor.Firmware.Main.Bench.{
  board, polls, driver, bus, set_bus, shared, token, flash, memory-AreBytes, pri_ch, sec_ch,
  pri_ch-HasConverter, sec_ch-HasConverter, line, line-IsLine,
}
use power_monitor.Firmware.Main.Invariant.{State, Sound}
use power_monitor.Firmware.Console.Line.Inside.{run_config-IsLine}
use power_monitor.Firmware.Main.Rounds.{Inside, round-returns}
use power_monitor.Firmware.Main.Interleaved.{
  SoundAt, at_start, next, usart, sys_tick, call, phase_step-returns,
}
use power_monitor.Firmware.Main.Preempted.{handler, behind, tick_1s, interrupt_commutes}
use power_monitor.Firmware.Main.Preempted
use power_monitor.Firmware.Main.PowerOn.{Reach-Sound, start_up-Sound}

abbrev Here : Type 0
Here = State driver [] board polls bus set_bus

-- A character comes with the first interrupt.
abbrev start : Here
start =
    start_up driver [] board polls bus set_bus flash token pri_ch sec_ch line
      (record { tx_empty = true; received = some 118 } ∷ [])

start-Sound : Sound driver [] board polls bus set_bus token start
start-Sound =
    start_up-Sound driver [] board polls bus set_bus shared token (omega arith) flash pri_ch sec_ch
      line _ tt (omega arith) memory-AreBytes pri_ch-HasConverter sec_ch-HasConverter line-IsLine

-- The one character stays inside the buffer.
start-Inside : Inside driver [] board polls bus set_bus shared token (omega arith) 200 start
unfolding start_up
start-Inside = (run_config-IsLine driver [] 200 start.line _ start-Sound.line (omega arith)).inside

returned :
    (m : Here) × (round driver [] board polls bus set_bus 200 start ≡ some m)
    × Sound driver [] board polls bus set_bus token m
returned =
    round-returns driver [] board polls bus set_bus shared token (omega arith) 200 start
      start-Inside start-Sound

round-returns_example :
    (m : Here) × (round driver [] board polls bus set_bus 200 start ≡ some m)
    × Sound driver [] board polls bus set_bus token m
round-returns_example =
    round-returns driver [] board polls bus set_bus shared token (omega arith) 200 start
      start-Inside start-Sound

-- The first three calls, with both interrupts behind them: the third one takes the character.
begun : Here
begun = record start { heart = (Heartbeat.run start.heart).1 }

taken : Here
unfolding begun
taken = usart0_handler driver [] board polls bus set_bus begun

typed : Here
unfolding taken
typed =
    let (_, l, s) = run_config driver [] 200 taken.line taken.system in
    record taken { system = s; line = l }

begins :
    phase_step driver [] board polls bus set_bus 200 at_heartbeat start ≡ some (at_interrupt, begun)
unfolding phase_step begun
begins = refl

takes :
    phase_step driver [] board polls bus set_bus 200 at_interrupt begun ≡ some (at_config, taken)
unfolding phase_step usart0_handler begun taken
takes = refl

types : phase_step driver [] board polls bus set_bus 200 at_config taken ≡ some (at_10ms, typed)
unfolding phase_step typed taken
types = refl

taken-Inside :
    Interleaved.Inside driver [] board polls bus set_bus shared token
      (omega arith)
      200
      at_config
      taken
unfolding taken begun start_up usart0_handler
taken-Inside =
    (run_config-IsLine driver [] 200 taken.line taken.system start-Sound.line (omega arith)).inside

Reach-Sound_example : SoundAt driver [] board polls bus set_bus token at_10ms (
    sys_tick_handler driver [] board polls bus set_bus
      (usart0_handler driver [] board polls bus set_bus typed))
Reach-Sound_example =
    Reach-Sound driver [] board polls bus set_bus shared token (omega arith) flash pri_ch sec_ch
      line (record { tx_empty = true; received = some 118 } ∷ []) at_10ms _ tt (omega arith)
      memory-AreBytes pri_ch-HasConverter sec_ch-HasConverter line-IsLine
      (next
        (next
          (next (next (next at_start (call 200 tt begins)) (call 200 tt takes))
            (call 200 taken-Inside types))
          usart)
        sys_tick)

-- A tick during the call of the converters.
interrupt_commutes_example :
    phase_step driver [] board polls bus set_bus 200 at_1s
      (handler driver [] board polls bus set_bus Preempted.sys_tick start)
    ≡ behind driver [] board polls bus set_bus Preempted.sys_tick
        (phase_step driver [] board polls bus set_bus 200 at_1s start)
interrupt_commutes_example =
    interrupt_commutes driver [] board polls bus set_bus Preempted.sys_tick at_1s 200 start tick_1s
