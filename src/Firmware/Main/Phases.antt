-- ===== src/Firmware/Main/Phases.antt =====
-- firmware/PowerMon/src/main.c: the loop of `main`, one call at a time, with interrupts between them.
use power_monitor.Prelude.{ℕ, ◌≡◌, refl, Bool, true, false, List, Option, none, some, if◌then◌else◌}
use power_monitor.Firmware.Board.{Board}
use power_monitor.Firmware.Flash.{FlashDriver}
use power_monitor.Firmware.Eeprom.{cache_check}
use power_monitor.Firmware.Heartbeat
use power_monitor.Firmware.Heartbeat.{Heartbeat, is_10ms, is_1s}
use power_monitor.Firmware.UartBuffer.{interrupt}
use power_monitor.Firmware.Console.Line.{run_config}
use power_monitor.Firmware.Main.{
  Machine, Phase, at_heartbeat, each_second, round, phase_step, phase_steps,
}

module _ (d : FlashDriver) (build : List ℕ) (b : Board) (miso_polls : b.State → ℕ)
    (bus : d.State → b.State) (set_bus : d.State → b.State → d.State) where
  abbrev Here : Type 0
  Here = Machine d build b miso_polls bus set_bus

  last_call :
      (second : Bool) (run : Option Here) (m : Here)
      → (elim (if second
            then (elim run as (λ _. Option (Phase × Here)) [
              | none ↦ none
              | some m' ↦ some (at_heartbeat, m')
            ])
            else some (at_heartbeat, m))
          as (λ _. Option (Phase × Here)) [ none ↦ none | some (ph, m') ↦ some (ph, m') ])
        ≡ (elim (if second then run else some m) as (λ _. Option (Phase × Here)) [
          | none ↦ none
          | some m' ↦ some (at_heartbeat, m')
        ])
  last_call true none m = refl
  last_call true (some m') m = refl
  last_call false run m = refl

  -- The state in front of the last call.
  abbrev before_last : ℕ → Here → Here
  before_last fuel m =
      let h = (Heartbeat.run m.heart).1 in
      let s = record m.system { uart = interrupt m.system.uart } in
      let (_, l, s₁) = run_config d build fuel m.line s in
      let (ten, h₁) = is_10ms h in
      let s₂ = if ten then record s₁ { eeprom = (cache_check d s₁.eeprom).1 } else s₁ in
      record m { system = s₂; line = l; heart = (is_1s h₁).1 }

  -- The five calls of the main loop in a row, with no interrupt between them, are a round: they
  -- fault where it faults, and else leave its result, in front of the first call.
  pub phase_steps-round :
      (fuel : ℕ) (m : Here)
      → phase_steps d build b miso_polls bus set_bus 5 fuel at_heartbeat m
        ≡ elim (round d build b miso_polls bus set_bus fuel m) [
          | none ↦ none
          | some m' ↦ some (at_heartbeat, m')
        ]
  unfolding phase_steps phase_step round
  phase_steps-round fuel m =
      last_call (is_1s (is_10ms (Heartbeat.run m.heart).1).1).0
        (each_second d build b miso_polls bus set_bus (before_last fuel m)) (before_last fuel m)
