-- ===== src/Firmware/Main/Rounds.antt =====
-- firmware/PowerMon/src/main.c: a whole round of the loop of `main`.
use power_monitor.Prelude.{
  ℕ, ◌<◌, ◌≡◌, refl, inl, inr, Bool, true, false, List, some, Bool-cases, if◌then◌else◌,
}
use power_monitor.Firmware.Board.{Board}
use power_monitor.Firmware.Flash.{DfToken, FlashDriver}
use power_monitor.Firmware.Eeprom.{cache_check}
use power_monitor.Firmware.Heartbeat
use power_monitor.Firmware.Heartbeat.{is_10ms, is_1s}
use power_monitor.Firmware.Heartbeat.Timing.{round_bounds}
use power_monitor.Firmware.UartBuffer.{interrupt}
use power_monitor.Firmware.UartBuffer.Receive.{interrupt-IsValid, put_char-IsValid}
use power_monitor.Firmware.UartBuffer.Pending.{get_char-IsValid}
use power_monitor.Firmware.Console.{System}
use power_monitor.Firmware.Console.Line.{run_config}
use power_monitor.Firmware.Console.Line.Keeps.{run_config-Kept}
use power_monitor.Firmware.Console.Line.Typed.{
  InsideOrNot, InsideOrNot-inside, store_char-InsideOrNot, clear-InsideOrNot,
}
use power_monitor.Firmware.Main.{round}
use power_monitor.Firmware.Main.Bus.{SharedBus}
use power_monitor.Firmware.Main.Invariant.{
  HasConverter, HoldsBytes, settings-HoldsBytes, State, Sound, SoundSystem, check-HoldsBytes,
  each_second-returns,
}

module _ (d : FlashDriver) (build : List ℕ) (b : Board) (miso_polls : b.State → ℕ)
    (bus : d.State → b.State) (set_bus : d.State → b.State → d.State)
    (shared : SharedBus d b bus set_bus) (t : DfToken) (pos : 0 < t.size) where
  abbrev Here : Type 0
  Here = State d build b miso_polls bus set_bus

  abbrev SoundHere : Here → Type 0
  SoundHere = Sound d build b miso_polls bus set_bus t

  abbrev pub Parts : System d build → Type 0
  Parts = SoundSystem d build b miso_polls bus set_bus shared t pos

  -- The state in front of the test of the second.
  abbrev before_second : ℕ → Here → Here
  before_second fuel m =
      let h = (Heartbeat.run m.heart).1 in
      let s = record m.system { uart = interrupt m.system.uart } in
      let (_, l, s₁) = run_config d build fuel m.line s in
      let (ten, h₁) = is_10ms h in
      let s₂ = if ten then record s₁ { eeprom = (cache_check d s₁.eeprom).1 } else s₁ in
      record m { system = s₂; line = l; heart = (is_1s h₁).1 }

  pub check-Parts :
      (ten : Bool) (s : System d build)
      → Parts s
      → Parts (if ten then record s { eeprom = (cache_check d s.eeprom).1 } else s)
  check-Parts true s h =
      (h.0, check-HoldsBytes d build b miso_polls bus set_bus shared t pos s.eeprom h.1, h.2, h.3)
  check-Parts false s h = h

  -- `Run_Config` does not write behind the end of `MsgBuf`.
  abbrev pub Inside : ℕ → Here → Type 0
  Inside fuel m =
      let s = record m.system { uart = interrupt m.system.uart } in
      (run_config d build fuel m.line s).1.overrun ≡ false

  before_second-Sound :
      (fuel : ℕ) (m : Here) → Inside fuel m → SoundHere m → SoundHere (before_second fuel m)
  before_second-Sound fuel m inside h =
      let s = record m.system { uart = interrupt m.system.uart } in
      let (_, l, s₁) = run_config d build fuel m.line s in
      let (typed, parts) =
        run_config-Kept d build _ (HoldsBytes d t) HasConverter InsideOrNot put_char-IsValid
          (settings-HoldsBytes d build t pos) store_char-InsideOrNot clear-InsideOrNot
          get_char-IsValid fuel m.line s (inr h.line)
          (interrupt-IsValid m.system.uart h.uart, h.eeprom, h.pri_ch, h.sec_ch) in
      let k = check-Parts (is_10ms (Heartbeat.run m.heart).1).0 s₁ parts in
      let counts = round_bounds m.heart h.ten h.second in
      record {
        uart = k.0;
        line = InsideOrNot-inside _ typed inside;
        eeprom = k.1;
        pri_ch = k.2;
        sec_ch = k.3;
        ten = counts.0;
        second = counts.1;
      }

  -- Over a flash that is not disturbed on its bus and a token of at least one page, a round of the
  -- main loop from a sound state (rings, line, cache and flash, converters and counters as `Sound`
  -- says), with any fuel for `Run_Config` where that does not write behind the end of `MsgBuf`,
  -- does not fault on a converter, and its result is sound.
  pub round-returns :
      (fuel : ℕ) (m : Here)
      → Inside fuel m
      → SoundHere m
      → (m' : Here) × (round d build b miso_polls bus set_bus fuel m ≡ some m') × SoundHere m'
  unfolding round
  round-returns fuel m inside h =
      let before = before_second fuel m in
      let k = before_second-Sound fuel m inside h in
      let (m', run, parts, line, heart) =
        each_second-returns d build b miso_polls bus set_bus shared t pos before
          (k.uart, k.eeprom, k.pri_ch, k.sec_ch) in
      elim (Bool-cases (is_1s (is_10ms (Heartbeat.run m.heart).1).1).0) [
        | inr early ↦ (before, rw (early, round) refl, k)
        | inl second ↦ (
          m',
          rw (second, round) run,
          record {
            uart = parts.0;
            line = rw line (k.line);
            eeprom = parts.1;
            pri_ch = parts.2;
            sec_ch = parts.3;
            ten = rw heart (k.ten);
            second = rw heart (k.second);
          },
        )
      ]
