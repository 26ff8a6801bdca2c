-- ===== src/Firmware/Main/Interleaved.antt =====
-- firmware/PowerMon/src/main.c: every state that the calls of the loop of `main` and the interrupts
-- between them reach. These are more than the firmware's: `Run_Config` may stop early for lack of
-- fuel, and a machine that has halted for its restart goes on with the other calls.
use power_monitor.Prelude.{
  ℕ, false, ◌≤◌, ◌<◌, ◌≡◌, refl, sym, ◌∙◌, inl, inr, List, Option, some, Bool-cases, arith,
  if◌then◌else◌,
}
use mathlib.Core.Path.{subst}
use mathlib.Core.Option.{some-injective}
use power_monitor.Firmware.Board.{Board}
use power_monitor.Firmware.Flash.{DfToken, FlashDriver}
use power_monitor.Firmware.Eeprom.{cache_check}
use power_monitor.Firmware.Heartbeat
use power_monitor.Firmware.Heartbeat.{Heartbeat, tick, is_10ms, is_1s}
use power_monitor.Firmware.Heartbeat.Timing.{tick_counts, run_counts, is_10ms_counts, is_1s_counts}
use power_monitor.Firmware.UartBuffer.Receive.{IsValid, interrupt-IsValid, put_char-IsValid}
use power_monitor.Firmware.UartBuffer.Pending.{get_char-IsValid}
use power_monitor.Firmware.Console.Line.{run_config}
use power_monitor.Firmware.Console.Line.Keeps.{run_config-Kept}
use power_monitor.Firmware.Console.Line.Typed.{
  IsLine, InsideOrNot, InsideOrNot-inside, store_char-InsideOrNot, clear-InsideOrNot,
}
use power_monitor.Firmware.Main.{
  Phase, at_heartbeat, at_interrupt, at_config, at_10ms, at_1s, phase_step, usart0_handler,
  sys_tick_handler,
}
use power_monitor.Firmware.Main.Bus.{SharedBus}
use power_monitor.Firmware.Main.Invariant.{
  HasConverter, HoldsBytes, settings-HoldsBytes, State, each_second-returns,
}
use power_monitor.Firmware.Main.Rounds.{check-Parts}

-- The bounds of the counters in front of each call.
abbrev pub Counters : Phase → Heartbeat → Type 0
Counters at_heartbeat h = (h.count_10ms < 10) × (h.count_1s < 1000)
Counters at_interrupt h = (h.count_10ms ≤ 10) × (h.count_1s ≤ 1000)
Counters at_config h = (h.count_10ms ≤ 10) × (h.count_1s ≤ 1000)
Counters at_10ms h = (h.count_10ms ≤ 10) × (h.count_1s ≤ 1000)
Counters at_1s h = (h.count_10ms < 10) × (h.count_1s ≤ 1000)

Counters-same :
    (ph : Phase) (h h' : Heartbeat)
    → h'.count_10ms ≡ h.count_10ms
    → h'.count_1s ≡ h.count_1s
    → Counters ph h
    → Counters ph h'
Counters-same at_heartbeat h h' e e' c = omega (arith, c.0, c.1, e, e')
Counters-same at_interrupt h h' e e' c = omega (arith, c.0, c.1, e, e')
Counters-same at_config h h' e e' c = omega (arith, c.0, c.1, e, e')
Counters-same at_10ms h h' e e' c = omega (arith, c.0, c.1, e, e')
Counters-same at_1s h h' e e' c = omega (arith, c.0, c.1, e, e')

module _ (d : FlashDriver) (build : List ℕ) (b : Board) (miso_polls : b.State → ℕ)
    (bus : d.State → b.State) (set_bus : d.State → b.State → d.State) where
  -- What holds in front of a call.
  pub record SoundAt (t : DfToken) (ph : Phase) (m : State d build b miso_polls bus set_bus)
      : Type 0 where
    pub uart : IsValid m.system.uart
    pub line : IsLine m.line
    pub eeprom : HoldsBytes d t m.system.eeprom
    pub pri_ch : HasConverter m.system.pri_ch
    pub sec_ch : HasConverter m.system.sec_ch
    pub counters : Counters ph m.heart

  module _ (shared : SharedBus d b bus set_bus) (t : DfToken) (pos : 0 < t.size) where
    abbrev Here : Type 0
    Here = State d build b miso_polls bus set_bus

    abbrev step : ℕ → Phase → Here → Option (Phase × Here)
    step = phase_step d build b miso_polls bus set_bus

    -- A call that goes on with the next one.
    abbrev Goes : ℕ → Phase → Here → Type 0
    Goes fuel ph m =
        (ph' : Phase) × (m' : Here) × (step fuel ph m ≡ some (ph', m')) × SoundAt t ph' m'

    -- A call that does not write behind the end of `MsgBuf`.
    abbrev pub Inside : ℕ → Phase → Here → Type 0
    Inside fuel at_heartbeat m = Unit
    Inside fuel at_interrupt m = Unit
    Inside fuel at_config m = (run_config d build fuel m.line m.system).1.overrun ≡ false
    Inside fuel at_10ms m = Unit
    Inside fuel at_1s m = Unit

    config-Sound :
        (fuel : ℕ) (m : Here)
        → Inside fuel at_config m
        → SoundAt t at_config m
        → let (_, l, s) = run_config d build fuel m.line m.system in
          SoundAt t at_10ms (record m { system = s; line = l })
    config-Sound fuel m inside h =
        let (typed, parts) =
          run_config-Kept d build IsValid (HoldsBytes d t) HasConverter InsideOrNot put_char-IsValid
            (settings-HoldsBytes d build t pos) store_char-InsideOrNot clear-InsideOrNot
            get_char-IsValid fuel m.line m.system (inr h.line)
            (h.uart, h.eeprom, h.pri_ch, h.sec_ch) in
        record {
          uart = parts.0;
          line = InsideOrNot-inside _ typed inside;
          eeprom = parts.1;
          pri_ch = parts.2;
          sec_ch = parts.3;
          counters = h.counters;
        }

    -- A call from a sound state that stays inside `MsgBuf` does not fault, and leaves a sound one
    -- in front of the next call.
    pub phase_step-returns :
        (fuel : ℕ) (ph : Phase) (m : Here) → Inside fuel ph m → SoundAt t ph m → Goes fuel ph m
    unfolding phase_step usart0_handler
    phase_step-returns fuel at_heartbeat m inside h =
        let c = run_counts m.heart in
        (
          at_interrupt,
          record m { heart = (Heartbeat.run m.heart).1 },
          refl,
          record {
            uart = h.uart;
            line = h.line;
            eeprom = h.eeprom;
            pri_ch = h.pri_ch;
            sec_ch = h.sec_ch;
            counters = omega (arith, c.0, c.1, h.counters.0, h.counters.1);
          },
        )
    phase_step-returns fuel at_interrupt m inside h = (
      at_config,
      usart0_handler d build b miso_polls bus set_bus m,
      refl,
      record {
        uart = interrupt-IsValid m.system.uart h.uart;
        line = h.line;
        eeprom = h.eeprom;
        pri_ch = h.pri_ch;
        sec_ch = h.sec_ch;
        counters = h.counters;
      },
    )
    phase_step-returns fuel at_config m inside h =
        let (_, l, s) = run_config d build fuel m.line m.system in
        (at_10ms, record m { system = s; line = l }, refl, config-Sound fuel m inside h)
    phase_step-returns fuel at_10ms m inside h =
        let s = m.system in
        let parts =
          check-Parts d build b miso_polls bus set_bus shared t pos (is_10ms m.heart).0 s
            (h.uart, h.eeprom, h.pri_ch, h.sec_ch) in
        let c = is_10ms_counts m.heart h.counters.0 in
        (
          at_1s,
          record m {
            system =
                if (is_10ms m.heart).0 then record s { eeprom = (cache_check d s.eeprom).1 } else s;
            heart = (is_10ms m.heart).1;
          },
          refl,
          record {
            uart = parts.0;
            line = h.line;
            eeprom = parts.1;
            pri_ch = parts.2;
            sec_ch = parts.3;
            counters = omega (arith, c.0, c.1, h.counters.1);
          },
        )
    phase_step-returns fuel at_1s m inside h =
        let m₁ : Here = record m { heart = (is_1s m.heart).1 } in
        let c = is_1s_counts m.heart h.counters.1 in
        let counted : Counters at_heartbeat m₁.heart = omega (arith, c.0, c.1, h.counters.0) in
        let (m₂, run, parts, line, heart) =
          each_second-returns d build b miso_polls bus set_bus shared t pos m₁
            (h.uart, h.eeprom, h.pri_ch, h.sec_ch) in
        elim (Bool-cases (is_1s m.heart).0) [
          | inr early ↦ (
            at_heartbeat,
            m₁,
            rw (early, phase_step) refl,
            record {
              uart = h.uart;
              line = h.line;
              eeprom = h.eeprom;
              pri_ch = h.pri_ch;
              sec_ch = h.sec_ch;
              counters = counted;
            },
          )
          | inl second ↦ (
            at_heartbeat,
            m₂,
            rw (second, run, phase_step) refl,
            record {
              uart = parts.0;
              line = rw line (h.line);
              eeprom = parts.1;
              pri_ch = parts.2;
              sec_ch = parts.3;
              counters = rw heart counted;
            },
          )
        ]

    -- A step of the firmware: an interrupt, or a call of the loop of `main`. What the program does
    -- behind a write past the end of `MsgBuf` is undefined, so no run goes on behind one.
    pub data Step : Phase × Here → Phase × Here → Type 0 where
      usart :
          {ph : Phase} {m : Here}
          → Step (ph, m) (ph, usart0_handler d build b miso_polls bus set_bus m)
      sys_tick :
          {ph : Phase} {m : Here}
          → Step (ph, m) (ph, sys_tick_handler d build b miso_polls bus set_bus m)
      call :
          {ph ph' : Phase} {m m' : Here} (fuel : ℕ)
          → Inside fuel ph m
          → step fuel ph m ≡ some (ph', m')
          → Step (ph, m) (ph', m')

    pub data Reach (start : Phase × Here) : Phase × Here → Type 0 where
      at_start : Reach start start
      next : {p q : Phase × Here} → Reach start p → Step p q → Reach start q

    step-Sound : {p q : Phase × Here} → Step p q → SoundAt t p.0 p.1 → SoundAt t q.0 q.1
    unfolding usart0_handler sys_tick_handler
    step-Sound (usart {ph} {m}) h = record {
      uart = interrupt-IsValid m.system.uart h.uart;
      line = h.line;
      eeprom = h.eeprom;
      pri_ch = h.pri_ch;
      sec_ch = h.sec_ch;
      counters = h.counters;
    }
    step-Sound (sys_tick {ph} {m}) h =
        let (ten, second) = tick_counts m.heart in
        record {
          uart = h.uart;
          line = h.line;
          eeprom = h.eeprom;
          pri_ch = h.pri_ch;
          sec_ch = h.sec_ch;
          counters = Counters-same ph m.heart (tick m.heart) ten second h.counters;
        }
    step-Sound (call {ph} {ph'} {m} {m'} fuel inside e) h =
        let (ph₁, m₁, e₁, k) = phase_step-returns fuel ph m inside h in
        subst (λ (p : Phase × Here). SoundAt t p.0 p.1)
          (some-injective (ph₁, m₁) (ph', m') (sym e₁ ∙ e)) k

    pub kept :
        (start p : Phase × Here) → SoundAt t start.0 start.1 → Reach start p → SoundAt t p.0 p.1
    kept start p h at_start = h
    kept start p h (next r s) = step-Sound s (kept start _ h r)
