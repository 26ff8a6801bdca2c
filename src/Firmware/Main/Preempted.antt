-- ===== src/Firmware/Main/Preempted.antt =====
-- firmware/PowerMon/src/main.c: interrupts inside a call of the loop that does not use their
-- variables.
use power_monitor.Prelude.{
  ℕ, ◌≡◌, refl, ap, ◌∙◌, inl, inr, Bool, true, false, List, Option, none, some, if◌then◌else◌,
  Bool-cases, Option-cases,
}
use power_monitor.Firmware.Board.{Board}
use power_monitor.Firmware.Flash.{FlashDriver}
use power_monitor.Firmware.Heartbeat.{Heartbeat, is_10ms, is_1s}
use power_monitor.Firmware.Heartbeat.Timing.{is_10ms-tick, is_1s-tick}
use power_monitor.Firmware.PowerChanel
use power_monitor.Firmware.UartBuffer.{interrupt}
use power_monitor.Firmware.Console.{Supply, pri, sec, System, chanel, set_chanel}
use power_monitor.Firmware.Main.{
  Machine, Phase, at_heartbeat, at_interrupt, at_config, at_10ms, at_1s, run_chanel, each_second,
  phase_step, usart0_handler, sys_tick_handler,
}

-- The two interrupts, and the calls that do not use what they change.
pub data Interrupt : Type 0 where
  usart0 sys_tick : Interrupt

pub data Apart : Interrupt → Phase → Type 0 where
  tick_interrupt : Apart sys_tick at_interrupt
  tick_config : Apart sys_tick at_config
  tick_10ms : Apart sys_tick at_10ms
  tick_1s : Apart sys_tick at_1s
  usart_heartbeat : Apart usart0 at_heartbeat
  usart_10ms : Apart usart0 at_10ms
  usart_1s : Apart usart0 at_1s

module _ (d : FlashDriver) (build : List ℕ) (b : Board) (miso_polls : b.State → ℕ)
    (bus : d.State → b.State) (set_bus : d.State → b.State → d.State) where
  abbrev Here : Type 0
  Here = Machine d build b miso_polls bus set_bus

  abbrev pub handler : Interrupt → Here → Here
  handler usart0 = usart0_handler d build b miso_polls bus set_bus
  handler sys_tick = sys_tick_handler d build b miso_polls bus set_bus

  -- The interrupt behind a call.
  unfoldable pub behind : Interrupt → Option (Phase × Here) → Option (Phase × Here)
  behind i none = none
  behind i (some (ph, m)) = some (ph, handler i m)

  abbrev step : ℕ → Phase → Here → Option (Phase × Here)
  step = phase_step d build b miso_polls bus set_bus

  abbrev second : Here → Option Here
  second = each_second d build b miso_polls bus set_bus

  abbrev run_on : Supply → System d build → Option (System d build)
  run_on = run_chanel d build b miso_polls bus set_bus

  ring : System d build → System d build
  ring s = record s { uart = interrupt s.uart }

  -- The converters do not use the rings.
  run_chanel-ring :
      (ch : Supply) (s : System d build)
      → run_on ch (ring s) ≡ elim (run_on ch s) as (λ _. Option (System d build)) [
        | none ↦ none
        | some s' ↦ some (ring s')
      ]
  unfolding run_chanel set_chanel chanel ring
  run_chanel-ring pri s =
      elim (Option-cases (PowerChanel.run b miso_polls s.pri_ch (bus s.eeprom.flash))) [
        | inl e ↦ simp (e, run_chanel) refl
        | inr (r, e) ↦ simp (e, run_chanel) refl
      ]
  run_chanel-ring sec s =
      elim (Option-cases (PowerChanel.run b miso_polls s.sec_ch (bus s.eeprom.flash))) [
        | inl e ↦ simp (e, run_chanel) refl
        | inr (r, e) ↦ simp (e, run_chanel) refl
      ]

  ring-none : (ch : Supply) (s : System d build) → run_on ch s ≡ none → run_on ch (ring s) ≡ none
  ring-none ch s e = rw (run_chanel-ring ch s, e) refl

  ring-some :
      (ch : Supply) (s s' : System d build)
      → run_on ch s ≡ some s'
      → run_on ch (ring s) ≡ some (ring s')
  ring-some ch s s' e = rw (run_chanel-ring ch s, e) refl

  over : Interrupt → Option Here → Option Here
  over i none = none
  over i (some m) = some (handler i m)

  -- The second's work uses neither the counters nor the rings.
  each_second-handler : (i : Interrupt) (m : Here) → second (handler i m) ≡ over i (second m)
  unfolding each_second over ring sys_tick_handler usart0_handler
  each_second-handler sys_tick m = elim (Option-cases (run_on pri m.system)) [
    | inl e ↦ simp (e, each_second) refl
    | inr (s₁, e) ↦ elim (Option-cases (run_on sec s₁)) [
      | inl e₁ ↦ simp (e, e₁, each_second) refl
      | inr (s₂, e₁) ↦ simp (e, e₁, each_second) refl
    ]
  ]
  each_second-handler usart0 m = elim (Option-cases (run_on pri m.system)) [
    | inl e ↦ simp (e, ring-none pri m.system e, each_second) refl
    | inr (s₁, e) ↦ elim (Option-cases (run_on sec s₁)) [
      | inl e₁ ↦ simp (e, ring-some pri m.system s₁ e, e₁, ring-none sec s₁ e₁, each_second) refl
      | inr (s₂, e₁) ↦
          simp (e, ring-some pri m.system s₁ e, e₁, ring-some sec s₁ s₂ e₁, each_second) refl
    ]
  ]

  -- The last call behind its test.
  last_call : Bool → Here → Option (Phase × Here)
  last_call on m =
      let run : Option (Phase × Here) = elim (second m) [
        | none ↦ none
        | some m' ↦ some (at_heartbeat, m')
      ] in
      if on then run else some (at_heartbeat, m)

  last_call-handler :
      (i : Interrupt) (on : Bool) (m : Here)
      → last_call on (handler i m) ≡ behind i (last_call on m)
  unfolding last_call behind over
  last_call-handler i false m = refl
  last_call-handler i true m = elim (Option-cases (second m)) [
    | inl e ↦
        let p : second (handler i m) ≡ none = each_second-handler i m ∙ ap (over i) e in
        simp (e, p, last_call) refl
    | inr (m', e) ↦
        let p : second (handler i m) ≡ some (handler i m') =
          each_second-handler i m ∙ ap (over i) e in
        simp (e, p, last_call) refl
  ]

  -- A SysTick interrupt in front of any call of the main loop but `Hearbeat_Run`, and a USART
  -- interrupt in front of `Hearbeat_Run`, the 10 ms work or the 1 s work, faults where the call
  -- faults, and else leaves the same state, in front of the same next call, as the interrupt behind
  -- the call does.
  pub interrupt_commutes :
      (i : Interrupt) (ph : Phase) (fuel : ℕ) (m : Here)
      → Apart i ph
      → step fuel ph (handler i m) ≡ behind i (step fuel ph m)
  unfolding phase_step behind sys_tick_handler usart0_handler last_call
  interrupt_commutes i ph fuel m tick_interrupt = refl
  interrupt_commutes i ph fuel m tick_config = refl
  interrupt_commutes i ph fuel m tick_10ms = rw (is_10ms-tick m.heart) refl
  interrupt_commutes i ph fuel m tick_1s =
      ap (λ (r : Bool × Heartbeat). last_call r.0 (record m { heart = r.1 })) (is_1s-tick m.heart)
      ∙ last_call-handler sys_tick (is_1s m.heart).0 (record m { heart = (is_1s m.heart).1 })
  interrupt_commutes i ph fuel m usart_heartbeat = refl
  interrupt_commutes i ph fuel m usart_10ms = elim (Bool-cases (is_10ms m.heart).0) [
    | inl e ↦ rw e refl
    | inr e ↦ rw e refl
  ]
  interrupt_commutes i ph fuel m usart_1s =
      last_call-handler usart0 (is_1s m.heart).0 (record m { heart = (is_1s m.heart).1 })
