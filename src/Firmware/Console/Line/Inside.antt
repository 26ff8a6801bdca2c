-- ===== src/Firmware/Console/Line/Inside.antt =====
-- firmware/PowerMon/src/main.c, `Run_Config`: rounds that cannot leave `MsgBuf`.
use power_monitor.Prelude.{
  ℕ, zero, suc, ◌+◌, ◌≤◌, ◌<◌, ◌≡◌, inl, inr, Bool-cases, false, not, ◌&&◌, ◌||◌, List, ◌==◌, arith,
}
use power_monitor.Firmware.Flash.{FlashDriver}
use power_monitor.Firmware.UartBuffer.{rx_ready, get_char}
use power_monitor.Firmware.Console.{System}
use power_monitor.Firmware.Console.Line.{
  LineBuffer, store_char, handle_char, run_command, run_config,
}
use power_monitor.Firmware.Console.Line.Typed.{IsLine, InsideOrNot-inside, store_char-InsideOrNot}

-- A line inside the buffer that has grown by at most one character.
record Grown (l l' : LineBuffer) : Type 0 where
  line : IsLine l'
  size : l'.size ≤ l.size + 1

store_char-Grown : (l : LineBuffer) (c : ℕ) → IsLine l → l.size + 1 < 256 → Grown l (store_char l c)
unfolding store_char
store_char-Grown l c h room =
    let inside : (store_char l c).overrun ≡ false = ground (arith, h.inside) in
    record {
      line = InsideOrNot-inside (store_char l c) (store_char-InsideOrNot l c (inr h)) inside;
      size = ground arith;
    }

module _ (d : FlashDriver) (build : List ℕ) where
  handle_char-Grown :
      (l : LineBuffer) (s : System d build) (c : ℕ)
      → IsLine l
      → l.size + 1 < 256
      → Grown l (handle_char d build l s c).0
  unfolding handle_char run_command
  handle_char-Grown l s c h room = elim (Bool-cases (c == 13 || c == 10)) [
    | inr e ↦ rw e (store_char-Grown l c h room)
    | inl e ↦ elim (Bool-cases (l.size == 0)) [
      | inl empty ↦ rw (e, empty) (record { line = h; size = omega arith })
      | inr line ↦
          rw (e, line)
            (record {
              line = record { bytes = h.bytes; size = omega arith; inside = h.inside };
              size = omega arith;
            })
    ]
  ]

  pub run_config-IsLine :
      (fuel : ℕ) (l : LineBuffer) (s : System d build)
      → IsLine l
      → l.size + fuel < 256
      → IsLine (run_config d build fuel l s).1
  unfolding run_config
  run_config-IsLine zero l s h room = h
  run_config-IsLine (suc fuel) l s h room = elim (Bool-cases (rx_ready s.uart && not s.halted)) [
    | inr stop ↦ rw stop h
    | inl go ↦
        let (c, u) = get_char s.uart in
        let s₁ : System d build = record s { uart = u } in
        let g = handle_char-Grown l s₁ c h (omega arith) in
        let (l', s') = handle_char d build l s₁ c in
        rw go (run_config-IsLine fuel l' s' g.line (omega (arith, g.size)))
  ]
