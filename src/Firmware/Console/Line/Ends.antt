-- ===== src/Firmware/Console/Line/Ends.antt =====
-- firmware/PowerMon/src/main.c, `Run_Config`: the loop ends.
use power_monitor.Prelude.{
  ℕ, zero, suc, ◌≤◌, ◌<◌, ◌≡◌, refl, true, not, ◌&&◌, List, inl, inr, Bool-cases, arith,
}
use power_monitor.Firmware.Flash.{FlashDriver}
use power_monitor.Firmware.UartBuffer.{rx_ready, get_char}
use power_monitor.Firmware.UartBuffer.Receive.{IsValid, put_char-IsValid}
use power_monitor.Firmware.UartBuffer.Pending.{pending, put_char-pending, get_char-pending}
use power_monitor.Firmware.Console.{System}
use power_monitor.Firmware.Console.Keeps.{KeepsSettings}
use power_monitor.Firmware.Console.Line.{LineBuffer, handle_char, run_config}
use power_monitor.Firmware.Console.Line.Keeps.{handle_char-Kept}

module _ (d : FlashDriver) (build : List ℕ) where
  no_settings : KeepsSettings d (λ e. Unit) (λ p. Unit) build
  no_settings = record {
    read_calib = λ e ch k. tt;
    read_offset = λ e ch k. tt;
    write_calib = λ e ch v lt k. tt;
    write_offset = λ e ch v lt k. tt;
    set_calib = λ p v lt k. tt;
    set_offset = λ p v lt k. tt;
  }

  handle_char-pending :
      (n : ℕ) (l : LineBuffer) (s : System d build) (c : ℕ)
      → IsValid s.uart
      → pending s.uart ≤ n
      → IsValid (handle_char d build l s c).1.uart
        × (pending (handle_char d build l s c).1.uart ≤ n)
  handle_char-pending n l s c v le =
      (handle_char-Kept d build (λ u. IsValid u × (pending u ≤ n)) (λ e. Unit) (λ p. Unit)
        (λ l. Unit)
        (λ u c k. (put_char-IsValid u c k.0, omega (arith, put_char-pending u c k.0, k.1)))
        no_settings (λ l c k. tt) (λ l k. tt) l s c tt ((v, le), tt, tt, tt)).1.0

  -- In a valid state of the rings, the loop of `Run_Config` ends by its own test, or in the endless
  -- loop of the restart, where the fuel exceeds the characters that wait together with the answers
  -- that the USART has still to give.
  pub run_config_ends :
      (fuel : ℕ) (l : LineBuffer) (s : System d build)
      → IsValid s.uart
      → pending s.uart < fuel
      → (run_config d build fuel l s).0 ≡ true
  unfolding run_config
  run_config_ends zero l s v lt = ground arith
  run_config_ends (suc fuel) l s v lt = elim (Bool-cases (rx_ready s.uart && not s.halted)) [
    | inr stop ↦ rw stop refl
    | inl go ↦ elim (get_char-pending s.uart v) [
      | inl (idle, same) ↦ rw idle refl
      | inr (ready, fewer, valid) ↦
          let (c, u) = get_char s.uart in
          let s₁ = record s { uart = u } in
          let (v', le) = handle_char-pending (pending u) l s₁ c valid (omega arith) in
          let (l', s') = handle_char d build l s₁ c in
          rw go (run_config_ends fuel l' s' v' (omega (arith, le, fewer, lt)))
    ]
  ]
