-- ===== src/Firmware/Console/Line.antt =====
-- firmware/PowerMon/src/main.c, `Run_Config`: the line that is typed, and the command it gives.
pub mod Keeps
pub mod Ends
pub mod Inside
pub mod Typed
pub mod Typing
mod Tests
use power_monitor.Prelude.{
  ℕ, zero, suc, ◌+◌, Bool, true, false, not, ◌&&◌, ◌||◌, List, [], ◌∷◌, set, ltb, ◌==◌,
  if◌then◌else◌,
}
use power_monitor.Firmware.Flash.{FlashDriver}
use power_monitor.Firmware.UartBuffer.{put_char, put_string, rx_ready, get_char}
use power_monitor.Firmware.CmdProcessor.{cp_lookup}
use power_monitor.Firmware.Console.{rx_size, System, system_commands}

-- `MsgBuf` and `RxSize`. `overrun` says that a byte went behind the end of `MsgBuf`.
pub record LineBuffer : Type 0 where
  pub msg_buf : List ℕ
  pub size : ℕ
  pub overrun : Bool

-- The C string at the start of a buffer.
pub c_string : List ℕ → List ℕ
c_string [] = []
c_string (c ∷ s) = if c == 0 then [] else c ∷ c_string s

-- `if ( RxSize < RX_SIZE ) { MsgBuf[RxSize++] = c; MsgBuf[RxSize] = 0; }`
pub store_char : LineBuffer → ℕ → LineBuffer
store_char l c =
    if ltb l.size rx_size
    then record l {
      msg_buf = set (set l.msg_buf l.size c) (l.size + 1) 0;
      size = l.size + 1;
      overrun = l.overrun || l.size + 1 == rx_size;
    }
    else l

module _ (d : FlashDriver) (build : List ℕ) where
  -- The body of `if ( RxSize )`: echo, lookup, and the text of the reply.
  pub run_command : LineBuffer → System d build → LineBuffer × System d build
  run_command l s =
      let s' = record s { uart = put_char s.uart 10 } in
      let r = cp_lookup (c_string l.msg_buf) (system_commands d build) s' in
      let s'' = r.state in
      (record l { size = 0 }, record s'' { uart = put_string s''.uart r.buffer })

  -- The body of the loop of `Run_Config` for one character; `Run_Line` does nothing.
  pub handle_char : LineBuffer → System d build → ℕ → LineBuffer × System d build
  handle_char l s c =
      let run = run_command l s in
      if c == 13 || c == 10 then (if l.size == 0 then (l, s) else run) else (store_char l c, s)

  -- `Run_Config`, with fuel for the characters that wait; the Boolean says that the loop ended by
  -- its test, or in the endless loop of the restart.
  pub run_config : ℕ → LineBuffer → System d build → Bool × LineBuffer × System d build
  run_config zero l s = (false, l, s)
  run_config (suc fuel) l s =
      let (c, u) = get_char s.uart in
      let (l', s') = handle_char l (record s { uart = u }) c in
      let rest = run_config fuel l' s' in
      if rx_ready s.uart && not s.halted then rest else (true, l, s)
