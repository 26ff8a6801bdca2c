-- ===== src/Firmware/UartBuffer/Trace.antt =====
-- The rings under any sequence of calls and interrupts, against the two queues.
use power_monitor.Prelude.{ℕ, ◌≡◌, refl, List, [], ◌∷◌}
use mathlib.Core.Path.{ap₂, subst}
use power_monitor.Firmware.UartBuffer.{Uart, interrupt, get_char, put_char}
use power_monitor.Firmware.UartBuffer.Receive.{IsValid, interrupt-IsValid, put_char-IsValid}
use power_monitor.Firmware.UartBuffer.Queues.{
  Queues, accept, handle, take_char, queues, queues-interrupt, queues-put_char, queues-get_char,
}

-- A call of the main program, or an interrupt.
pub data Call : Type 0 where
  put : (c : ℕ) → Call
  get : Call
  usart0 : Call

-- The characters that the calls of `UartBuffer_GetChar` return, and the state behind all calls.
pub run : List Call → Uart → List ℕ × Uart
run [] u = ([], u)
run (put c ∷ calls) u = run calls (put_char u c)
run (get ∷ calls) u = let (c, u') = get_char u in let (cs, last) = run calls u' in (c ∷ cs, last)
run (usart0 ∷ calls) u = run calls (interrupt u)

unfoldable pub run_queues : List Call → Queues → List ℕ × Queues
run_queues [] q = ([], q)
run_queues (put c ∷ calls) q = run_queues calls (handle (accept q c))
run_queues (get ∷ calls) q =
    let (c, q') = take_char q in let (cs, last) = run_queues calls q' in (c ∷ cs, last)
run_queues (usart0 ∷ calls) q = run_queues calls (handle q)

-- The calls give what they give on the queues, and leave what those stand for.
abbrev pub Agree : List Call → Uart → Queues → Type 0
Agree calls u q =
    ((run calls u).0 ≡ (run_queues calls q).0)
    × (queues (run calls u).1 ≡ (run_queues calls q).1)
    × IsValid (run calls u).1

-- From a valid state, any sequence of calls of `UartBuffer_PutChar` and `UartBuffer_GetChar` and of
-- interrupts between them returns the characters that two queues return: the oldest goes first, a
-- received character is the last, and 0 comes where none waits; a character to send is lost where
-- exactly one waits and the read index is below 255, and with 255 in a queue one more empties it.
-- The rings then stand for those queues, what was sent is the same, and the state is valid.
pub run-Agree : (calls : List Call) (u : Uart) → IsValid u → Agree calls u (queues u)
unfolding run run_queues
run-Agree [] u v = (refl, refl, v)
run-Agree (put c ∷ calls) u v =
    subst (Agree calls (put_char u c)) (queues-put_char u c v)
      (run-Agree calls (put_char u c) (put_char-IsValid u c v))
run-Agree (get ∷ calls) u v =
    let (value, same, v') = queues-get_char u v in
    let (cs, last, v'') =
      subst (Agree calls (get_char u).1) same (run-Agree calls (get_char u).1 v') in
    (ap₂ (λ (c : ℕ) (l : List ℕ). c ∷ l) value cs, last, v'')
run-Agree (usart0 ∷ calls) u v =
    subst (Agree calls (interrupt u)) (queues-interrupt u v)
      (run-Agree calls (interrupt u) (interrupt-IsValid u v))
