-- ===== src/Firmware/UartBuffer/Tests.antt =====
-- The rings from reset, over a USART that takes two characters, and over one that takes none.
use power_monitor.Prelude.{
  ◌≡◌, refl, true, false, List, [], ◌∷◌, ◌++◌, none, some, length, replicate, values, ◌≤◌, arith,
}
use power_monitor.Firmware.UartBuffer.{
  UsartEvent, Uart, init, next_event, put_string, put_buffer, tx_full,
}
use power_monitor.Firmware.UartBuffer.Ring.{window, window_empty}
use power_monitor.Firmware.UartBuffer.Receive.{IsValid, init-IsValid}
use power_monitor.Firmware.UartBuffer.Transmit.{queued}
use power_monitor.Firmware.UartBuffer.Queues.{queues, handle, accept, transmit, receive, take_char}
use power_monitor.Firmware.UartBuffer.Trace.{Call, put, get, usart0, run_queues, Agree, run-Agree}
use power_monitor.Firmware.UartBuffer.Drain.{no_more, takes, interrupts, interrupts-sent}
use power_monitor.Firmware.UartBuffer.Strings.{put_string_busy}

abbrev ready : UsartEvent
ready = record { tx_empty = true; received = none }

abbrev taking : Uart
taking = init (ready ∷ ready ∷ [])

abbrev idle : Uart
idle = init []

taking-IsValid : IsValid taking
unfolding init
taking-IsValid = record {
  tx_size = refl;
  rx_size = refl;
  tx_in_lt = omega arith;
  tx_out_lt = omega arith;
  rx_in_lt = omega arith;
  rx_out_lt = omega arith;
}

idle-IsValid : IsValid idle
unfolding init
idle-IsValid = record {
  tx_size = refl;
  rx_size = refl;
  tx_in_lt = omega arith;
  tx_out_lt = omega arith;
  rx_in_lt = omega arith;
  rx_out_lt = omega arith;
}

put_string_busy_example :
    ((put_string idle (65 ∷ 66 ∷ [])).sent ≡ idle.sent)
    × (queued (put_string idle (65 ∷ 66 ∷ [])) ≡ 65 ∷ [])
unfolding init
put_string_busy_example =
    put_string_busy 65 (66 ∷ []) idle idle-IsValid (window_empty idle.tx_buffer 0 (omega arith))
      (omega arith) tt

put_buffer_none : put_buffer idle [] ≡ idle
unfolding put_buffer
put_buffer_none = refl

tx_full_none : tx_full idle ≡ false
unfolding tx_full init
tx_full_none = refl

-- Two characters in the queue, and a USART that takes both.
abbrev loaded : Uart
loaded = record {
  tx_buffer = 79 ∷ 75 ∷ replicate 254 0;
  rx_buffer = replicate 256 0;
  tx_in = 2;
  tx_out = 0;
  rx_in = 0;
  rx_out = 0;
  usart = ready ∷ ready ∷ [];
  sent = [];
}

loaded-IsValid : IsValid loaded
loaded-IsValid = record {
  tx_size = refl;
  rx_size = refl;
  tx_in_lt = omega arith;
  tx_out_lt = omega arith;
  rx_in_lt = omega arith;
  rx_out_lt = omega arith;
}

two_queued : length (queued loaded) ≤ 2
unfolding window values
two_queued = omega arith

interrupts-sent_example :
    ((interrupts 2 loaded).sent ≡ loaded.sent ++ queued loaded)
    × (queued (interrupts 2 loaded) ≡ [])
    × IsValid (interrupts 2 loaded)
interrupts-sent_example =
    interrupts-sent 2 loaded loaded-IsValid (takes refl (takes refl no_more)) two_queued

-- `v` comes in and goes out again, and a line end behind it waits for the transmitter.
abbrev echo : List Call
echo = usart0 ∷ get ∷ put 118 ∷ put 13 ∷ []

abbrev typing : Uart
typing = init (record { tx_empty = false; received = some 118 } ∷ ready ∷ [])

typing-IsValid : IsValid typing
typing-IsValid = init-IsValid _

run-Agree_example : Agree echo typing (queues typing)
run-Agree_example = run-Agree echo typing typing-IsValid

echoed : (run_queues echo (queues typing)).0 ≡ 118 ∷ []
unfolding run_queues handle receive transmit take_char accept next_event init window values
echoed = refl
