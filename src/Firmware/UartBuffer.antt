-- ===== src/Firmware/UartBuffer.antt =====
-- firmware/PowerMon/src/UartBuffer.c: the two byte rings between the USART and the main loop. An
-- index is a `uint8_t` over a buffer of 256 bytes, so it wraps by itself.
pub mod Ring
pub mod Receive
pub mod Transmit
pub mod Strings
pub mod Drain
pub mod Pending
pub mod Queues
pub mod Trace
mod Tests
use power_monitor.Prelude.{
  ℕ, ◌+◌, ◌%◌, ◌^◌, Bool, true, false, not, ◌&&◌, List, [], ◌∷◌, ◌++◌, Option, none, some, get_or,
  set, replicate, ◌==◌, if◌then◌else◌,
}

-- What the USART answers in one call of the handler: whether TXBUFE is set, and the character that
-- has been received, if any.
pub record UsartEvent : Type 0 where
  pub tx_empty : Bool
  pub received : Option ℕ

abbrev pub quiet : UsartEvent
quiet = record { tx_empty = false; received = none }

-- The static variables, the answers that the USART will still give (`quiet` behind the last one),
-- and the characters that went out through `usart_putchar`.
pub record Uart : Type 0 where
  pub tx_buffer : List ℕ
  pub rx_buffer : List ℕ
  pub tx_in : ℕ
  pub tx_out : ℕ
  pub rx_in : ℕ
  pub rx_out : ℕ
  pub usart : List UsartEvent
  pub sent : List ℕ

-- An increment of a `uint8_t`.
abbrev pub next_index : ℕ → ℕ
next_index i = (i + 1) % 2 ^ 8

-- `UartBuffer_Init`, the rings as the C start-up code clears them.
unfoldable pub init : List UsartEvent → Uart
init usart = record {
  tx_buffer = replicate 256 0;
  rx_buffer = replicate 256 0;
  tx_in = 0;
  tx_out = 0;
  rx_in = 0;
  rx_out = 0;
  usart = usart;
  sent = [];
}

-- `usart_get_status` and `usart_getchar`: the next answer.
pub next_event : List UsartEvent → UsartEvent × List UsartEvent
next_event [] = (quiet, [])
next_event (ev ∷ evs) = (ev, evs)

-- The transmit half of `UartBuffer_Interrupt`.
pub interrupt_tx : UsartEvent → Uart → Uart
interrupt_tx ev u =
    if ev.tx_empty && not (u.tx_out == u.tx_in)
    then record u {
      sent = u.sent ++ (get_or u.tx_buffer u.tx_out 0 ∷ []);
      tx_out = next_index u.tx_out;
    }
    else u

-- The receive half.
pub interrupt_rx : Option ℕ → Uart → Uart
interrupt_rx none u = u
interrupt_rx (some c) u = record u {
  rx_buffer = set u.rx_buffer u.rx_in (c % 256);
  rx_in = next_index u.rx_in;
}

-- `UartBuffer_Interrupt`
pub interrupt : Uart → Uart
unfolding interrupt_tx interrupt_rx next_event
interrupt u =
    let (ev, rest) = next_event u.usart in
    interrupt_rx ev.received (interrupt_tx ev (record u { usart = rest }))

-- `UartBuffer_TxFull`: the sum is an `int` and does not wrap.
pub tx_full : Uart → Bool
tx_full u = u.tx_in + 1 == u.tx_out

-- The test of `UartBuffer_PutChar` and the store behind it: `out_next` is a `uint16_t`.
pub enqueue : Uart → ℕ → Uart
enqueue u c =
    if not (u.tx_out + 1 == u.tx_in)
    then record u { tx_buffer = set u.tx_buffer u.tx_in c; tx_in = next_index u.tx_in }
    else u

-- `UartBuffer_PutChar`
pub put_char : Uart → ℕ → Uart
put_char u c = interrupt (enqueue u c)

-- `UartBuffer_PutString`
pub put_string : Uart → List ℕ → Uart
put_string u [] = u
put_string u (c ∷ s) = put_string (put_char u c) s

-- `UartBuffer_PutBuffer`, over the `len` bytes of `buf`.
pub put_buffer : Uart → List ℕ → Uart
put_buffer u [] = u
put_buffer u (c ∷ buf) = put_buffer (put_char u c) buf

-- `UartBuffer_RxReady`
pub rx_ready : Uart → Bool
rx_ready u = not (u.rx_in == u.rx_out)

-- `UartBuffer_GetChar`
pub get_char : Uart → ℕ × Uart
unfolding rx_ready
get_char u =
    if rx_ready u
    then (get_or u.rx_buffer u.rx_out 0, record u { rx_out = next_index u.rx_out })
    else (0, u)
