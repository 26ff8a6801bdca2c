-- ===== src/Firmware/UartBuffer/Receive.antt =====
-- The receive ring as a queue of at most 255 characters, and what happens to the 256th.
use power_monitor.Prelude.{
  ℕ, ◌%◌, ◌<◌, ◌≡◌, ◌⊎◌, ◌∙◌, inl, inr, refl, ap, true, false, List, [], ◌∷◌, ◌++◌, Option, none,
  some, length, set, length-set, arith, ◌==◌, ltb, Bool-cases, ==→eq,
}
use power_monitor.Firmware.UartBuffer.{
  init, UsartEvent, Uart, interrupt_tx, interrupt_rx, interrupt, next_event, rx_ready, get_char,
  enqueue, put_char,
}
use power_monitor.Firmware.UartBuffer.Ring.{
  fill_level, window, length-window, window_push, window_empty, window_overflow, window_pop,
}

-- Both buffers have 256 bytes and every index is a `uint8_t`.
pub record IsValid (u : Uart) : Type 0 where
  pub tx_size : length u.tx_buffer ≡ 256
  pub rx_size : length u.rx_buffer ≡ 256
  pub tx_in_lt : u.tx_in < 256
  pub tx_out_lt : u.tx_out < 256
  pub rx_in_lt : u.rx_in < 256
  pub rx_out_lt : u.rx_out < 256

pub interrupt_tx-IsValid : (ev : UsartEvent) (u : Uart) → IsValid u → IsValid (interrupt_tx ev u)
unfolding interrupt_tx
interrupt_tx-IsValid ev u v = ground arith

pub interrupt_rx-IsValid : (o : Option ℕ) (u : Uart) → IsValid u → IsValid (interrupt_rx o u)
unfolding interrupt_rx
interrupt_rx-IsValid none u v = v
interrupt_rx-IsValid (some c) u v = ground (arith, length-set u.rx_buffer u.rx_in (c % 256))

pub enqueue-IsValid : (u : Uart) (c : ℕ) → IsValid u → IsValid (enqueue u c)
unfolding enqueue
enqueue-IsValid u c v = ground (arith, length-set u.tx_buffer u.tx_in c)

-- The characters that wait for `UartBuffer_GetChar`, oldest first.
abbrev pub received : Uart → List ℕ
received u = window u.rx_buffer u.rx_out u.rx_in

-- In a valid state, a character that the USART has received goes to the end of the queue while
-- fewer than 255 wait; with 255 waiting the queue is empty afterwards.
pub received-interrupt_rx :
    (c : ℕ) (u : Uart)
    → IsValid u
    → ((length (received u) < 255)
        × (received (interrupt_rx (some c) u) ≡ received u ++ (c % 256 ∷ [])))
      ⊎ ((length (received u) ≡ 255) × (received (interrupt_rx (some c) u) ≡ []))
unfolding interrupt_rx
received-interrupt_rx c u v =
    let len = length-window u.rx_buffer u.rx_out u.rx_in in
    elim (Bool-cases (ltb (fill_level u.rx_out u.rx_in) 255)) [
      | inl room ↦ inl (
        ground (arith, len),
        window_push u.rx_buffer u.rx_out u.rx_in (c % 256) v.rx_size v.rx_out_lt v.rx_in_lt
            (ground arith),
      )
      | inr full ↦ inr (
        ground (arith, len),
        window_overflow (set u.rx_buffer u.rx_in (c % 256)) u.rx_out u.rx_in v.rx_out_lt v.rx_in_lt
            (ground arith),
      )
    ]

-- In a valid state, `UartBuffer_GetChar` returns 0 and changes nothing where no character waits;
-- where one waits it takes the oldest off the queue and keeps the state valid. `UartBuffer_RxReady`
-- tells the two apart.
pub get_char-received :
    (u : Uart)
    → IsValid u
    → ((rx_ready u ≡ false) × (received u ≡ []) × (get_char u ≡ (0, u)))
      ⊎ ((rx_ready u ≡ true)
          × (received u ≡ (get_char u).0 ∷ received (get_char u).1)
          × IsValid (get_char u).1)
unfolding get_char rx_ready
get_char-received u v = elim (Bool-cases (u.rx_in == u.rx_out)) [
  | inl e ↦ rw e (
      inl (
        refl,
        ap (window u.rx_buffer u.rx_out) (==→eq _ _ e)
            ∙ window_empty u.rx_buffer u.rx_out v.rx_out_lt,
        refl,
      ))
  | inr ne ↦ rw ne (
      inr (
        refl,
        window_pop u.rx_buffer u.rx_out u.rx_in v.rx_out_lt v.rx_in_lt (ground arith),
        ground arith,
      ))
]

-- Every call keeps the sizes and the ranges.
pub interrupt-IsValid : (u : Uart) → IsValid u → IsValid (interrupt u)
unfolding interrupt
interrupt-IsValid u v = interrupt_rx-IsValid (next_event u.usart).0.received _ (
    interrupt_tx-IsValid (next_event u.usart).0 (record u { usart = (next_event u.usart).1 })
      (ground arith))

pub put_char-IsValid : (u : Uart) (c : ℕ) → IsValid u → IsValid (put_char u c)
unfolding put_char
put_char-IsValid u c v = interrupt-IsValid (enqueue u c) (enqueue-IsValid u c v)

pub init-IsValid : (usart : List UsartEvent) → IsValid (init usart)
unfolding init
init-IsValid usart = record {
  tx_size = refl;
  rx_size = refl;
  tx_in_lt = omega arith;
  tx_out_lt = omega arith;
  rx_in_lt = omega arith;
  rx_out_lt = omega arith;
}
