-- ===== src/Firmware/UartBuffer/Pending.antt =====
-- What is still to come from the USART: the characters that wait, and the answers that it will give.
-- No call makes it more, and each character that is read makes it less.
use power_monitor.Prelude.{
  ℕ, suc, ◌+◌, ◌≤◌, ◌≡◌, ◌⊎◌, inl, inr, refl, ap, ◌∙◌, true, false, List, [], ◌∷◌, Option, none,
  some, length, length-append, arith,
}
use mathlib.Core.Path.{ap₂}
use power_monitor.Firmware.UartBuffer.{
  UsartEvent, Uart, next_event, interrupt_tx, interrupt_rx, interrupt, enqueue, put_char,
  put_string, rx_ready, get_char,
}
use power_monitor.Firmware.UartBuffer.Receive.{
  IsValid, received, received-interrupt_rx, get_char-received, interrupt_tx-IsValid,
  enqueue-IsValid,
}

unfoldable pub pending : Uart → ℕ
pending u = length (received u) + length u.usart

-- The transmit half and the queue of the transmitter leave the receiver alone.
pub record SameRx (u u' : Uart) : Type 0 where
  pub buffer : u'.rx_buffer ≡ u.rx_buffer
  pub last : u'.rx_in ≡ u.rx_in
  pub first : u'.rx_out ≡ u.rx_out
  pub rest : u'.usart ≡ u.usart

pub interrupt_tx-SameRx : (ev : UsartEvent) (u : Uart) → SameRx u (interrupt_tx ev u)
unfolding interrupt_tx
interrupt_tx-SameRx ev u = ground arith

enqueue-SameRx : (u : Uart) (c : ℕ) → SameRx u (enqueue u c)
unfolding enqueue
enqueue-SameRx u c = ground arith

received-SameRx : (u u' : Uart) → SameRx u u' → received u' ≡ received u
received-SameRx u u' s = cc (s.buffer, s.last, s.first)

abbrev arrivals : Option ℕ → ℕ
arrivals none = 0
arrivals (some c) = 1

usart-interrupt_rx : (c : ℕ) (u : Uart) → (interrupt_rx (some c) u).usart ≡ u.usart
unfolding interrupt_rx
usart-interrupt_rx c u = refl

no_arrival : (u : Uart) → pending (interrupt_rx none u) ≤ pending u + 0
unfolding interrupt_rx
no_arrival u = omega arith

arrivals-le-one : (o : Option ℕ) → arrivals o ≤ 1
arrivals-le-one none = omega arith
arrivals-le-one (some c) = omega arith

pending-SameRx : (u u' : Uart) → SameRx u u' → pending u' ≡ pending u
unfolding pending
pending-SameRx u u' s = ap₂ ◌+◌ (ap length (received-SameRx u u' s)) (ap length s.rest)

usart-get_char : (u : Uart) → (get_char u).1.usart ≡ u.usart
unfolding get_char
usart-get_char u = ground arith

interrupt_rx-pending :
    (o : Option ℕ) (u : Uart) → IsValid u → pending (interrupt_rx o u) ≤ pending u + arrivals o
unfolding pending
interrupt_rx-pending none u v = no_arrival u
interrupt_rx-pending (some c) u v =
    let same : length (interrupt_rx (some c) u).usart ≡ length u.usart =
      ap length (usart-interrupt_rx c u) in
    elim (received-interrupt_rx c u v) [
      | inl (room, more) ↦
          let longer : length (received (interrupt_rx (some c) u)) ≡ length (received u) + 1 =
            ap length more ∙ length-append (received u) _ in
          omega (arith, longer, same)
      | inr (full, lost) ↦
          let none_left : length (received (interrupt_rx (some c) u)) ≡ 0 = ap length lost in
          omega (arith, none_left, same)
    ]

next_event_shorter :
    (l : List UsartEvent) → length (next_event l).1 + arrivals (next_event l).0.received ≤ length l
unfolding next_event
next_event_shorter [] = omega arith
next_event_shorter (ev ∷ evs) = omega (arith, arrivals-le-one ev.received)

taken :
    (u : Uart) (left : List UsartEvent)
    → pending (record u { usart = left }) + length u.usart ≡ pending u + length left
unfolding pending
taken u left = omega arith

pub interrupt-pending : (u : Uart) → IsValid u → pending (interrupt u) ≤ pending u
unfolding interrupt
interrupt-pending u v =
    let ev = (next_event u.usart).0 in
    let left = (next_event u.usart).1 in
    let u₀ : Uart = record u { usart = left } in
    let v₀ : IsValid u₀ = ground arith in
    let u₁ = interrupt_tx ev u₀ in
    omega (
      arith,
      interrupt_rx-pending ev.received u₁ (interrupt_tx-IsValid ev u₀ v₀),
      pending-SameRx u₀ u₁ (interrupt_tx-SameRx ev u₀),
      taken u left,
      next_event_shorter u.usart,
    )

pub put_char-pending : (u : Uart) (c : ℕ) → IsValid u → pending (put_char u c) ≤ pending u
unfolding put_char
put_char-pending u c v = omega (
  arith,
  interrupt-pending (enqueue u c) (enqueue-IsValid u c v),
  pending-SameRx u (enqueue u c) (enqueue-SameRx u c),
)

-- What `UartBuffer_PutString` cannot break: all that a single character keeps.
pub put_string-keeps :
    (P : Uart → Type 0)
    → ((u : Uart) (c : ℕ) → P u → P (put_char u c))
    → (u : Uart) (s : List ℕ) → P u
    → P (put_string u s)
unfolding put_string
put_string-keeps P put u [] p = p
put_string-keeps P put u (c ∷ s) p = put_string-keeps P put (put_char u c) s (put u c p)

-- A character that is read was pending.
pub get_char-pending :
    (u : Uart)
    → IsValid u
    → ((rx_ready u ≡ false) × (get_char u ≡ (0, u)))
      ⊎ ((rx_ready u ≡ true) × (suc (pending (get_char u).1) ≡ pending u) × IsValid (get_char u).1)
unfolding pending
get_char-pending u v = elim (get_char-received u v) [
  | inl (idle, none_left, same) ↦ inl (idle, same)
  | inr (ready, front, valid) ↦
      inr (ready, omega (arith, ap length front, ap length (usart-get_char u)), valid)
]

pub get_char-IsValid : (u : Uart) → IsValid u → IsValid (get_char u).1
get_char-IsValid u v = elim (get_char-pending u v) [
  | inl (idle, same) ↦ rw same v
  | inr (ready, fewer, valid) ↦ valid
]
