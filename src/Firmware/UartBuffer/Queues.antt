-- ===== src/Firmware/UartBuffer/Queues.antt =====
-- The two rings as two queues: what each function of UartBuffer.c does to them.
use power_monitor.Prelude.{
  ℕ, ◌+◌, ◌%◌, ◌≤◌, ◌<◌, ◌≡◌, ◌≢◌, ◌⊎◌, ◌∙◌, inl, inr, refl, sym, ap, Bool, true, false, ◌&&◌, List,
  [], ◌∷◌, ◌++◌, Option, none, some, length, arith, ◌==◌, ==→eq, ltb, Bool-cases, if◌then◌else◌,
}
use power_monitor.Firmware.UartBuffer.{
  UsartEvent, Uart, next_index, next_event, interrupt_tx, interrupt_rx, interrupt, get_char,
  enqueue, put_char, rx_ready,
}
use power_monitor.Firmware.UartBuffer.Ring.{window, window_empty, window_pop}
use power_monitor.Firmware.UartBuffer.Receive.{
  IsValid, received, received-interrupt_rx, interrupt_tx-IsValid, enqueue-IsValid,
}
use power_monitor.Firmware.UartBuffer.Transmit.{queued, enqueue-queued}

-- What the two rings stand for, with the index of the oldest character to send.
pub record Queues : Type 0 where
  pub to_send : List ℕ
  pub first : ℕ
  pub waiting : List ℕ
  pub usart : List UsartEvent
  pub sent : List ℕ

-- A character to send is lost where exactly one waits and its index is below 255; the 256th that
-- waits takes all of them along.
unfoldable pub accept : Queues → ℕ → Queues
accept q c =
    if length q.to_send == 1 && ltb q.first 255
    then q
    else if ltb (length q.to_send) 255
    then record q { to_send = q.to_send ++ (c ∷ []) }
    else record q { to_send = [] }

unfoldable pub transmit : Bool → Queues → Queues
transmit false q = q
transmit true q = elim q.to_send [
  | [] ↦ q
  | c ∷ rest ↦ record q { to_send = rest; first = next_index q.first; sent = q.sent ++ (c ∷ []) }
]

unfoldable pub receive : Option ℕ → Queues → Queues
receive none q = q
receive (some c) q =
    if ltb (length q.waiting) 255
    then record q { waiting = q.waiting ++ (c % 256 ∷ []) }
    else record q { waiting = [] }

unfoldable pub handle : Queues → Queues
unfolding next_event
handle q =
    let (ev, rest) = next_event q.usart in
    receive ev.received (transmit ev.tx_empty (record q { usart = rest }))

unfoldable pub take_char : Queues → ℕ × Queues
take_char q = elim q.waiting [ [] ↦ (0, q) | c ∷ rest ↦ (c, record q { waiting = rest }) ]

-- What the rings of a state stand for.
abbrev pub queues : Uart → Queues
queues u = record {
  to_send = queued u;
  first = u.tx_out;
  waiting = received u;
  usart = u.usart;
  sent = u.sent;
}

ltb-true : (a b : ℕ) → a < b → ltb a b ≡ true
ltb-true a b lt = ground arith

ltb-false : (a b : ℕ) → b ≤ a → ltb a b ≡ false
ltb-false a b le = ground arith

==-true : (a b : ℕ) → a ≡ b → (a == b) ≡ true
==-true a b e = ground arith

not_lost : (n out : ℕ) → (n ≢ 1) ⊎ (out ≡ 255) → (n == 1 && ltb out 255) ≡ false
not_lost n out other = ground arith

enqueue_others :
    (u : Uart) (c : ℕ) → queues (enqueue u c) ≡ record (queues u) { to_send = queued (enqueue u c) }
unfolding enqueue
enqueue_others u c = elim (Bool-cases (u.tx_out + 1 == u.tx_in)) [
  | inl e ↦ rw e refl
  | inr e ↦ rw e refl
]

queues-enqueue : (u : Uart) (c : ℕ) → IsValid u → queues (enqueue u c) ≡ accept (queues u) c
unfolding enqueue accept
queues-enqueue u c v = elim (enqueue-queued u c v) [
  | inl (one, low, e) ↦ ap queues e ∙ rw (==-true _ 1 one, ltb-true _ 255 low) refl
  | inr (other, inl (room, e)) ↦
      enqueue_others u c
      ∙ ap (λ (l : List ℕ). record (queues u) { to_send = l }) e
      ∙ rw (not_lost (length (queued u)) u.tx_out other, ltb-true (length (queued u)) 255 room) refl
  | inr (other, inr (full, e)) ↦
      enqueue_others u c
      ∙ ap (λ (l : List ℕ). record (queues u) { to_send = l }) e
      ∙ rw
          (
            not_lost (length (queued u)) u.tx_out other,
            ltb-false (length (queued u)) 255 (omega (arith, full)),
          )
          refl
]

transmit_none : (q : Queues) → q.to_send ≡ [] → transmit true q ≡ q
unfolding transmit
transmit_none q e = simp (e, transmit) refl

take_none : (q : Queues) → q.waiting ≡ [] → take_char q ≡ (0, q)
unfolding take_char
take_none q e = simp (e, take_char) refl

queues-interrupt_tx :
    (ev : UsartEvent) (u : Uart)
    → IsValid u
    → queues (interrupt_tx ev u) ≡ transmit ev.tx_empty (queues u)
unfolding interrupt_tx transmit
queues-interrupt_tx ev u v = elim (Bool-cases ev.tx_empty) [
  | inl e ↦ elim (Bool-cases (u.tx_out == u.tx_in)) [
    | inl same ↦
        let gone : queued u ≡ [] =
          ap (window u.tx_buffer u.tx_out) (sym (==→eq _ _ same))
          ∙ window_empty u.tx_buffer u.tx_out v.tx_out_lt in
        rw (e, same) (sym (transmit_none (queues u) gone))
    | inr other ↦
        rw
          (
            e,
            other,
            window_pop u.tx_buffer u.tx_out u.tx_in v.tx_out_lt v.tx_in_lt (ground arith),
            transmit,
          )
          refl
  ]
  | inr e ↦ rw e refl
]

queues-interrupt_rx :
    (o : Option ℕ) (u : Uart) → IsValid u → queues (interrupt_rx o u) ≡ receive o (queues u)
unfolding interrupt_rx receive
queues-interrupt_rx none u v = refl
queues-interrupt_rx (some c) u v = elim (received-interrupt_rx c u v) [
  | inl (room, e) ↦
      rw (ltb-true (length (received u)) 255 room)
        (ap (λ (l : List ℕ). record (queues u) { waiting = l }) e)
  | inr (full, e) ↦
      rw (ltb-false (length (received u)) 255 (omega (arith, full)))
        (ap (λ (l : List ℕ). record (queues u) { waiting = l }) e)
]

pub queues-interrupt : (u : Uart) → IsValid u → queues (interrupt u) ≡ handle (queues u)
unfolding interrupt handle
queues-interrupt u v =
    let ev = (next_event u.usart).0 in
    let u₁ : Uart = record u { usart = (next_event u.usart).1 } in
    let v₁ : IsValid u₁ = record {
      tx_size = v.tx_size;
      rx_size = v.rx_size;
      tx_in_lt = v.tx_in_lt;
      tx_out_lt = v.tx_out_lt;
      rx_in_lt = v.rx_in_lt;
      rx_out_lt = v.rx_out_lt;
    } in
    queues-interrupt_rx ev.received (interrupt_tx ev u₁) (interrupt_tx-IsValid ev u₁ v₁)
    ∙ ap (receive ev.received) (queues-interrupt_tx ev u₁ v₁)

pub queues-put_char :
    (u : Uart) (c : ℕ) → IsValid u → queues (put_char u c) ≡ handle (accept (queues u) c)
unfolding put_char
queues-put_char u c v =
    queues-interrupt (enqueue u c) (enqueue-IsValid u c v) ∙ ap handle (queues-enqueue u c v)

pub queues-get_char :
    (u : Uart)
    → IsValid u
    → ((get_char u).0 ≡ (take_char (queues u)).0)
      × (queues (get_char u).1 ≡ (take_char (queues u)).1)
      × IsValid (get_char u).1
unfolding take_char get_char rx_ready
queues-get_char u v = elim (Bool-cases (u.rx_in == u.rx_out)) [
  | inl same ↦
      let gone : received u ≡ [] =
        ap (window u.rx_buffer u.rx_out) (==→eq _ _ same)
        ∙ window_empty u.rx_buffer u.rx_out v.rx_out_lt in
      rw same (
        sym (ap (λ (r : ℕ × Queues). r.0) (take_none (queues u) gone)),
        sym (ap (λ (r : ℕ × Queues). r.1) (take_none (queues u) gone)),
        v,
      )
  | inr other ↦
      rw
        (
          other,
          window_pop u.rx_buffer u.rx_out u.rx_in v.rx_out_lt v.rx_in_lt (ground arith),
          take_char,
        )
        (refl, refl, ground arith)
]
