-- ===== src/Firmware/UartBuffer/Drain.antt =====
-- The queue of the transmitter runs empty where the USART takes what it is given.
use power_monitor.Prelude.{
  ℕ, zero, suc, ◌≤◌, ◌≡◌, ◌⊎◌, inl, inr, refl, sym, ap, ◌∙◌, true, List, [], ◌∷◌, ◌++◌, Option,
  none, some, length, arith,
}
use mathlib.Core.Bool.{false≢true}
use mathlib.Core.List.{append_assoc, append-nil}
use power_monitor.Firmware.UartBuffer.{
  UsartEvent, Uart, next_event, interrupt_tx, interrupt_rx, interrupt,
}
use power_monitor.Firmware.UartBuffer.Receive.{IsValid, interrupt-IsValid}
use power_monitor.Firmware.UartBuffer.Transmit.{queued, interrupt_tx-queued}
use power_monitor.Firmware.UartBuffer.Pending.{SameRx, interrupt_tx-SameRx}

-- The next `n` answers of the USART have TXBUFE set.
pub data Takes : ℕ → List UsartEvent → Type 0 where
  no_more : {evs : List UsartEvent} → Takes 0 evs
  takes :
      {n : ℕ} {ev : UsartEvent} {evs : List UsartEvent}
      → ev.tx_empty ≡ true
      → Takes n evs
      → Takes (suc n) (ev ∷ evs)

unfoldable pub interrupts : ℕ → Uart → Uart
interrupts zero u = u
interrupts (suc n) u = interrupts n (interrupt u)

length-zero : (l : List ℕ) → length l ≡ 0 → l ≡ []
length-zero [] e = refl
length-zero (c ∷ l) e = absurd (omega (arith, e))

-- The receive half leaves the transmitter alone.
record SameTx (u u' : Uart) : Type 0 where
  queue : queued u' ≡ queued u
  sent : u'.sent ≡ u.sent
  rest : u'.usart ≡ u.usart

interrupt_rx-SameTx : (o : Option ℕ) (u : Uart) → SameTx u (interrupt_rx o u)
unfolding interrupt_rx
interrupt_rx-SameTx none u = record { queue = refl; sent = refl; rest = refl }
interrupt_rx-SameTx (some c) u = record { queue = refl; sent = refl; rest = refl }

interrupt-eq :
    (u : Uart) (ev : UsartEvent) (evs : List UsartEvent)
    → u.usart ≡ ev ∷ evs
    → interrupt u ≡ interrupt_rx ev.received (interrupt_tx ev (record u { usart = evs }))
unfolding interrupt next_event
interrupt-eq u ev evs e = rw e refl

-- An interrupt with TXBUFE set sends the oldest character of the queue, if there is one.
interrupt-sends :
    (u : Uart) (ev : UsartEvent) (evs : List UsartEvent)
    → IsValid u
    → u.usart ≡ ev ∷ evs
    → ev.tx_empty ≡ true
    → ((interrupt u).usart ≡ evs)
      × ((interrupt u).sent ++ queued (interrupt u) ≡ u.sent ++ queued u)
      × ((suc (length (queued (interrupt u))) ≡ length (queued u))
          ⊎ ((queued u ≡ []) × (queued (interrupt u) ≡ [])))
interrupt-sends u ev evs v e empty =
    let u₀ : Uart = record u { usart = evs } in
    let v₀ : IsValid u₀ = ground arith in
    let u₁ = interrupt_tx ev u₀ in
    let same : SameTx u₁ (interrupt_rx ev.received u₁) = interrupt_rx-SameTx ev.received u₁ in
    let rest : u₁.usart ≡ evs = SameRx.rest (interrupt_tx-SameRx ev u₀) in
    rw (interrupt-eq u ev evs e) (elim (interrupt_tx-queued ev u₀ v₀) [
      | inl (_, (c, front, out)) ↦ (
        same.rest ∙ rest,
        rw (same.queue, same.sent, out)
            (append_assoc u.sent (c ∷ []) (queued u₁)
              ∙ ap (λ (l : List ℕ). u.sent ++ l) (sym front)),
        inl (ap (λ (l : List ℕ). suc (length l)) same.queue ∙ ap length (sym front)),
      )
      | inr (inl busy, kept) ↦ absurd (false≢true (sym busy ∙ empty))
      | inr (inr none_left, kept) ↦ (
        same.rest ∙ rest,
        rw (same.queue, same.sent, kept) refl,
        inr (none_left, same.queue ∙ ap queued kept ∙ none_left),
      )
    ])

-- In a valid state where the next `n` answers of the USART have TXBUFE set, `n` interrupts send all
-- that is queued, in order, behind what was sent before, and leave the queue empty and the state
-- valid, if at most `n` characters are queued.
pub interrupts-sent :
    (n : ℕ) (u : Uart)
    → IsValid u
    → Takes n u.usart
    → length (queued u) ≤ n
    → ((interrupts n u).sent ≡ u.sent ++ queued u)
      × (queued (interrupts n u) ≡ [])
      × IsValid (interrupts n u)
unfolding interrupts
interrupts-sent n u v t enough = go n u u.usart v refl t enough
  where
    go :
        (n : ℕ) (u : Uart) (evs : List UsartEvent)
        → IsValid u
        → u.usart ≡ evs
        → Takes n evs
        → length (queued u) ≤ n
        → ((interrupts n u).sent ≡ u.sent ++ queued u)
          × (queued (interrupts n u) ≡ [])
          × IsValid (interrupts n u)
    go zero u evs v e t enough =
        let none_left = length-zero (queued u) (omega arith) in
        (sym (append-nil u.sent) ∙ ap (λ (l : List ℕ). u.sent ++ l) (sym none_left), none_left, v)
    go (suc n) u [] v e t enough = elim t [ ]
    go (suc n) u (ev ∷ evs) v e (takes empty t) enough =
        let (rest, all, fewer) = interrupt-sends u ev evs v e empty in
        let v' = interrupt-IsValid u v in
        let left : length (queued (interrupt u)) ≤ n = elim fewer [
          | inl one ↦ omega (arith, one, enough)
          | inr (old, new) ↦ omega (arith, ap length new)
        ] in
        let (sent, drained, valid) = go n (interrupt u) evs v' rest t left in
        (sent ∙ all, drained, valid)
