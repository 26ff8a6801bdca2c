-- ===== src/Firmware/UartBuffer/Transmit.antt =====
-- The transmit ring: which characters `UartBuffer_PutChar` queues, and which it drops.
use power_monitor.Prelude.{
  ℕ, ◌+◌, ◌<◌, ◌≡◌, ◌≢◌, ◌⊎◌, ◌∙◌, inl, inr, refl, sym, ap, true, false, List, [], ◌∷◌, ◌++◌,
  length, get_or, set, arith, ◌==◌, ltb, Bool-cases, ==→eq,
}
use native.Mathlib.Decide.{ℕ_discrete}
use power_monitor.Firmware.UartBuffer.{UsartEvent, Uart, interrupt_tx, enqueue}
use power_monitor.Firmware.UartBuffer.Ring.{
  fill_level, window, length-window, window_push, window_empty, window_overflow, window_pop,
}
use power_monitor.Firmware.UartBuffer.Receive.{IsValid}

-- The characters that wait for the transmitter, oldest first.
abbrev pub queued : Uart → List ℕ
queued u = window u.tx_buffer u.tx_out u.tx_in

-- In a valid state, the transmit half of the handler sends the oldest queued character where TXBUFE
-- is set and one is queued, and changes nothing otherwise.
pub interrupt_tx-queued :
    (ev : UsartEvent) (u : Uart)
    → IsValid u
    → ((ev.tx_empty ≡ true)
        × ((c : ℕ) × (queued u ≡ c ∷ queued (interrupt_tx ev u))
            × ((interrupt_tx ev u).sent ≡ u.sent ++ (c ∷ []))))
      ⊎ (((ev.tx_empty ≡ false) ⊎ (queued u ≡ [])) × (interrupt_tx ev u ≡ u))
unfolding interrupt_tx
interrupt_tx-queued ev u v = elim (Bool-cases ev.tx_empty) [
  | inl e ↦ elim (Bool-cases (u.tx_out == u.tx_in)) [
    | inl same ↦
        rw (e, same)
          (inr (
            inr (
                ap (window u.tx_buffer u.tx_out) (sym (==→eq _ _ same))
                ∙ window_empty u.tx_buffer u.tx_out v.tx_out_lt),
            refl,
          ))
    | inr other ↦
        rw (e, other)
          (inl (
            refl,
            (
              get_or u.tx_buffer u.tx_out 0,
              window_pop u.tx_buffer u.tx_out u.tx_in v.tx_out_lt v.tx_in_lt (ground arith),
              refl,
            ),
          ))
  ]
  | inr e ↦ rw e (inr (inl refl, refl))
]

not_one :
    (u : Uart) → IsValid u → u.tx_out + 1 ≢ u.tx_in → (length (queued u) ≢ 1) ⊎ (u.tx_out ≡ 255)
not_one u v ne = elim (ℕ_discrete u.tx_out 255) [
  | yes e ↦ inr e
  | no below ↦ inl (omega (arith, length-window u.tx_buffer u.tx_out u.tx_in))
]

-- In a valid state, the part of `UartBuffer_PutChar` before the handler drops the character where
-- exactly one waits and the read index is below 255. In every other case the character goes to the
-- end of the queue while fewer than 255 wait, and with 255 waiting the queue is empty afterwards.
pub enqueue-queued :
    (u : Uart) (c : ℕ)
    → IsValid u
    → ((length (queued u) ≡ 1) × (u.tx_out < 255) × (enqueue u c ≡ u))
      ⊎ (((length (queued u) ≢ 1) ⊎ (u.tx_out ≡ 255))
          × (((length (queued u) < 255) × (queued (enqueue u c) ≡ queued u ++ (c ∷ [])))
              ⊎ ((length (queued u) ≡ 255) × (queued (enqueue u c) ≡ []))))
unfolding enqueue
enqueue-queued u c v =
    let len = length-window u.tx_buffer u.tx_out u.tx_in in
    elim (Bool-cases (u.tx_out + 1 == u.tx_in)) [
      | inl e ↦ rw e (inl (omega (arith, len, ==→eq _ _ e), omega (arith, ==→eq _ _ e), refl))
      | inr ne ↦ rw ne (
          inr (
            not_one u v (ground arith),
            elim (Bool-cases (ltb (fill_level u.tx_out u.tx_in) 255)) [
              | inl room ↦ inl (
                ground (arith, len),
                window_push u.tx_buffer u.tx_out u.tx_in c v.tx_size v.tx_out_lt v.tx_in_lt
                    (ground arith),
              )
              | inr full ↦ inr (
                ground (arith, len),
                window_overflow (set u.tx_buffer u.tx_in c) u.tx_out u.tx_in v.tx_out_lt v.tx_in_lt
                    (ground arith),
              )
            ],
          ))
    ]
