-- ===== src/Firmware/UartBuffer/Strings.antt =====
-- `UartBuffer_PutString`: a whole string goes out where the transmitter is ready at every call, and
-- all but its first character is lost where it is busy.
use power_monitor.Prelude.{
  ℕ, zero, suc, ◌<◌, ◌≡◌, ◌∙◌, inl, inr, refl, sym, ap, true, false, List, [], ◌∷◌, ◌++◌, Option,
  none, some, length, arith,
}
use mathlib.Core.Bool.{false≢true}
use mathlib.Core.Path.{subst}
use mathlib.Core.List.{append-nil, append_assoc}
use power_monitor.Firmware.UartBuffer.{
  UsartEvent, Uart, next_event, interrupt_tx, interrupt_rx, interrupt, enqueue, put_char,
  put_string,
}
use power_monitor.Firmware.UartBuffer.Receive.{
  IsValid, enqueue-IsValid, interrupt_tx-IsValid, interrupt_rx-IsValid, put_char-IsValid,
}
use power_monitor.Firmware.UartBuffer.Transmit.{queued, interrupt_tx-queued, enqueue-queued}

-- The receive half leaves the transmitter alone.
record SameTx (u u' : Uart) : Type 0 where
  buffer : u'.tx_buffer ≡ u.tx_buffer
  last : u'.tx_in ≡ u.tx_in
  first : u'.tx_out ≡ u.tx_out
  out : u'.sent ≡ u.sent
  rest : u'.usart ≡ u.usart

interrupt_rx-SameTx : (o : Option ℕ) (u : Uart) → SameTx u (interrupt_rx o u)
unfolding interrupt_rx
interrupt_rx-SameTx none u = record {
  buffer = refl;
  last = refl;
  first = refl;
  out = refl;
  rest = refl;
}
interrupt_rx-SameTx (some c) u = record {
  buffer = refl;
  last = refl;
  first = refl;
  out = refl;
  rest = refl;
}

-- The next `n` answers of the USART all have TXBUFE set.
abbrev pub AllReady : ℕ → List UsartEvent → Type 0
AllReady zero evs = Unit
AllReady (suc n) [] = ⊥
AllReady (suc n) (ev ∷ evs) = (ev.tx_empty ≡ true) × AllReady n evs

-- No answer of the USART has TXBUFE set.
abbrev pub NeverReady : List UsartEvent → Type 0
NeverReady [] = Unit
NeverReady (ev ∷ evs) = (ev.tx_empty ≡ false) × NeverReady evs

usart-interrupt_tx : (ev : UsartEvent) (u : Uart) → (interrupt_tx ev u).usart ≡ u.usart
unfolding interrupt_tx
usart-interrupt_tx ev u = ground arith

interrupt_cons :
    (u : Uart) (ev : UsartEvent) (evs : List UsartEvent)
    → u.usart ≡ ev ∷ evs
    → interrupt u ≡ interrupt_rx ev.received (interrupt_tx ev (record u { usart = evs }))
unfolding interrupt
interrupt_cons u ev evs e =
    ap
      (λ (l : List UsartEvent).
        let (ev', rest) = next_event l in
        interrupt_rx ev'.received (interrupt_tx ev' (record u { usart = rest })))
      e

interrupt_nil : (u : Uart) → u.usart ≡ [] → interrupt u ≡ record u { usart = [] }
unfolding interrupt
interrupt_nil u e =
    ap
      (λ (l : List UsartEvent).
        let (ev', rest) = next_event l in
        interrupt_rx ev'.received (interrupt_tx ev' (record u { usart = rest })))
      e

enqueue_keeps : (u : Uart) (c : ℕ) → ((enqueue u c).usart ≡ u.usart) × ((enqueue u c).sent ≡ u.sent)
unfolding enqueue
enqueue_keeps u c = ground arith

queued-SameTx : (u u' : Uart) → SameTx u u' → queued u' ≡ queued u
queued-SameTx u u' s = rw (s.buffer, s.last, s.first)

-- Into an empty queue a character always goes.
queued_first : (u : Uart) (c : ℕ) → IsValid u → queued u ≡ [] → queued (enqueue u c) ≡ c ∷ []
queued_first u c v none_left = elim (enqueue-queued u c v) [
  | inl (len, small, same) ↦ absurd (omega (arith, ap length none_left))
  | inr (other, inl (room, q)) ↦ q ∙ ap (λ (l : List ℕ). l ++ (c ∷ [])) none_left
  | inr (other, inr (full, q)) ↦ absurd (omega (arith, ap length none_left))
]

tx_out-enqueue : (u : Uart) (c : ℕ) → (enqueue u c).tx_out ≡ u.tx_out
unfolding enqueue
tx_out-enqueue u c = ground arith

-- A queue of one character is empty once that has gone out.
record Sent (u : Uart) (c : ℕ) (evs : List UsartEvent) (u' : Uart) : Type 0 where
  valid : IsValid u'
  idle : queued u' ≡ []
  out : u'.sent ≡ u.sent ++ (c ∷ [])
  rest : u'.usart ≡ evs

put_char-Sent :
    (u : Uart) (c : ℕ) (ev : UsartEvent) (evs : List UsartEvent)
    → IsValid u
    → queued u ≡ []
    → u.usart ≡ ev ∷ evs
    → ev.tx_empty ≡ true
    → Sent u c evs (put_char u c)
unfolding put_char
put_char-Sent u c ev evs v none_left next ready =
    rw (interrupt_cons u₁ ev evs ((enqueue_keeps u c).0 ∙ next))
      (elim (interrupt_tx-queued ev u₂ valid) [
        | inl (e, (c', q, out)) ↦
            let s = interrupt_rx-SameTx ev.received (interrupt_tx ev u₂) in
            record {
              valid = interrupt_rx-IsValid ev.received _ (interrupt_tx-IsValid ev u₂ valid);
              idle = queued-SameTx _ _ s ∙ cc (one, q);
              out = s.out ∙ out ∙ cc (one, q, (enqueue_keeps u c).1);
              rest = s.rest ∙ usart-interrupt_tx ev u₂;
            }
        | inr (inl e, same) ↦ absurd (false≢true (sym e ∙ ready))
        | inr (inr e, same) ↦ absurd (cc (one, e))
      ])
  where
    u₁ : Uart
    u₁ = enqueue u c

    u₂ : Uart
    u₂ = record u₁ { usart = evs }

    v₁ : IsValid u₁
    v₁ = enqueue-IsValid u c v

    valid : IsValid u₂
    valid = record {
      tx_size = v₁.tx_size;
      rx_size = v₁.rx_size;
      tx_in_lt = v₁.tx_in_lt;
      tx_out_lt = v₁.tx_out_lt;
      rx_in_lt = v₁.rx_in_lt;
      rx_out_lt = v₁.rx_out_lt;
    }

    one : queued u₂ ≡ c ∷ []
    one = queued_first u c v none_left

AllReady-cons :
    (n : ℕ) (l : List UsartEvent)
    → AllReady (suc n) l
    → (ev : UsartEvent) × ((evs : List UsartEvent) × (l ≡ ev ∷ evs)
        × (ev.tx_empty ≡ true)
        × AllReady n evs)
AllReady-cons n [] r = absurd r
AllReady-cons n (ev ∷ evs) (r, rs) = (ev, (evs, refl, r, rs))

-- Two strings in a row are one.
pub put_string-append :
    (s t : List ℕ) (u : Uart) → put_string u (s ++ t) ≡ put_string (put_string u s) t
unfolding put_string
put_string-append [] t u = refl
put_string-append (c ∷ s) t u = put_string-append s t (put_char u c)

-- In a valid state with nothing queued, where the transmitter is ready at each of the calls,
-- `UartBuffer_PutString` sends the whole string in order behind what was sent before, and leaves
-- the queue empty.
pub put_string_sent :
    (s : List ℕ) (u : Uart)
    → IsValid u
    → queued u ≡ []
    → AllReady (length s) u.usart
    → ((put_string u s).sent ≡ u.sent ++ s) × (queued (put_string u s) ≡ [])
unfolding put_string
put_string_sent [] u v none_left ready = (sym (append-nil u.sent), none_left)
put_string_sent (c ∷ s) u v none_left ready =
    let (ev, (evs, next, r, rs)) = AllReady-cons (length s) u.usart ready in
    let one = put_char-Sent u c ev evs v none_left next r in
    let (out, idle) =
      put_string_sent s (put_char u c) one.valid one.idle
        (subst (AllReady (length s)) (sym one.rest) rs) in
    (out ∙ ap (λ (l : List ℕ). l ++ s) one.out ∙ append_assoc u.sent (c ∷ []) s, idle)

-- What a busy transmitter leaves of a call: the queue and what was sent.
record Held (u u' : Uart) : Type 0 where
  buffer : u'.tx_buffer ≡ u.tx_buffer
  last : u'.tx_in ≡ u.tx_in
  first : u'.tx_out ≡ u.tx_out
  out : u'.sent ≡ u.sent
  busy : NeverReady u'.usart

interrupt_tx_busy : (ev : UsartEvent) (u : Uart) → ev.tx_empty ≡ false → interrupt_tx ev u ≡ u
unfolding interrupt_tx
interrupt_tx_busy ev u e = rw e

interrupt-Held :
    (u : Uart) (l : List UsartEvent) → u.usart ≡ l → NeverReady l → Held u (interrupt u)
interrupt-Held u [] e b =
    rw (interrupt_nil u e)
      (record { buffer = refl; last = refl; first = refl; out = refl; busy = tt })
interrupt-Held u (ev ∷ evs) e (b, bs) =
    let u₂ : Uart = record u { usart = evs } in
    let s = interrupt_rx-SameTx ev.received u₂ in
    rw (interrupt_cons u ev evs e, interrupt_tx_busy ev u₂ b)
      (record {
        buffer = s.buffer;
        last = s.last;
        first = s.first;
        out = s.out;
        busy = subst NeverReady (sym s.rest) bs;
      })

queued-Held : (u u' : Uart) → Held u u' → queued u' ≡ queued u
queued-Held u u' h = rw (h.buffer, h.last, h.first)

-- A busy transmitter leaves what `UartBuffer_PutChar` has queued.
put_char-Held : (u : Uart) (c : ℕ) → NeverReady u.usart → Held (enqueue u c) (put_char u c)
unfolding put_char
put_char-Held u c busy =
    interrupt-Held (enqueue u c) (enqueue u c).usart refl
      (subst NeverReady (sym (enqueue_keeps u c).0) busy)

-- With one character queued and the transmitter busy, every further character is dropped.
put_string_dropped :
    (s : List ℕ) (u : Uart)
    → IsValid u
    → length (queued u) ≡ 1
    → u.tx_out < 255
    → NeverReady u.usart
    → ((put_string u s).sent ≡ u.sent) × (queued (put_string u s) ≡ queued u)
unfolding put_string
put_string_dropped [] u v one small busy = (refl, refl)
put_string_dropped (c ∷ s) u v one small busy =
    let same : enqueue u c ≡ u = elim (enqueue-queued u c v) [
      | inl (l, lt, eq) ↦ eq
      | inr (inl ne, q) ↦ absurd (ne one)
      | inr (inr last, q) ↦ absurd (omega arith)
    ] in
    let h : Held u (put_char u c) =
      subst (λ x. Held x (put_char u c)) same (put_char-Held u c busy) in
    let q = queued-Held u (put_char u c) h in
    let (out, rest) =
      put_string_dropped s (put_char u c) (put_char-IsValid u c v) (ap length q ∙ one)
        (omega (arith, h.first)) h.busy in
    (out ∙ h.out, rest ∙ q)

-- In a valid state with nothing queued and the read index below 255, where the transmitter is never
-- ready, `UartBuffer_PutString` of a string that is not empty sends nothing and leaves only its
-- first character queued.
pub put_string_busy :
    (c : ℕ) (s : List ℕ) (u : Uart)
    → IsValid u
    → queued u ≡ []
    → u.tx_out < 255
    → NeverReady u.usart
    → ((put_string u (c ∷ s)).sent ≡ u.sent) × (queued (put_string u (c ∷ s)) ≡ c ∷ [])
unfolding put_string
put_string_busy c s u v none_left small busy =
    let h = put_char-Held u c busy in
    let one : queued (put_char u c) ≡ c ∷ [] =
      queued-Held (enqueue u c) (put_char u c) h ∙ queued_first u c v none_left in
    let (out, rest) =
      put_string_dropped s (put_char u c) (put_char-IsValid u c v) (ap length one)
        (omega (arith, h.first, tx_out-enqueue u c)) h.busy in
    (out ∙ h.out ∙ (enqueue_keeps u c).1, rest ∙ one)
