-- ===== src/Firmware/DataFlash/Session.antt =====
-- The bytes that go over the bus between two edges of the chip select, and what comes back.
use Prim.Native.Nat.{bit_and}
use power_monitor.Prelude.{
  ℕ, zero, suc, ◌≡◌, refl, sym, ap, ◌∙◌, not, List, [], ◌∷◌, ◌++◌, length, get_or, drop, replicate,
  drop-append, ◌==◌,
}
use power_monitor.Firmware.Board.{Board}
use power_monitor.Firmware.DataFlash.{
  DataFlash, cs_on, cs_off, transfer, exchange, send, receive, is_flash_ready,
}

module _ (b : Board) (polls : b.State → ℕ) where
  -- A whole transaction: select, the bytes, deselect.
  unfoldable pub session : DataFlash b polls → List ℕ → List ℕ × DataFlash b polls
  session f bytes =
      let (rs, f') = exchange b polls (cs_on b polls f) bytes in (rs, cs_off b polls f')

  send-eq : (f : DataFlash b polls) (vs : List ℕ) → send b polls f vs ≡ (exchange b polls f vs).1
  unfolding send exchange
  send-eq f [] = refl
  send-eq f (v ∷ vs) = send-eq (transfer b polls f v).1 vs

  receive-eq :
      (f : DataFlash b polls) (n : ℕ) → receive b polls f n ≡ exchange b polls f (replicate n 0)
  unfolding receive exchange
  receive-eq f zero = refl
  receive-eq f (suc n) =
      ap (λ (r : List ℕ × DataFlash b polls). ((transfer b polls f 0).0 ∷ r.0, r.1))
        (receive-eq (transfer b polls f 0).1 n)

  exchange-append :
      (f : DataFlash b polls) (xs ys : List ℕ)
      → exchange b polls f (xs ++ ys) ≡ (
          let (as0, f₁) = exchange b polls f xs in
          let (bs, f₂) = exchange b polls f₁ ys in (as0 ++ bs, f₂))
  unfolding exchange
  exchange-append f [] ys = refl
  exchange-append f (x ∷ xs) ys =
      ap (λ (r : List ℕ × DataFlash b polls). ((transfer b polls f x).0 ∷ r.0, r.1))
        (exchange-append (transfer b polls f x).1 xs ys)

  length-exchange :
      (f : DataFlash b polls) (xs : List ℕ) → length (exchange b polls f xs).0 ≡ length xs
  unfolding exchange
  length-exchange f [] = refl
  length-exchange f (x ∷ xs) = ap suc (length-exchange (transfer b polls f x).1 xs)

  -- A frame and then dummy writes is one transaction; the bytes read are what follows the frame.
  pub session-read :
      (f : DataFlash b polls) (frame : List ℕ) (n : ℕ)
      → ◌≡◌ {A = List ℕ × DataFlash b polls}
          (let (bytes, f') = receive b polls (send b polls (cs_on b polls f) frame) n in
            (bytes, cs_off b polls f'))
          (
            drop (length frame) (session f (frame ++ replicate n 0)).0,
            (session f (frame ++ replicate n 0)).1,
          )
  unfolding session
  session-read f frame n =
      rw (send-eq on frame, receive-eq, exchange-append on frame (replicate n 0))
        (ap (λ (bytes : List ℕ). (bytes, cs_off b polls read.1)) (sym rest))
    where
      on : DataFlash b polls
      on = cs_on b polls f

      read : List ℕ × DataFlash b polls
      read = exchange b polls (exchange b polls on frame).1 (replicate n 0)

      rest : drop (length frame) ((exchange b polls on frame).0 ++ read.0) ≡ read.0
      rest =
          ap (λ (k : ℕ). drop k ((exchange b polls on frame).0 ++ read.0))
            (sym (length-exchange on frame))
          ∙ drop-append (exchange b polls on frame).0 read.0

  -- Two frames without a read.
  pub session-send :
      (f : DataFlash b polls) (frame : List ℕ)
      → cs_off b polls (send b polls (cs_on b polls f) frame) ≡ (session f frame).1
  unfolding session
  session-send f frame = ap (cs_off b polls) (send-eq (cs_on b polls f) frame)

  pub session-send2 :
      (f : DataFlash b polls) (frame src : List ℕ)
      → cs_off b polls (send b polls (send b polls (cs_on b polls f) frame) src)
        ≡ (session f (frame ++ src)).1
  unfolding session
  session-send2 f frame src =
      rw (send-eq (cs_on b polls f) frame, send-eq, exchange-append (cs_on b polls f) frame src)

  -- The status poll is a transaction of two bytes.
  pub is_flash_ready-session :
      (f : DataFlash b polls)
      → is_flash_ready b polls f ≡ (
          let (rs, f') = session f (0xD7 ∷ 0xFF ∷ []) in
          (not (bit_and (get_or rs 1 0) 0x80 == 0), f'))
  unfolding is_flash_ready session exchange
  is_flash_ready-session f = refl
