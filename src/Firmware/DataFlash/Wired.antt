-- ===== src/Firmware/DataFlash/Wired.antt =====
-- firmware/PowerMon/src/DataFlash.c: the driver after `DataFlash_Init`, which sets `CS_Pin` for good.
-- Its state is then the bus.
use power_monitor.Prelude.{
  ℕ, zero, suc, ◌≡◌, refl, sym, ap, ◌∙◌, List, [], ◌∷◌, take, inl, inr, Bool-cases,
}
use power_monitor.Firmware.Board.{Board}
use power_monitor.Firmware.Flash.{DfToken, DfBuff, FlashDriver}
use power_monitor.Firmware.Ad7787.Keeps.{Undisturbed}
use power_monitor.Firmware.DataFlash.{
  DataFlash, cs_on, cs_off, transfer, send, receive, is_flash_ready, wait_loop, wait_ready,
  token_check, read_page_direct, write_buffer_to_flash, buffer_write,
}
use power_monitor.Firmware.DataFlash.Chip.{At45db}
use power_monitor.Firmware.DataFlash.Driver.{flash_driver, FitsChip}

module _ (b : Board) (polls : b.State → ℕ) where
  abbrev Driver : Type 0
  Driver = DataFlash b polls

  send-cs_pin : (f : Driver) (vs : List ℕ) → (send b polls f vs).cs_pin ≡ f.cs_pin
  unfolding send transfer
  send-cs_pin f [] = refl
  send-cs_pin f (v ∷ vs) = send-cs_pin (transfer b polls f v).1 vs

  receive-cs_pin : (f : Driver) (n : ℕ) → (receive b polls f n).1.cs_pin ≡ f.cs_pin
  unfolding receive transfer
  receive-cs_pin f zero = refl
  receive-cs_pin f (suc n) = receive-cs_pin (transfer b polls f 0).1 n

  wait_loop-cs_pin : (fuel : ℕ) (f : Driver) → (wait_loop b polls fuel f).1.cs_pin ≡ f.cs_pin
  unfolding wait_loop is_flash_ready transfer cs_on cs_off
  wait_loop-cs_pin zero f = refl
  wait_loop-cs_pin (suc fuel) f = elim (Bool-cases (is_flash_ready b polls f).0) [
    | inl ready ↦ rw (ready, wait_loop) refl
    | inr busy ↦ rw (busy, wait_loop) (wait_loop-cs_pin fuel (is_flash_ready b polls f).1)
  ]

  wait_ready-cs_pin : (f : Driver) → (wait_ready b polls f).cs_pin ≡ f.cs_pin
  unfolding wait_ready
  wait_ready-cs_pin f = wait_loop-cs_pin (suc (polls f.spi)) f

  read_page_direct-cs_pin :
      (f : Driver) (t : DfToken) (p offset size : ℕ) (dest : List ℕ)
      → (read_page_direct b polls f t p offset size dest).1.cs_pin ≡ f.cs_pin
  unfolding read_page_direct cs_on cs_off
  read_page_direct-cs_pin f t p offset size dest = elim (Bool-cases (token_check t p)) [
    | inl out ↦ rw out refl
    | inr fine ↦ rw fine (receive-cs_pin _ size ∙ send-cs_pin _ _ ∙ wait_ready-cs_pin f)
  ]

  write_buffer_to_flash-cs_pin :
      (f : Driver) (t : DfToken) (p : ℕ) (w : DfBuff)
      → (write_buffer_to_flash b polls f t p w).cs_pin ≡ f.cs_pin
  unfolding write_buffer_to_flash cs_on cs_off
  write_buffer_to_flash-cs_pin f t p w = elim (Bool-cases (token_check t p)) [
    | inl out ↦ rw out refl
    | inr fine ↦ rw fine (send-cs_pin _ _ ∙ wait_ready-cs_pin f)
  ]

  buffer_write-cs_pin :
      (f : Driver) (t : DfToken) (p offset : ℕ) (w : DfBuff) (src : List ℕ)
      → (buffer_write b polls f t p offset w src).cs_pin ≡ f.cs_pin
  unfolding buffer_write cs_on cs_off
  buffer_write-cs_pin f t p offset w src = elim (Bool-cases (token_check t p)) [
    | inl out ↦ rw out refl
    | inr fine ↦ rw fine (send-cs_pin _ src ∙ send-cs_pin _ _ ∙ wait_ready-cs_pin f)
  ]

-- The driver of the chip on the select line `pin`, over the state of the bus.
module _ (b : Board) (polls : b.State → ℕ) (chip : At45db b polls) (pin : ℕ) where
  abbrev pub at : b.State → DataFlash b polls
  at s = record { cs_pin = pin; spi = s }

  abbrev pub d : FlashDriver
  d = flash_driver b polls chip

  at_spi : (f : DataFlash b polls) → f.cs_pin ≡ pin → at f.spi ≡ f
  at_spi f e = ap (λ (p : ℕ). record { cs_pin = p; spi = f.spi }) (sym e)

  -- What the driver leaves is what the bus holds.
  pub read_back :
      (s : b.State) (t : DfToken) (p : ℕ) (dest : List ℕ)
      → at (d.read_page_direct (at s) t p 0 512 dest).1.spi
        ≡ (d.read_page_direct (at s) t p 0 512 dest).1
  read_back s t p dest = at_spi _ (read_page_direct-cs_pin b polls (at s) t p 0 512 dest)

  pub write_back :
      (s : b.State) (t : DfToken) (p : ℕ) (w : DfBuff)
      → at (d.write_buffer_to_flash (at s) t p w).spi ≡ d.write_buffer_to_flash (at s) t p w
  write_back s t p w = at_spi _ (write_buffer_to_flash-cs_pin b polls (at s) t p w)

  pub fill_back :
      (s : b.State) (t : DfToken) (p : ℕ) (w : DfBuff) (src : List ℕ)
      → at (d.buffer_write (at s) t p 0 512 w src).spi ≡ d.buffer_write (at s) t p 0 512 w src
  fill_back s t p w src = at_spi _ (buffer_write-cs_pin b polls (at s) t p 0 w (take 512 src))

  abbrev pub wired_driver : FlashDriver
  wired_driver = record {
    State = b.State;
    read_page_direct = λ s t p offset n dest.
        let (bytes, f) = d.read_page_direct (at s) t p offset n dest in (bytes, f.spi);
    write_buffer_to_flash = λ s t p w. (d.write_buffer_to_flash (at s) t p w).spi;
    buffer_write = λ s t p offset n w src. (d.buffer_write (at s) t p offset n w src).spi;
    Fits = FitsChip;
    page_at = λ s. d.page_at (at s);
    held = λ s. d.held (at s);
    length-page_at = λ s. d.length-page_at (at s);
    read_page = λ s. d.read_page (at s);
    read_keeps = λ s t p dest q.
        ap (λ f. d.page_at f t q) (read_back s t p dest) ∙ d.read_keeps (at s) t p dest q;
    read_keeps_held = λ s t p dest w.
        ap (λ f. d.held f w) (read_back s t p dest) ∙ d.read_keeps_held (at s) t p dest w;
    program_page = λ s t p w q fits lp lq.
        ap (λ f. d.page_at f t q) (write_back s t p w) ∙ d.program_page (at s) t p w q fits lp lq;
    program_refused = λ s t p w le. ap (λ f. DataFlash.spi f) (d.program_refused (at s) t p w le);
    buffer_write_held = λ s t p w src fits lt len.
        ap (λ f. d.held f w) (fill_back s t p w src)
        ∙ d.buffer_write_held (at s) t p w src fits lt len;
    buffer_write_keeps = λ s t p w src q.
        ap (λ f. d.page_at f t q) (fill_back s t p w src) ∙ d.buffer_write_keeps (at s) t p w src q;
  }

  -- The main memory of the chip is programmed at the rise of its select line: no access that leaves
  -- the line alone changes it.
  abbrev pub Unselected : Type 0
  Unselected = (content : ℕ → ℕ → ℕ) → Undisturbed b pin (λ s. chip.content (at s) ≡ content)
