-- ===== src/Firmware/Flash.antt =====
-- firmware/PowerMon/src/DataFlash.h: the interface between the EEPROM cache and the flash driver.
-- The cache takes it as a parameter; `page_at` and `held` say what a driver's state stores.
pub mod Beside
pub mod Ram
use power_monitor.Prelude.{ℕ, ◌≤◌, ◌<◌, ◌≡◌, List, length, ◌==◌, if◌then◌else◌}

-- `DF_Token`: a run of pages of the chip.
pub record DfToken : Type 0 where
  pub first_page : ℕ
  pub size : ℕ

-- `DF_Buff`
pub data DfBuff : Type 0 where
  buffer1 buffer2 : DfBuff

-- The functions of DataFlash.h that eeprom.c calls, and the laws that it relies on. `page_at s t p`
-- are the first 512 bytes of page `p` of token `t`, `held s b` those of the chip's buffer `b`.
-- `Fits t` says that the token lies on the chip.
pub record FlashDriver : Type 1 where
  pub State : Type 0
  pub read_page_direct : State → DfToken → ℕ → ℕ → ℕ → List ℕ → List ℕ × State
  pub write_buffer_to_flash : State → DfToken → ℕ → DfBuff → State
  pub buffer_write : State → DfToken → ℕ → ℕ → ℕ → DfBuff → List ℕ → State
  pub Fits : DfToken → Type 0
  pub page_at : State → DfToken → ℕ → List ℕ
  pub held : State → DfBuff → List ℕ
  pub length-page_at : (s : State) (t : DfToken) (p : ℕ) → length (page_at s t p) ≡ 512
  pub read_page :
      (s : State) (t : DfToken) (p : ℕ) (dest : List ℕ)
      → Fits t
      → p < t.size
      → length dest ≡ 512
      → (read_page_direct s t p 0 512 dest).0 ≡ page_at s t p
  pub read_keeps :
      (s : State) (t : DfToken) (p : ℕ) (dest : List ℕ) (q : ℕ)
      → page_at (read_page_direct s t p 0 512 dest).1 t q ≡ page_at s t q
  pub read_keeps_held :
      (s : State) (t : DfToken) (p : ℕ) (dest : List ℕ) (b : DfBuff)
      → held (read_page_direct s t p 0 512 dest).1 b ≡ held s b
  pub program_page :
      (s : State) (t : DfToken) (p : ℕ) (b : DfBuff) (q : ℕ)
      → Fits t
      → p < t.size
      → q < t.size
      → page_at (write_buffer_to_flash s t p b) t q ≡ (if p == q then held s b else page_at s t q)
  pub program_refused :
      (s : State) (t : DfToken) (p : ℕ) (b : DfBuff)
      → t.size ≤ p
      → write_buffer_to_flash s t p b ≡ s
  pub buffer_write_held :
      (s : State) (t : DfToken) (p : ℕ) (b : DfBuff) (src : List ℕ)
      → Fits t
      → p < t.size
      → length src ≡ 512
      → held (buffer_write s t p 0 512 b src) b ≡ src
  pub buffer_write_keeps :
      (s : State) (t : DfToken) (p : ℕ) (b : DfBuff) (src : List ℕ) (q : ℕ)
      → page_at (buffer_write s t p 0 512 b src) t q ≡ page_at s t q
