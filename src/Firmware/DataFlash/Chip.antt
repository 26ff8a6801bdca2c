-- ===== src/Firmware/DataFlash/Chip.antt =====
-- What the driver relies on of the AT45DB chip, as hypotheses on whole transactions. They are the
-- documented behaviour of the commands that the driver sends: status register read, main memory
-- page read, buffer write, and buffer to main memory page program with built-in erase.
use Prim.Native.Nat.{bit_and}
use power_monitor.Prelude.{
  ℕ, ◌+◌, ◌*◌, ◌-◌, ◌≤◌, ◌<◌, ◌≡◌, not, List, [], ◌∷◌, length, get_or, drop, replicate, values,
  ◌==◌, ◌++◌, if◌then◌else◌,
}
use power_monitor.Firmware.Board.{Board}
use power_monitor.Firmware.Flash.{DfBuff}
use power_monitor.Firmware.DataFlash.{DataFlash, buffer_write_opcode, prog_with_erase}
use power_monitor.Firmware.DataFlash.Session.{session}

-- `content f p i` is byte `i` of main memory page `p`, `buffer f w i` that of an SRAM buffer. A page
-- has 528 bytes. `polls` counts the status reads that still answer busy.
pub record At45db (b : Board) (polls : b.State → ℕ) : Type 0 where
  pub content : DataFlash b polls → ℕ → ℕ → ℕ
  pub buffer : DataFlash b polls → DfBuff → ℕ → ℕ
  pub status_bit :
      (f : DataFlash b polls)
      → (bit_and (get_or (session b polls f (0xD7 ∷ 0xFF ∷ [])).0 1 0) 0x80 == 0)
        ≡ not (polls f.spi == 0)
  pub status_polls :
      (f : DataFlash b polls) → polls (session b polls f (0xD7 ∷ 0xFF ∷ [])).1.spi ≡ polls f.spi - 1
  pub status_content :
      (f : DataFlash b polls) → content (session b polls f (0xD7 ∷ 0xFF ∷ [])).1 ≡ content f
  pub status_buffer :
      (f : DataFlash b polls) → buffer (session b polls f (0xD7 ∷ 0xFF ∷ [])).1 ≡ buffer f
  pub read_bytes :
      (f : DataFlash b polls) (page offset n a₂ a₁ a₀ : ℕ)
      → polls f.spi ≡ 0
      → page < 8192
      → offset + n ≤ 528
      → a₂ * 65536 + a₁ * 256 + a₀ ≡ page * 1024 + offset
      → drop 8 (session b polls f ((0xD2 ∷ a₂ ∷ a₁ ∷ a₀ ∷ 0 ∷ 0 ∷ 0 ∷ 0 ∷ []) ++ replicate n 0)).0
        ≡ values (content f page) offset n
  pub read_content :
      (f : DataFlash b polls) (bytes : List ℕ)
      → polls f.spi ≡ 0
      → content (session b polls f (0xD2 ∷ bytes)).1 ≡ content f
  pub read_buffer :
      (f : DataFlash b polls) (bytes : List ℕ)
      → polls f.spi ≡ 0
      → buffer (session b polls f (0xD2 ∷ bytes)).1 ≡ buffer f
  pub write_buffer :
      (f : DataFlash b polls) (w : DfBuff) (offset a₁ a₀ i : ℕ) (src : List ℕ)
      → polls f.spi ≡ 0
      → offset + length src ≤ 528
      → a₁ * 256 + a₀ ≡ offset
      → i < length src
      → buffer (session b polls f (buffer_write_opcode w ∷ 0 ∷ a₁ ∷ a₀ ∷ src)).1 w (offset + i)
        ≡ get_or src i 0
  pub write_content :
      (f : DataFlash b polls) (w : DfBuff) (bytes : List ℕ)
      → polls f.spi ≡ 0
      → content (session b polls f (buffer_write_opcode w ∷ bytes)).1 ≡ content f
  pub program_content :
      (f : DataFlash b polls) (w : DfBuff) (page a₂ a₁ q i : ℕ)
      → polls f.spi ≡ 0
      → page < 8192
      → a₂ * 65536 + a₁ * 256 ≡ page * 1024
      → content (session b polls f (prog_with_erase w ∷ a₂ ∷ a₁ ∷ 0 ∷ [])).1 q i
        ≡ (if page == q then buffer f w i else content f q i)
