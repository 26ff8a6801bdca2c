-- ===== src/Firmware/DataFlash.antt =====
-- firmware/PowerMon/src/DataFlash.c: the driver of the AT45DB data flash on the SPI bus.
pub mod Session
pub mod Address
pub mod Chip
pub mod Driver
pub mod Simulated
pub mod SimulatedBus
pub mod SimulatedLine
pub mod Wired
mod Tests
use Prim.Native.Nat.{bit_and, bit_or}
use power_monitor.Prelude.{
  ℕ, zero, suc, ◌+◌, ◌*◌, ◌/◌, ◌%◌, ◌^◌, Bool, true, false, not, List, [], ◌∷◌, ◌++◌, drop, leb,
  ◌==◌, if◌then◌else◌,
}
use power_monitor.Firmware.Board.{Board}
use power_monitor.Firmware.Flash.{DfToken, DfBuff, buffer1, buffer2}

-- The opcodes that the driver sends.
abbrev pub buffer_write_opcode : DfBuff → ℕ
buffer_write_opcode buffer1 = 0x84
buffer_write_opcode buffer2 = 0x87

abbrev pub buffer_read_opcode : DfBuff → ℕ
buffer_read_opcode buffer1 = 0xD4
buffer_read_opcode buffer2 = 0xD6

abbrev pub prog_with_erase : DfBuff → ℕ
prog_with_erase buffer1 = 0x83
prog_with_erase buffer2 = 0x86

abbrev pub mm_page_xfer : DfBuff → ℕ
mm_page_xfer buffer1 = 0x53
mm_page_xfer buffer2 = 0x55

abbrev pub status_register : ℕ
status_register = 0xD7

abbrev pub main_memory_page_read : ℕ
main_memory_page_read = 0xD2

abbrev pub device_id_read : ℕ
device_id_read = 0x9F

-- `TokenCheck`: whether the page is refused.
abbrev pub token_check : DfToken → ℕ → Bool
token_check tk page = leb tk.size page

-- `page += tk->FirstPage` on `uint16_t`
abbrev pub chip_page : DfToken → ℕ → ℕ
chip_page tk page = (page + tk.first_page) % 2 ^ 16

-- The three address bytes of a page and an offset, each converted to `uint8_t`.
pub page_address : ℕ → ℕ → List ℕ
page_address page offset =
    page / 64 % 256 ∷ bit_or (page * 4) (offset / 256) % 256 ∷ offset % 256 ∷ []

-- `polls s` bounds how often the chip answers that it is busy.
module _ (b : Board) (polls : b.State → ℕ) where
  -- The static variables `CS_Pin` and `DF_Spi`; the second stands for the bus.
  pub record DataFlash : Type 0 where
    pub cs_pin : ℕ
    pub spi : b.State

  pub cs_on : DataFlash → DataFlash
  cs_on f = record f { spi = b.pio_codr (b.spi_select_device f.spi) f.cs_pin }

  pub cs_off : DataFlash → DataFlash
  cs_off f = record f { spi = b.pio_sodr (b.spi_deselect_device f.spi) f.cs_pin }

  pub cs_init : DataFlash → DataFlash
  unfolding cs_off
  cs_init f =
      let s = b.pio_sodr (b.pio_oer (b.pio_per f.spi f.cs_pin) f.cs_pin) f.cs_pin in
      cs_off (record f { spi = s })

  -- `DataFlash_Init`
  pub init : b.State → ℕ → DataFlash
  init spi cs_pin = cs_init (record { cs_pin = cs_pin; spi = spi })

  pub transfer : DataFlash → ℕ → ℕ × DataFlash
  transfer f v = let (r, s) = b.spi_transfer f.spi v in (r, record f { spi = s })

  -- Transfers in a row, with the bytes that come back.
  pub exchange : DataFlash → List ℕ → List ℕ × DataFlash
  exchange f [] = ([], f)
  exchange f (v ∷ vs) = let (r, f₁) = transfer f v in let (rs, f₂) = exchange f₁ vs in (r ∷ rs, f₂)

  -- Transfers in a row whose results the code drops.
  pub send : DataFlash → List ℕ → DataFlash
  send f [] = f
  send f (v ∷ vs) = send (transfer f v).1 vs

  -- The read loops: `size` dummy writes, and the bytes for `dest`.
  pub receive : DataFlash → ℕ → List ℕ × DataFlash
  receive f zero = ([], f)
  receive f (suc size) =
      let (r, f₁) = transfer f 0 in let (rs, f₂) = receive f₁ size in (r ∷ rs, f₂)

  -- `IsFlashReady`: bit 7 of the status register.
  pub is_flash_ready : DataFlash → Bool × DataFlash
  is_flash_ready f =
      let (_, f₁) = transfer (cs_on f) status_register in
      let (status, f₂) = transfer f₁ 0xFF in (not (bit_and status 0x80 == 0), cs_off f₂)

  -- `while ( !IsFlashReady() ) ;` with fuel; the Boolean says that it ended by its test.
  pub wait_loop : ℕ → DataFlash → Bool × DataFlash
  wait_loop zero f = (false, f)
  wait_loop (suc fuel) f =
      let (ready, f') = is_flash_ready f in
      let rest = wait_loop fuel f' in if ready then (true, f') else rest

  pub wait_ready : DataFlash → DataFlash
  wait_ready f = (wait_loop (suc (polls f.spi)) f).1

  -- `DFS_ReadChipID`
  pub read_chip_id : DataFlash → ℕ × DataFlash
  read_chip_id f =
      let f₁ = send (cs_on (wait_ready f)) (device_id_read ∷ 0 ∷ []) in
      let (value, f₂) = transfer f₁ 0 in (value, cs_off f₂)

  -- `DFS_ReadPageDirect`: the bytes overwrite the front of `dest`. The loop runs `size` times,
  -- as `offset + size` is below 2^16 for every caller.
  pub read_page_direct : DataFlash → DfToken → ℕ → ℕ → ℕ → List ℕ → List ℕ × DataFlash
  read_page_direct f tk page offset size dest =
      let address = page_address (chip_page tk page) offset in
      let frame = main_memory_page_read ∷ (address ++ (0 ∷ 0 ∷ 0 ∷ 0 ∷ [])) in
      let (bytes, f') = receive (send (cs_on (wait_ready f)) frame) size in
      if token_check tk page then (dest, f) else (bytes ++ drop size dest, cs_off f')

  -- `(page<<2)+0` and a last address byte of 0
  pub read_flash_to_buffer : DataFlash → DfToken → ℕ → DfBuff → DataFlash
  read_flash_to_buffer f tk page whichbuf =
      let p = chip_page tk page in
      let frame = mm_page_xfer whichbuf ∷ p / 64 % 256 ∷ (p * 4 + 0) % 256 ∷ 0 ∷ [] in
      if token_check tk page then f else cs_off (send (cs_on (wait_ready f)) frame)

  -- `DFS_WriteBufferToFlash`
  pub write_buffer_to_flash : DataFlash → DfToken → ℕ → DfBuff → DataFlash
  write_buffer_to_flash f tk page whichbuf =
      let p = chip_page tk page in
      let frame = prog_with_erase whichbuf ∷ p / 64 % 256 ∷ (p * 4 + 0) % 256 ∷ 0 ∷ [] in
      if token_check tk page then f else cs_off (send (cs_on (wait_ready f)) frame)

  -- `DFS_BufferRead`
  pub buffer_read : DataFlash → DfToken → ℕ → ℕ → ℕ → DfBuff → List ℕ → List ℕ × DataFlash
  buffer_read f tk page offset size whichbuf dest =
      let frame = buffer_read_opcode whichbuf ∷ 0 ∷ offset / 256 % 256 ∷ offset % 256 ∷ 0 ∷ [] in
      let (bytes, f') = receive (send (cs_on (wait_ready f)) frame) size in
      if token_check tk page then (dest, f) else (bytes ++ drop size dest, cs_off f')

  -- `DFS_BufferWrite`: `src` are the `size` bytes that the loop sends.
  pub buffer_write : DataFlash → DfToken → ℕ → ℕ → DfBuff → List ℕ → DataFlash
  buffer_write f tk page offset whichbuf src =
      let frame = buffer_write_opcode whichbuf ∷ 0 ∷ offset / 256 % 256 ∷ offset % 256 ∷ [] in
      if token_check tk page then f else cs_off (send (send (cs_on (wait_ready f)) frame) src)
