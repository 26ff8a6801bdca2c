-- ===== src/Firmware/Eeprom/OnChip.antt =====
-- The cache over the driver over the chip: where a byte of the memory ends up.
mod Tests
use power_monitor.Prelude.{
  ℕ, ◌+◌, ◌/◌, ◌%◌, ◌<◌, ◌≡◌, sym, ap, ◌∙◌, List, get_or, get_or-values, arith,
}
use power_monitor.Firmware.Board.{Board}
use power_monitor.Firmware.DataFlash.{chip_page}
use power_monitor.Firmware.DataFlash.Chip.{At45db}
use power_monitor.Firmware.DataFlash.Driver.{flash_driver}
use power_monitor.Firmware.Eeprom.{Eeprom, cache_flush}
use power_monitor.Firmware.Eeprom.Coherent.{Holds}
use power_monitor.Firmware.Eeprom.Flush.{cache_flush-stores}
use power_monitor.Firmware.Eeprom.Memory.{Memory, byte_at}

module _ (b : Board) (polls : b.State → ℕ) (chip : At45db b polls) where
  -- Over the driver of DataFlash.c and a chip that behaves as its data sheet says, from a state that
  -- holds a memory, `EE_Cache_Flush` leaves the byte of any address in the pages of the token in the
  -- chip's main memory, at the address modulo 512 of the page behind the token's first.
  pub flushed_byte :
      (e : Eeprom (flash_driver b polls chip)) (m : Memory) (addr : ℕ)
      → addr / 512 < e.token.size
      → Holds (flash_driver b polls chip) e m
      → chip.content
          (cache_flush (flash_driver b polls chip) e).1.flash
          (chip_page e.token (addr / 512))
          (addr % 512)
        ≡ byte_at m addr
  unfolding byte_at
  flushed_byte e m addr inside h =
      let (done, h', stored, token) = cache_flush-stores (flash_driver b polls chip) e m h in
      let flash = (cache_flush (flash_driver b polls chip) e).1.flash in
      sym (
        get_or-values (chip.content flash (chip_page e.token (addr / 512))) 0 512 (addr % 512) 0
          (omega arith)
        ∙ ap (chip.content flash (chip_page e.token (addr / 512))) (omega arith))
      ∙ ap (λ (l : List ℕ). get_or l (addr % 512) 0) ((rw token at stored) (addr / 512) inside)
