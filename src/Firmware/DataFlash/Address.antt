-- ===== src/Firmware/DataFlash/Address.antt =====
-- The address bytes that the data flash driver sends.
use Prim.Native.Nat.{bit_or}
use power_monitor.Prelude.{ℕ, ◌+◌, ◌*◌, ◌/◌, ◌%◌, ◌<◌, ◌≡◌, ◌∙◌, List, length, get_or, arith}
use power_monitor.Prelude.Bits.{bit_or_disjoint, bit_or_comm}
use power_monitor.Firmware.DataFlash.{page_address}

-- The number that three address bytes spell, the first one highest.
abbrev pub spelled : List ℕ → ℕ
spelled bytes = get_or bytes 0 0 * 65536 + get_or bytes 1 0 * 256 + get_or bytes 2 0

-- `(page << 2) | (offset >> 8)` is a sum.
pub or_page :
    (page offset : ℕ) → offset < 1024 → bit_or (page * 4) (offset / 256) ≡ page * 4 + offset / 256
or_page page offset h =
    bit_or_comm (page * 4) (offset / 256)
    ∙ bit_or_disjoint 2 (offset / 256) page (omega arith)
    ∙ omega arith

-- For a page of 13 bits and an offset of 10 bits the three bytes of the address are bytes and
-- spell `0ppp pppp pppp ppbb bbbb bbbb`: the offset in the low 10 bits, the page above them.
pub page_address-spelled :
    (page offset : ℕ)
    → page < 8192
    → offset < 1024
    → let address = page_address page offset in
      (length address ≡ 3)
      × (spelled address ≡ page * 1024 + offset)
      × (spelled address / 1024 ≡ page)
      × (spelled address % 1024 ≡ offset)
      × (get_or address 0 0 < 128)
      × (get_or address 1 0 < 256)
      × (get_or address 2 0 < 256)
unfolding page_address
page_address-spelled page offset hp ho = omega (arith, or_page page offset ho)
