-- ===== src/Firmware/Eeprom/Bytes.antt =====
-- firmware/PowerMon/src/eeprom.c, lines 144 to 260: the accesses by byte, word and string. The two
-- operands of `|` are evaluated from left to right, and `addr++` wraps at 32 bits.
mod Tests
use Prim.Native.Nat.{bit_or}
use power_monitor.Prelude.{
  ℕ, zero, suc, ◌+◌, ◌-◌, ◌*◌, ◌/◌, ◌%◌, true, List, [], ◌∷◌, length, get_or, set, take, ◌++◌, ltb,
  ◌==◌, if◌then◌else◌,
}
use power_monitor.Firmware.Flash.{FlashDriver}
use power_monitor.Firmware.Eeprom.{u32, page_of, offset_of, Eeprom, page_ptr, fill}

-- `addr + k` on `uint32_t`
abbrev pub addr_add : ℕ → ℕ → ℕ
addr_add addr k = (addr + k) % u32

module _ (d : FlashDriver) where
  unfoldable pub read1 : Eeprom d → ℕ → ℕ × Eeprom d
  read1 e addr =
      let (i, e') = fill d e (page_of addr) in (get_or (page_ptr d e' i).buf (offset_of addr) 0, e')

  unfoldable pub read2 : Eeprom d → ℕ → ℕ × Eeprom d
  read2 e addr =
      let (lo, e₁) = read1 e addr in
      let (hi, e₂) = read1 e₁ (addr_add addr 1) in (bit_or lo (hi * 256), e₂)

  unfoldable pub read4 : Eeprom d → ℕ → ℕ × Eeprom d
  read4 e addr =
      let (lo, e₁) = read2 e addr in
      let (hi, e₂) = read2 e₁ (addr_add addr 2) in (bit_or lo (hi * 0x10000), e₂)

  -- `EE_Read`: the bytes that go to `buf`.
  unfoldable pub read : Eeprom d → ℕ → ℕ → List ℕ × Eeprom d
  read e addr zero = ([], e)
  read e addr (suc size) =
      let (b, e₁) = read1 e addr in let (bs, e₂) = read e₁ (addr_add addr 1) size in (b ∷ bs, e₂)

  pub read1_default : Eeprom d → ℕ → ℕ → ℕ × Eeprom d
  read1_default e addr def = let (v, e') = read1 e addr in (if v == 0xFF then def else v, e')

  pub read2_default : Eeprom d → ℕ → ℕ → ℕ × Eeprom d
  read2_default e addr def = let (v, e') = read2 e addr in (if v == 0xFFFF then def else v, e')

  unfoldable pub read4_default : Eeprom d → ℕ → ℕ → ℕ × Eeprom d
  read4_default e addr def = let (v, e') = read4 e addr in (if v == 0xFFFFFFFF then def else v, e')

  -- The loop of `EE_ReadString` with `left` rounds to go: the bytes stored through `dest`, the
  -- length counted from `len`, and the state. `char` is unsigned on this machine.
  unfoldable pub read_string_loop : ℕ → ℕ → Eeprom d → ℕ → List ℕ × ℕ × Eeprom d
  read_string_loop zero len e addr = ([], len, e)
  read_string_loop (suc left) len e addr =
      let (b, e₁) = read1 e addr in
      let c : ℕ = if b == 0xFF then 0 else b in
      let more : List ℕ × ℕ × Eeprom d =
        let (bs, n, e₂) = read_string_loop left (len + 1) e₁ (addr_add addr 1) in (c ∷ bs, n, e₂) in
      if c == 0 then (c ∷ [], len, e₁) else more

  -- `EE_ReadString` with a `dest`: all bytes stored, the last of them the final terminator, and
  -- the length. `size - 1` is computed in `int`, so there is no round where `size` is zero.
  unfoldable pub read_string : Eeprom d → ℕ → ℕ → List ℕ × ℕ × Eeprom d
  read_string e addr size =
      let (bs, len, e') = read_string_loop (size - 1) 0 e addr in (bs ++ (0 ∷ []), len, e')

  unfoldable pub write1 : Eeprom d → ℕ → ℕ → Eeprom d
  write1 e addr value =
      let (i, e') = fill d e (page_of addr) in
      let p = page_ptr d e' i in
      if get_or p.buf (offset_of addr) 0 == value then e' else record e' {
        ext_cache =
            set e'.ext_cache i (record p { dirty = true; buf = set p.buf (offset_of addr) value });
      }

  -- The arguments are converted to `uint8_t` and `uint16_t`.
  unfoldable pub write2 : Eeprom d → ℕ → ℕ → Eeprom d
  write2 e addr value = write1 (write1 e addr (value % 256)) (addr_add addr 1) (value / 256 % 256)

  unfoldable pub write4 : Eeprom d → ℕ → ℕ → Eeprom d
  write4 e addr value =
      write2 (write2 e addr (value % 65536)) (addr_add addr 2) (value / 65536 % 65536)

  -- `EE_Write` of a whole block; its `uint16_t` length is that of the block.
  unfoldable pub write : Eeprom d → ℕ → List ℕ → Eeprom d
  write e addr [] = e
  write e addr (b ∷ bs) = write (write1 e addr b) (addr_add addr 1) bs

  -- `EE_WriteString`: `text` is the string without its terminator. `size` is a `uint8_t`, and is cut
  -- to `strlen + 1` where it is larger.
  unfoldable pub write_string : Eeprom d → ℕ → List ℕ → ℕ → Eeprom d
  write_string e addr text size =
      let given = size % 256 in
      let n = if ltb (length text + 1) given then length text + 1 else given in
      write e addr (take n (text ++ (0 ∷ [])))
