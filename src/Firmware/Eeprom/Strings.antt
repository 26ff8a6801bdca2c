-- ===== src/Firmware/Eeprom/Strings.antt =====
-- firmware/PowerMon/src/eeprom.c: `EE_ReadString` and `EE_WriteString` within the token.
use power_monitor.Prelude.{
  ℕ, zero, suc, ◌+◌, ◌-◌, ◌*◌, ◌%◌, ◌≤◌, ◌<◌, ◌≡◌, refl, sym, ap, ◌∙◌, false, List, [], ◌∷◌, ◌++◌,
  length, length-append, take-length, get_or, drop, take, values, ltb, ◌==◌, if◌then◌else◌, arith,
}
use mathlib.Core.List.{append_assoc}
use power_monitor.Firmware.Flash.{FlashDriver}
use power_monitor.Firmware.Eeprom.{Eeprom}
use power_monitor.Firmware.Eeprom.Bytes.{read1, read_string_loop, read_string, write, write_string}
use power_monitor.Firmware.Eeprom.Blocks.{
  store_all, values-store_all, write-store_all, next_address,
}
use power_monitor.Firmware.Eeprom.Coherent.{Holds}
use power_monitor.Firmware.Eeprom.Memory.{Memory, byte_at}
use power_monitor.Firmware.Eeprom.Refine.{read1-Returns}

-- The characters of a string that can be stored: neither the terminator nor the erased byte.
pub data AreStorable : List ℕ → Type 0 where
  none_left : AreStorable []
  storable :
      {c : ℕ} {text : List ℕ}
      → (c == 0) ≡ false
      → (c == 0xFF) ≡ false
      → AreStorable text
      → AreStorable (c ∷ text)

module _ (d : FlashDriver) where
  read_string_loop-text :
      (text : List ℕ) (left len : ℕ) (e : Eeprom d) (m : Memory) (addr : ℕ)
      → AreStorable text
      → length text < left
      → addr + suc (length text) ≤ e.token.size * 512
      → values (byte_at m) addr (suc (length text)) ≡ text ++ (0 ∷ [])
      → Holds d e m
      → let (bytes, n, e') = read_string_loop d left len e addr in
        (bytes ≡ text ++ (0 ∷ [])) × (n ≡ len + length text) × Holds d e' m × (e'.token ≡ e.token)
  unfolding read_string_loop values
  read_string_loop-text text zero len e m addr p lt room spelled h = absurd (omega arith)
  read_string_loop-text [] (suc left) len e m addr none_left lt room spelled h =
      let r = read1-Returns d e m addr (omega arith) h in
      let zero_byte : (read1 d e addr).0 ≡ 0 =
        r.value ∙ ap (λ (l : List ℕ). get_or l 0 0) spelled in
      rw zero_byte (refl, omega arith, r.holds, r.token)
  read_string_loop-text (c ∷ text) (suc left) len e m addr (storable not_nul not_erased p) lt room
        spelled h =
      let r = read1-Returns d e m addr (omega arith) h in
      let byte : (read1 d e addr).0 ≡ c = r.value ∙ ap (λ (l : List ℕ). get_or l 0 0) spelled in
      let next = next_address d e m addr (omega arith) h in
      let (bytes, n, h', t') =
        read_string_loop-text text left (len + 1) (read1 d e addr).1 m (addr + 1) p
          (omega (arith, lt)) (rw (r.token) (omega (arith, room))) (ap (drop 1) spelled) r.holds in
      rw (byte, not_erased, not_nul, next)
        (ap (λ (l : List ℕ). c ∷ l) bytes, n ∙ omega arith, h', t' ∙ r.token)

  -- `size` is cut to the string and its terminator, where it is not smaller.
  write_string-eq :
      (text : List ℕ) (size : ℕ) (e : Eeprom d) (addr : ℕ)
      → length text < size
      → size < 256
      → write_string d e addr text size ≡ write d e addr (text ++ (0 ∷ []))
  unfolding write_string
  write_string-eq text size e addr fits narrow =
      let all : (if ltb (length text + 1) (size % 256) then length text + 1 else size % 256)
          ≡ length (text ++ (0 ∷ [])) =
        ground (arith, length-append text (0 ∷ [])) in
      ap (λ (n : ℕ). write d e addr (take n (text ++ (0 ∷ [])))) all
      ∙ ap (write d e addr) (take-length (text ++ (0 ∷ [])))

  -- From a state that holds a memory, `EE_WriteString` of a text without 0 and 0xFF, with a size
  -- below 256 that exceeds its length and an end inside the token, followed by `EE_ReadString` into
  -- a buffer of less than 65536 bytes with room for two bytes more than the text, stores the text
  -- and two terminators and returns its length; the state holds the memory with the text and one
  -- terminator stored.
  pub read_string-write_string :
      (text : List ℕ) (size room_left : ℕ) (e : Eeprom d) (m : Memory) (addr : ℕ)
      → AreStorable text
      → length text < size
      → size < 256
      → length text + 1 < room_left
      → room_left < 65536
      → addr + suc (length text) ≤ e.token.size * 512
      → Holds d e m
      → let (bytes, n, e') = read_string d (write_string d e addr text size) addr room_left in
        (bytes ≡ text ++ (0 ∷ 0 ∷ []))
        × (n ≡ length text)
        × Holds d e' (store_all m addr (text ++ (0 ∷ [])))
  unfolding read_string
  read_string-write_string text size room_left e m addr p fits narrow enough wide room h =
      let bytes = text ++ (0 ∷ []) in
      let long : length bytes ≡ suc (length text) = omega (arith, length-append text (0 ∷ [])) in
      let inside : addr + length bytes ≤ e.token.size * 512 = omega (arith, long, room) in
      let (h₁, t₁) = write-store_all d bytes e m addr inside h in
      let spelled : values (byte_at (store_all m addr bytes)) addr (suc (length text)) ≡ bytes =
        ap (values (byte_at (store_all m addr bytes)) addr) (sym long)
        ∙ values-store_all bytes m addr e.token.size inside h.bytes in
      let (stored, n, h₂, t₂) =
        read_string_loop-text text (room_left - 1) 0 (write d e addr bytes) (store_all m addr bytes)
          addr p (omega (arith, enough)) (rw t₁ room) spelled h₁ in
      rw (write_string-eq text size e addr fits narrow) (
        ap (λ (l : List ℕ). l ++ (0 ∷ [])) stored ∙ append_assoc text (0 ∷ []) (0 ∷ []),
        n ∙ omega arith,
        h₂,
      )
