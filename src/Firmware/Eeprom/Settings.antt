-- ===== src/Firmware/Eeprom/Settings.antt =====
-- A setting of 32 bits: its value, or the default where it was never written.
use power_monitor.Prelude.{
  ℕ, ◌+◌, ◌/◌, ◌%◌, ◌≤◌, ◌<◌, ◌≡◌, refl, ap, ◌∙◌, List, get_or, length, ◌==◌, if◌then◌else◌, arith,
}
use power_monitor.Firmware.Flash.{DfToken, FlashDriver}
use power_monitor.Firmware.Eeprom.{u32, Eeprom, init, cache_flush}
use power_monitor.Firmware.Eeprom.Bytes.{read4_default, write4}
use power_monitor.Firmware.Eeprom.Coherent.{Holds}
use power_monitor.Firmware.Eeprom.Flush.{cache_flush-stores}
use power_monitor.Firmware.Eeprom.Memory.{Memory, byte_at, store, byte_at-store, length-store}
use power_monitor.Firmware.Eeprom.Refine.{Returns}
use power_monitor.Firmware.Eeprom.Trace.{init-Holds}
use power_monitor.Firmware.Eeprom.Words.{
  IsBytes, word4, store2, store4, Stored4, store4-Stored4, read4-Returns, write4-store4,
}

-- Every place of the memory holds a byte.
abbrev pub AreBytes : Memory → Type 0
AreBytes m = (a : ℕ) → byte_at m a < 256

-- What `EE_Read4_Default` makes of the word at an address.
abbrev pub setting : Memory → ℕ → ℕ → ℕ
setting m addr def = if word4 m addr == 0xFFFFFFFF then def else word4 m addr

store-AreBytes :
    (m : Memory) (a v : ℕ)
    → length (m (a / 512)) ≡ 512
    → v < 256
    → AreBytes m
    → AreBytes (store m a v)
store-AreBytes m a v len small bytes b = ground (arith, byte_at-store m a b v len, bytes b)

store2-AreBytes :
    (m : Memory) (a v : ℕ)
    → length (m (a / 512)) ≡ 512
    → length (m ((a + 1) / 512)) ≡ 512
    → AreBytes m
    → AreBytes (store2 m a v)
store2-AreBytes m a v l0 l1 bytes =
    store-AreBytes (store m a (v % 256)) (a + 1) (v / 256 % 256)
      (length-store m a (v % 256) ((a + 1) / 512) ∙ l1) (omega arith)
      (store-AreBytes m a (v % 256) l0 (omega arith) bytes)

module _ (d : FlashDriver) where
  pub store4-AreBytes :
      (e : Eeprom d) (m : Memory) (addr v : ℕ)
      → (addr + 3) / 512 < e.token.size
      → Holds d e m
      → AreBytes m
      → AreBytes (store4 m addr v)
  store4-AreBytes e m addr v lt h bytes =
      let kept : (p : ℕ) → length (store2 m addr (v % 65536) p) ≡ length (m p) =
        λ p. length-store _ (addr + 1) _ p ∙ length-store m addr _ p in
      store2-AreBytes (store2 m addr (v % 65536)) (addr + 2) (v / 65536 % 65536)
        (kept ((addr + 2) / 512) ∙ h.bytes ((addr + 2) / 512) (omega arith))
        (kept ((addr + 2 + 1) / 512) ∙ h.bytes ((addr + 2 + 1) / 512) (omega arith))
        (store2-AreBytes m addr (v % 65536) (h.bytes (addr / 512) (omega arith))
          (h.bytes ((addr + 1) / 512) (omega arith)) bytes)

  -- A stored word is what a memory of the state has there.
  pub word4-store4 :
      (e : Eeprom d) (m : Memory) (addr v : ℕ)
      → (addr + 3) / 512 < e.token.size
      → v < u32
      → Holds d e m
      → word4 (store4 m addr v) addr ≡ v
  word4-store4 e m addr v lt small h =
      let s : Stored4 m addr v =
        store4-Stored4 m addr v (λ k le. h.bytes ((addr + k) / 512) (omega arith)) in
      omega (arith, s.byte0, s.byte1, s.byte2, s.byte3)

  -- Words that do not overlap.
  pub word4-store4_ne :
      (e : Eeprom d) (m : Memory) (addr other v : ℕ)
      → (addr + 3) / 512 < e.token.size
      → (addr + 4 ≤ other)
      → Holds d e m
      → word4 (store4 m addr v) other ≡ word4 m other
  word4-store4_ne e m addr other v lt apart h =
      let s : Stored4 m addr v =
        store4-Stored4 m addr v (λ k le. h.bytes ((addr + k) / 512) (omega arith)) in
      omega (
        arith,
        s.others other (omega arith) (omega arith) (omega arith) (omega arith),
        s.others (other + 1) (omega arith) (omega arith) (omega arith) (omega arith),
        s.others (other + 2) (omega arith) (omega arith) (omega arith) (omega arith),
        s.others (other + 2 + 1) (omega arith) (omega arith) (omega arith) (omega arith),
      )

  pub read4_default-setting :
      (e : Eeprom d) (m : Memory) (addr def : ℕ)
      → (addr + 3) / 512 < e.token.size
      → IsBytes m addr
      → Holds d e m
      → Returns d e m (setting m addr def) (read4_default d e addr def)
  unfolding read4_default
  read4_default-setting e m addr def lt bytes h =
      let r = read4-Returns d e m addr lt bytes.0 bytes.1 bytes.2 h in
      record {
        value = ap (λ (v : ℕ). if v == 0xFFFFFFFF then def else v) r.value;
        holds = r.holds;
        token = r.token;
      }

  -- What `EE_Init` over the flash of a flush finds.
  abbrev pub restarted : Eeprom d → ℕ → Eeprom d
  restarted e n = init d (cache_flush d e).1.flash e.token n

  abbrev pub restarted_memory : Eeprom d → Memory
  restarted_memory e = d.page_at (cache_flush d e).1.flash e.token

  pub restarted-Holds :
      (e : Eeprom d) (m : Memory) (n : ℕ)
      → 0 < n
      → Holds d e m
      → Holds d (restarted e n) (restarted_memory e)
  restarted-Holds e m n pos h = init-Holds d (cache_flush d e).1.flash e.token n h.fits h.small pos

  restarted_byte :
      (e : Eeprom d) (m : Memory) (addr : ℕ)
      → addr / 512 < e.token.size
      → Holds d e m
      → byte_at (restarted_memory e) addr ≡ byte_at m addr
  unfolding byte_at
  restarted_byte e m addr lt h =
      let (done, h', stored, token) = cache_flush-stores d e m h in
      ap (λ (l : List ℕ). get_or l (addr % 512) 0) ((rw token at stored) (addr / 512) lt)

  -- A flush and a restart keep every setting.
  pub restarted-setting :
      (e : Eeprom d) (m : Memory) (addr def : ℕ)
      → (addr + 3) / 512 < e.token.size
      → AreBytes m
      → Holds d e m
      → IsBytes (restarted_memory e) addr
        × (setting (restarted_memory e) addr def ≡ setting m addr def)
  restarted-setting e m addr def lt bytes h =
      let b0 = restarted_byte e m addr (omega arith) h in
      let b1 = restarted_byte e m (addr + 1) (omega arith) h in
      let b2 = restarted_byte e m (addr + 2) (omega arith) h in
      let b3 = restarted_byte e m (addr + 3) (omega arith) h in
      let b3' = restarted_byte e m (addr + 2 + 1) (omega arith) h in
      (
        omega (
          arith,
          b0,
          b1,
          b2,
          b3,
          bytes addr,
          bytes (addr + 1),
          bytes (addr + 2),
          bytes (addr + 3),
        ),
        ap (λ (w : ℕ). if w == 0xFFFFFFFF then def else w) {x = word4 (restarted_memory e) addr}
            {y = word4 m addr} (omega (arith, b0, b1, b2, b3')),
      )

  -- A setting that is written and read again.
  pub write4-setting :
      (e : Eeprom d) (m : Memory) (addr v def : ℕ)
      → (addr + 3) / 512 < e.token.size
      → v < u32
      → AreBytes m
      → Holds d e m
      → Returns d e
          (store4 m addr v)
          (if v == 0xFFFFFFFF then def else v)
          (read4_default d (write4 d e addr v) addr def)
  write4-setting e m addr v def lt small bytes h =
      let (h', token) = write4-store4 d e m addr v lt h in
      let b = store4-AreBytes e m addr v lt h bytes in
      let r =
        read4_default-setting (write4 d e addr v) (store4 m addr v) addr def (rw token lt)
          (b addr, b (addr + 1), b (addr + 2), b (addr + 3)) h' in
      record {
        value =
            r.value
            ∙ ap (λ (w : ℕ). if w == 0xFFFFFFFF then def else w)
                (word4-store4 e m addr v lt small h);
        holds = r.holds;
        token = r.token ∙ token;
      }

  pub restarted_token : (e : Eeprom d) (n : ℕ) → (restarted e n).token ≡ e.token
  unfolding init
  restarted_token e n = refl

  pub init_token : (flash : d.State) (t : DfToken) (n : ℕ) → (init d flash t n).token ≡ t
  unfolding init
  init_token flash t n = refl
