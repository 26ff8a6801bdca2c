-- ===== src/Firmware/Eeprom/Words.antt =====
-- The accesses of two and four bytes: little-endian, and a word that is written reads back.
use Prim.Native.Nat.{bit_or}
use power_monitor.Prelude.{
  ℕ, ◌+◌, ◌*◌, ◌/◌, ◌%◌, ◌≤◌, ◌<◌, ◌≡◌, ◌≢◌, refl, sym, ap, ◌∙◌, ◌⊎◌, inl, inr, length, arith, ◌==◌,
  Bool-cases, ==→eq,
}
use mathlib.Core.Path.{ap₂}
use mathlib.Core.Bool.{false≢true}
use power_monitor.Prelude.Bits.{bit_or_disjoint}
use power_monitor.Firmware.Flash.{FlashDriver}
use power_monitor.Firmware.Eeprom.{u32, Eeprom}
use power_monitor.Firmware.Eeprom.Coherent.{Holds}
use power_monitor.Firmware.Eeprom.Memory.{
  Memory, byte_at, store, byte_at-store_self, byte_at-store_ne, length-store,
}
use power_monitor.Firmware.Eeprom.Bytes.{
  addr_add, read1, read2, read4, read4_default, write1, write2, write4,
}
use power_monitor.Firmware.Eeprom.Refine.{Returns, read1-Returns, write1-store}

-- The bytes of a word in a memory, lowest first.
abbrev pub word2 : Memory → ℕ → ℕ
word2 m addr = byte_at m addr + byte_at m (addr + 1) * 256

abbrev pub word4 : Memory → ℕ → ℕ
word4 m addr = word2 m addr + word2 m (addr + 2) * 65536

-- The memory after a store of two and of four bytes.
abbrev pub store2 : Memory → ℕ → ℕ → Memory
store2 m addr v = store (store m addr (v % 256)) (addr + 1) (v / 256 % 256)

abbrev pub store4 : Memory → ℕ → ℕ → Memory
store4 m addr v = store2 (store2 m addr (v % 65536)) (addr + 2) (v / 65536 % 65536)

pub addr_add_small :
    (addr k size : ℕ) → size ≤ 0xFFFF → (addr + k) / 512 < size → addr_add addr k ≡ addr + k
addr_add_small addr k size h lt = omega arith

module _ (d : FlashDriver) where
  -- `EE_Read2` returns the two bytes of the memory, the lower address first.
  pub read2-Returns :
      (e : Eeprom d) (m : Memory) (addr : ℕ)
      → (addr + 1) / 512 < e.token.size
      → byte_at m addr < 256
      → Holds d e m
      → Returns d e m (word2 m addr) (read2 d e addr)
  unfolding read2
  read2-Returns e m addr lt small h =
      let next : addr_add addr 1 ≡ addr + 1 = addr_add_small addr 1 e.token.size h.small lt in
      let a = read1-Returns d e m addr (omega arith) h in
      let b =
        read1-Returns d (read1 d e addr).1 m (addr_add addr 1) (rw (a.token, next) lt) a.holds in
      record {
        value =
            ap₂ (λ (lo hi : ℕ). bit_or lo (hi * 256)) a.value (b.value ∙ ap (byte_at m) next)
            ∙ bit_or_disjoint 8 (byte_at m addr) (byte_at m (addr + 1)) small;
        holds = b.holds;
        token = b.token ∙ a.token;
      }

  -- `EE_Read4` returns the little-endian word of the memory, and keeps the memory.
  pub read4-Returns :
      (e : Eeprom d) (m : Memory) (addr : ℕ)
      → (addr + 3) / 512 < e.token.size
      → byte_at m addr < 256
      → byte_at m (addr + 1) < 256
      → byte_at m (addr + 2) < 256
      → Holds d e m
      → Returns d e m (word4 m addr) (read4 d e addr)
  unfolding read4
  read4-Returns e m addr lt b0 b1 b2 h =
      let next : addr_add addr 2 ≡ addr + 2 =
        addr_add_small addr 2 e.token.size h.small (omega arith) in
      let a = read2-Returns e m addr (omega arith) b0 h in
      let b =
        read2-Returns (read2 d e addr).1 m (addr_add addr 2) (rw (a.token, next) (omega arith))
          (rw next b2) a.holds in
      record {
        value =
            ap₂ (λ (lo hi : ℕ). bit_or lo (hi * 65536)) a.value (b.value ∙ ap (word2 m) next)
            ∙ bit_or_disjoint 16 (word2 m addr) (word2 m (addr + 2)) (omega arith);
        holds = b.holds;
        token = b.token ∙ a.token;
      }

  pub write2-store2 :
      (e : Eeprom d) (m : Memory) (addr v : ℕ)
      → (addr + 1) / 512 < e.token.size
      → Holds d e m
      → Holds d (write2 d e addr v) (store2 m addr v) × ((write2 d e addr v).token ≡ e.token)
  unfolding write2
  write2-store2 e m addr v lt h =
      let next : addr_add addr 1 ≡ addr + 1 = addr_add_small addr 1 e.token.size h.small lt in
      let (a, at_a) = write1-store d e m addr (v % 256) (omega arith) h in
      let (b, at_b) =
        write1-store d (write1 d e addr (v % 256)) (store m addr (v % 256)) (addr + 1)
          (v / 256 % 256) (rw at_a lt) a in
      rw next (b, at_b ∙ at_a)

  pub write4-store4 :
      (e : Eeprom d) (m : Memory) (addr v : ℕ)
      → (addr + 3) / 512 < e.token.size
      → Holds d e m
      → Holds d (write4 d e addr v) (store4 m addr v) × ((write4 d e addr v).token ≡ e.token)
  unfolding write4
  write4-store4 e m addr v lt h =
      let next : addr_add addr 2 ≡ addr + 2 =
        addr_add_small addr 2 e.token.size h.small (omega arith) in
      let (a, at_a) = write2-store2 e m addr (v % 65536) (omega arith) h in
      let (b, at_b) =
        write2-store2 (write2 d e addr (v % 65536)) (store2 m addr (v % 65536)) (addr + 2)
          (v / 65536 % 65536) (rw at_a (omega arith)) a in
      rw next (b, at_b ∙ at_a)

-- The bytes behind a store of two.
byte_at-store2 :
    (m : Memory) (addr v b : ℕ)
    → length (m (addr / 512)) ≡ 512
    → length (m ((addr + 1) / 512)) ≡ 512
    → (byte_at (store2 m addr v) addr ≡ v % 256)
      × (byte_at (store2 m addr v) (addr + 1) ≡ v / 256 % 256)
      × (b ≢ addr → b ≢ addr + 1 → byte_at (store2 m addr v) b ≡ byte_at m b)
byte_at-store2 m addr v b l0 l1 = (
  byte_at-store_ne m' (addr + 1) addr _ l1' (omega arith) ∙ byte_at-store_self m addr (v % 256) l0,
  byte_at-store_self m' (addr + 1) _ l1',
  λ n0 n1.
      byte_at-store_ne m' (addr + 1) b _ l1' (omega arith)
      ∙ byte_at-store_ne m addr b (v % 256) l0 (omega arith),
)
  where
    m' : Memory
    m' = store m addr (v % 256)

    l1' : length (m' ((addr + 1) / 512)) ≡ 512
    l1' = length-store m addr (v % 256) ((addr + 1) / 512) ∙ l1

-- The four bytes of a stored word, and every other byte.
pub record Stored4 (m : Memory) (addr v : ℕ) : Type 0 where
  pub byte0 : byte_at (store4 m addr v) addr ≡ v % 65536 % 256
  pub byte1 : byte_at (store4 m addr v) (addr + 1) ≡ v % 65536 / 256 % 256
  pub byte2 : byte_at (store4 m addr v) (addr + 2) ≡ v / 65536 % 65536 % 256
  pub byte3 : byte_at (store4 m addr v) (addr + 2 + 1) ≡ v / 65536 % 65536 / 256 % 256
  pub others :
      (b : ℕ)
      → b ≢ addr
      → b ≢ addr + 1
      → b ≢ addr + 2
      → b ≢ addr + 3
      → byte_at (store4 m addr v) b ≡ byte_at m b

pub store4-Stored4 :
    (m : Memory) (addr v : ℕ)
    → ((k : ℕ) → k ≤ 3 → length (m ((addr + k) / 512)) ≡ 512)
    → Stored4 m addr v
store4-Stored4 m addr v l = record {
  byte0 = (high addr).2 (omega arith) (omega arith) ∙ (low addr).0;
  byte1 = (high (addr + 1)).2 (omega arith) (omega arith) ∙ (low addr).1;
  byte2 = (high addr).0;
  byte3 = (high addr).1;
  others = λ b n0 n1 n2 n3. (high b).2 n2 (omega arith) ∙ (low b).2 n0 n1;
}
  where
    m' : Memory
    m' = store2 m addr (v % 65536)

    l0 : length (m (addr / 512)) ≡ 512
    l0 = ap (λ k. length (m (k / 512))) {x = addr} {y = addr + 0} (omega arith) ∙ l 0 (omega arith)

    kept : (p : ℕ) → length (m' p) ≡ length (m p)
    kept p = length-store _ (addr + 1) _ p ∙ length-store m addr _ p

    low :
        (b : ℕ)
        → (byte_at m' addr ≡ v % 65536 % 256)
          × (byte_at m' (addr + 1) ≡ v % 65536 / 256 % 256)
          × (b ≢ addr → b ≢ addr + 1 → byte_at m' b ≡ byte_at m b)
    low b = byte_at-store2 m addr (v % 65536) b l0 (l 1 (omega arith))

    l3 : length (m ((addr + 2 + 1) / 512)) ≡ 512
    l3 =
        ap (λ k. length (m (k / 512))) {x = addr + 2 + 1} {y = addr + 3} (omega arith)
        ∙ l 3 (omega arith)

    high :
        (b : ℕ)
        → (byte_at (store4 m addr v) (addr + 2) ≡ v / 65536 % 65536 % 256)
          × (byte_at (store4 m addr v) (addr + 2 + 1) ≡ v / 65536 % 65536 / 256 % 256)
          × (b ≢ addr + 2 → b ≢ addr + 2 + 1 → byte_at (store4 m addr v) b ≡ byte_at m' b)
    high b =
        byte_at-store2 m' (addr + 2) (v / 65536 % 65536) b
          (kept ((addr + 2) / 512) ∙ l 2 (omega arith)) (kept ((addr + 2 + 1) / 512) ∙ l3)

-- The four bytes at an address are bytes, and are all 0xFF.
abbrev pub IsBytes : Memory → ℕ → Type 0
IsBytes m addr =
    (byte_at m addr < 256)
    × (byte_at m (addr + 1) < 256)
    × (byte_at m (addr + 2) < 256)
    × (byte_at m (addr + 3) < 256)

abbrev pub IsErased : Memory → ℕ → Type 0
IsErased m addr =
    (byte_at m addr ≡ 0xFF)
    × (byte_at m (addr + 1) ≡ 0xFF)
    × (byte_at m (addr + 2) ≡ 0xFF)
    × (byte_at m (addr + 3) ≡ 0xFF)

full_word :
    (m : Memory) (addr : ℕ)
    → IsErased m addr
    → byte_at m (addr + 3) ≡ byte_at m (addr + 2 + 1)
    → word4 m addr ≡ 0xFFFFFFFF
full_word m addr er last = omega arith

module _ (d : FlashDriver) where
  -- Where the four bytes lie in pages of the token, a 32-bit word that `EE_Write4` stores is what
  -- `EE_Read4` of that address returns, any byte outside the word stays, and the state holds the
  -- memory of the store afterwards.
  pub read4-write4 :
      (e : Eeprom d) (m : Memory) (addr v b : ℕ)
      → (addr + 3) / 512 < e.token.size
      → v < u32
      → b ≢ addr
      → b ≢ addr + 1
      → b ≢ addr + 2
      → b ≢ addr + 3
      → Holds d e m
      → let r = read4 d (write4 d e addr v) addr in
        (r.0 ≡ v) × Holds d r.1 (store4 m addr v) × (byte_at (store4 m addr v) b ≡ byte_at m b)
  read4-write4 e m addr v b lt small n0 n1 n2 n3 h =
      let (h', token) = write4-store4 d e m addr v lt h in
      let s : Stored4 m addr v =
        store4-Stored4 m addr v (λ k le. h.bytes ((addr + k) / 512) (omega arith)) in
      let r =
        read4-Returns d (write4 d e addr v) (store4 m addr v) addr (rw token lt)
          (omega (arith, s.byte0)) (omega (arith, s.byte1)) (omega (arith, s.byte2)) h' in
      (r.value ∙ omega (arith, s.byte0, s.byte1, s.byte2, s.byte3), r.holds, s.others b n0 n1 n2 n3)

  -- Where the four bytes lie in pages of the token, `EE_Read4_Default` returns the default if they
  -- are erased (all 0xFF) and the stored word if they are not, and keeps the memory.
  pub read4_default-Returns :
      (e : Eeprom d) (m : Memory) (addr def : ℕ)
      → (addr + 3) / 512 < e.token.size
      → IsBytes m addr
      → Holds d e m
      → let r = read4_default d e addr def in
        Holds d r.1 m
        × ((IsErased m addr × (r.0 ≡ def)) ⊎ ((¬ IsErased m addr) × (r.0 ≡ word4 m addr)))
  unfolding read4_default
  read4_default-Returns e m addr def lt b h =
      let last : byte_at m (addr + 3) ≡ byte_at m (addr + 2 + 1) = ap (byte_at m) (omega arith) in
      let r = read4-Returns d e m addr lt b.0 b.1 b.2 h in
      elim (Bool-cases ((read4 d e addr).0 == 0xFFFFFFFF)) [
        | inl erased ↦
            let full : word4 m addr ≡ 0xFFFFFFFF = sym r.value ∙ ==→eq _ _ erased in
            rw erased (
              r.holds,
              inl (
                (
                  omega (arith, last),
                  omega (arith, last),
                  omega (arith, last),
                  omega (arith, last),
                ),
                refl,
              ),
            )
        | inr programmed ↦ rw programmed (
          r.holds,
          inr (
            λ er. false≢true (sym programmed ∙ rw (r.value ∙ full_word m addr er last) refl),
            r.value,
          ),
        )
      ]
