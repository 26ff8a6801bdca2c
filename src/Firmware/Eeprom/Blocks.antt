-- ===== src/Firmware/Eeprom/Blocks.antt =====
-- firmware/PowerMon/src/eeprom.c: `EE_Read` and `EE_Write` on blocks of bytes, within the token.
use power_monitor.Prelude.{
  ℕ, zero, suc, ◌+◌, ◌*◌, ◌/◌, ◌≤◌, ◌<◌, ◌≡◌, refl, sym, ◌∙◌, List, [], ◌∷◌, length, values, arith,
}
use mathlib.Core.Path.{ap₂, subst}
use power_monitor.Firmware.Flash.{FlashDriver}
use power_monitor.Firmware.Eeprom.{Eeprom}
use power_monitor.Firmware.Eeprom.Bytes.{addr_add, read1, read, write1, write}
use power_monitor.Firmware.Eeprom.Coherent.{Holds}
use power_monitor.Firmware.Eeprom.Memory.{
  Memory, byte_at, store, byte_at-store_self, byte_at-store_ne, length-store,
}
use power_monitor.Firmware.Eeprom.Refine.{read1-Returns, write1-store}

-- A block at an address of the memory.
unfoldable pub store_all : Memory → ℕ → List ℕ → Memory
store_all m a [] = m
store_all m a (b ∷ bs) = store_all (store m a b) (a + 1) bs

-- The first `size` pages have 512 bytes.
abbrev Sized : Memory → ℕ → Type 0
Sized m size = (p : ℕ) → p < size → length (m p) ≡ 512

store-Sized : (m : Memory) (a v size : ℕ) → Sized m size → Sized (store m a v) size
store-Sized m a v size s p lt = length-store m a v p ∙ s p lt

byte_at-store_all_below :
    (bs : List ℕ) (m : Memory) (a b size : ℕ)
    → b < a
    → a + length bs ≤ size * 512
    → Sized m size
    → byte_at (store_all m a bs) b ≡ byte_at m b
unfolding store_all
byte_at-store_all_below [] m a b size lt room s = refl
byte_at-store_all_below (c ∷ bs) m a b size lt room s =
    byte_at-store_all_below bs (store m a c) (a + 1) b size (omega arith) (omega (arith, room))
      (store-Sized m a c size s)
    ∙ byte_at-store_ne m a b c (s (a / 512) (omega (arith, room))) (omega arith)

-- The block stands where it was stored.
pub values-store_all :
    (bs : List ℕ) (m : Memory) (a size : ℕ)
    → a + length bs ≤ size * 512
    → Sized m size
    → values (byte_at (store_all m a bs)) a (length bs) ≡ bs
unfolding store_all values
values-store_all [] m a size room s = refl
values-store_all (c ∷ bs) m a size room s =
    ap₂ ◌∷◌
      (byte_at-store_all_below bs (store m a c) (a + 1) a size (omega arith) (omega (arith, room))
          (store-Sized m a c size s)
        ∙ byte_at-store_self m a c (s (a / 512) (omega (arith, room))))
      (values-store_all bs (store m a c) (a + 1) size (omega (arith, room))
        (store-Sized m a c size s))

module _ (d : FlashDriver) where
  pub next_address :
      (e : Eeprom d) (m : Memory) (addr : ℕ)
      → addr + 1 ≤ e.token.size * 512
      → Holds d e m
      → addr_add addr 1 ≡ addr + 1
  next_address e m addr room h = omega (arith, h.small)

  pub write-store_all :
      (bs : List ℕ) (e : Eeprom d) (m : Memory) (addr : ℕ)
      → addr + length bs ≤ e.token.size * 512
      → Holds d e m
      → Holds d (write d e addr bs) (store_all m addr bs) × ((write d e addr bs).token ≡ e.token)
  unfolding write store_all
  write-store_all [] e m addr room h = (h, refl)
  write-store_all (b ∷ bs) e m addr room h =
      let (h₁, t₁) = write1-store d e m addr b (omega arith) h in
      let next = next_address e m addr (omega arith) h in
      let (h₂, t₂) =
        write-store_all bs (write1 d e addr b) (store m addr b) (addr + 1) (rw t₁ (omega arith))
          h₁ in
      subst
        (λ (a : ℕ).
          Holds d (write d (write1 d e addr b) a bs) (store_all m addr (b ∷ bs))
          × ((write d (write1 d e addr b) a bs).token ≡ e.token))
        (sym next) (h₂, t₂ ∙ t₁)

  pub read-values :
      (n : ℕ) (e : Eeprom d) (m : Memory) (addr : ℕ)
      → addr + n ≤ e.token.size * 512
      → Holds d e m
      → ((read d e addr n).0 ≡ values (byte_at m) addr n)
        × Holds d (read d e addr n).1 m
        × ((read d e addr n).1.token ≡ e.token)
  unfolding read values
  read-values zero e m addr room h = (refl, h, refl)
  read-values (suc n) e m addr room h =
      let r = read1-Returns d e m addr (omega arith) h in
      let next = next_address e m addr (omega arith) h in
      let (v, h₂, t₂) =
        read-values n (read1 d e addr).1 m (addr + 1) (rw (r.token) (omega arith)) r.holds in
      rw next (ap₂ ◌∷◌ r.value v, h₂, t₂ ∙ r.token)

  -- From a state that holds a memory, `EE_Write` of a block that ends inside the token followed by
  -- `EE_Read` of its length at its address returns the block, and leaves a state that holds the
  -- memory with the block stored, under the same token.
  pub read-write :
      (bs : List ℕ) (e : Eeprom d) (m : Memory) (addr : ℕ)
      → addr + length bs ≤ e.token.size * 512
      → Holds d e m
      → let (bytes, e') = read d (write d e addr bs) addr (length bs) in
        (bytes ≡ bs) × Holds d e' (store_all m addr bs) × (e'.token ≡ e.token)
  read-write bs e m addr room h =
      let (h₁, t₁) = write-store_all bs e m addr room h in
      let (v, h₂, t₂) =
        read-values (length bs) (write d e addr bs) (store_all m addr bs) addr (rw t₁ room) h₁ in
      (v ∙ values-store_all bs m addr e.token.size room h.bytes, h₂, t₂ ∙ t₁)
