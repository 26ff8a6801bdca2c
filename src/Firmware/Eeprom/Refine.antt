-- ===== src/Firmware/Eeprom/Refine.antt =====
-- Byte accesses of eeprom.c against the flat memory.
use power_monitor.Prelude.{
  ℕ, ◌/◌, ◌%◌, ◌≤◌, ◌<◌, ◌≡◌, ◌≢◌, ◌⊎◌, inl, inr, sym, ap, ◌∙◌, true, List, length, get_or, set,
  length-set, get_or-set_self, set-get_or, arith, ◌==◌, Bool-cases, ==→eq, ==_refl, ==_of_ne,
}
use mathlib.Core.Path.{fun_ext}
use native.Mathlib.Decide.{ℕ_discrete}
use power_monitor.Firmware.Flash.{FlashDriver}
use power_monitor.Firmware.Eeprom.{CachePage, page_of, blank_page, Eeprom, page_ptr, fill}
use power_monitor.Firmware.Eeprom.Lookup.{nth}
use power_monitor.Firmware.Eeprom.Coherent.{Holds, slot}
use power_monitor.Firmware.Eeprom.Filling.{Filled, fill-Filled}
use power_monitor.Firmware.Eeprom.Memory.{Memory, byte_at, store}
use power_monitor.Firmware.Eeprom.Bytes.{read1, write1}

pub page_of_small : (addr size : ℕ) → size ≤ 0xFFFF → addr / 512 < size → page_of addr ≡ addr / 512
page_of_small addr size h lt = omega arith

module _ (d : FlashDriver) where
  -- The result `r` of an access from `e`: the value `v`, and a state that holds the memory `m`.
  pub record Returns (e : Eeprom d) (m : Memory) (v : ℕ) (r : ℕ × Eeprom d) : Type 0 where
    pub value : r.0 ≡ v
    pub holds : Holds d r.1 m
    pub token : r.1.token ≡ e.token

  -- `EE_Read1` returns the byte of the memory at its address, and keeps the memory.
  pub read1-Returns :
      (e : Eeprom d) (m : Memory) (addr : ℕ)
      → addr / 512 < e.token.size
      → Holds d e m
      → Returns e m (byte_at m addr) (read1 d e addr)
  unfolding read1 byte_at
  read1-Returns e m addr lt h =
      let page : page_of addr ≡ addr / 512 = page_of_small addr e.token.size h.small lt in
      let f : Filled d e m (page_of addr) (fill d e (page_of addr)) =
        fill-Filled d e m (page_of addr) (omega arith) h in
      record {
        value =
            ap (λ (b : List ℕ). get_or b (addr % 512) 0)
              (f.holds.current (fill d e (page_of addr)).0 f.inside
                  (rw (f.here, f.token) (omega arith))
                ∙ ap m (f.here ∙ page));
        holds = f.holds;
        token = f.token;
      }

  -- To store the byte that is there changes nothing.
  store_same : (m : Memory) (addr v : ℕ) → byte_at m addr ≡ v → store m addr v ≡ m
  unfolding store byte_at
  store_same m addr v e = fun_ext λ p. elim (ℕ_discrete (addr / 512) p) [
    | yes here ↦ rw (here, ==_refl p) (rw (← e, here) (set-get_or (m p) (addr % 512) 0))
    | no ne ↦ rw (==_of_ne (addr / 512) p ne)
  ]

  -- A byte of the page at index `i` changes.
  pub Holds-write :
      (e : Eeprom d) (m : Memory) (i addr v : ℕ)
      → i < length e.ext_cache
      → (page_ptr d e i).page ≡ addr / 512
      → addr / 512 < e.token.size
      → Holds d e m
      → Holds d
          (record e {
            ext_cache = set e.ext_cache i (record (page_ptr d e i) {
              dirty = true;
              buf = set (page_ptr d e i).buf (addr % 512) v;
            });
          })
          (store m addr v)
  unfolding store
  Holds-write e0 m i addr v lt here small h = record {
    fits = h.fits;
    small = h.small;
    pages = omega (arith, same_length);
    bytes = λ p inside. elim (ℕ_discrete (addr / 512) p) [
      | yes e ↦ rw (e, ==_refl p) (length-set (m p) (addr % 512) v ∙ h.bytes p inside)
      | no ne ↦ rw (==_of_ne (addr / 512) p ne) (h.bytes p inside)
    ];
    sized = λ j lj. elim (there j) [
      | inl (e, new) ↦ rw new (length-set (page_ptr d e0 i).buf (addr % 512) v ∙ h.sized i lt)
      | inr (ne, old) ↦ rw old (h.sized j (omega (arith, same_length)))
    ];
    current = λ j lj. elim (there j) [
      | inl (e, new) ↦
          rw (new, here, ==_refl (addr / 512))
            (λ inside.
              ap (λ (b : List ℕ). set b (addr % 512) v)
                (h.current i lt (rw here inside) ∙ ap m here))
      | inr (ne, old) ↦ rw old (λ inside.
          rw
            (==_of_ne (addr / 512) (page_ptr d e0 j).page (λ same.
              ne (h.unique i j lt (omega (arith, same_length)) (here ∙ same) (rw here small))))
            (h.current j (omega (arith, same_length)) inside))
    ];
    unique = λ j k lj lk same inside.
        h.unique j k (omega (arith, same_length)) (omega (arith, same_length))
          (sym (tag j) ∙ same ∙ tag k) (omega (arith, tag j));
    stored = λ p inside clean. elim (ℕ_discrete (addr / 512) p) [
      | yes e ↦ absurd (
          cc (
            (rw (get_or-set_self e0.ext_cache i q blank_page lt) at
                (clean i (omega (arith, same_length))))
              (here ∙ e)))
      | no ne ↦ rw (==_of_ne (addr / 512) p ne) (
          h.stored p inside λ j lj same. elim (there j) [
            | inl (ej, new) ↦ absurd (ne (sym here ∙ ap (λ k. (page_ptr d e0 k).page) ej ∙ same))
            | inr (nj, old) ↦ (rw old at (clean j (omega (arith, same_length)))) same
          ])
    ];
  }
    where
      q : CachePage
      q = record (page_ptr d e0 i) { dirty = true; buf = set (page_ptr d e0 i).buf (addr % 512) v }

      same_length : length (set e0.ext_cache i q) ≡ length e0.ext_cache
      same_length = length-set e0.ext_cache i q

      there :
          (j : ℕ)
          → ((i ≡ j) × (nth (set e0.ext_cache i q) j ≡ q))
            ⊎ ((i ≢ j) × (nth (set e0.ext_cache i q) j ≡ nth e0.ext_cache j))
      there j = slot d e0.ext_cache i q j lt

      tag : (j : ℕ) → (nth (set e0.ext_cache i q) j).page ≡ (page_ptr d e0 j).page
      tag j = elim (there j) [
        | inl (e, new) ↦ rw new (ap (λ k. (page_ptr d e0 k).page) e)
        | inr (ne, old) ↦ rw old
      ]

  -- `EE_Write1` stores the byte, in the cache alone.
  pub write1-store :
      (e : Eeprom d) (m : Memory) (addr v : ℕ)
      → addr / 512 < e.token.size
      → Holds d e m
      → Holds d (write1 d e addr v) (store m addr v) × ((write1 d e addr v).token ≡ e.token)
  unfolding write1 byte_at
  write1-store e m addr v lt h = elim (Bool-cases (get_or p.buf (addr % 512) 0 == v)) [
    | inl same ↦ rw same (
      rw
          (store_same m addr v
            (ap (λ (b : List ℕ). get_or b (addr % 512) 0) (sym buf) ∙ ==→eq _ _ same))
          f.holds,
      f.token,
    )
    | inr other ↦
        rw other
          (Holds-write e' m i addr v f.inside (f.here ∙ page) (rw f.token lt) f.holds, f.token)
  ]
    where
      i : ℕ
      i = (fill d e (page_of addr)).0

      e' : Eeprom d
      e' = (fill d e (page_of addr)).1

      p : CachePage
      p = page_ptr d e' i

      page : page_of addr ≡ addr / 512
      page = page_of_small addr e.token.size h.small lt

      f : Filled d e m (page_of addr) (fill d e (page_of addr))
      f = fill-Filled d e m (page_of addr) (rw page lt) h

      buf : p.buf ≡ m (addr / 512)
      buf = f.holds.current i f.inside (rw (f.here, f.token, page) lt) ∙ ap m (f.here ∙ page)
