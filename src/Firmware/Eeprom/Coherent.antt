-- ===== src/Firmware/Eeprom/Coherent.antt =====
-- The cache and the flash together hold one memory: what `ExtCache_Fill` keeps.
use power_monitor.Prelude.{
  ℕ, ◌≤◌, ◌<◌, ◌≡◌, ◌≢◌, ◌⊎◌, inl, inr, refl, sym, ap, ◌∙◌, false, List, length, set, length-set,
  get_or-set_self, get_or-set_ne, arith,
}
use native.Mathlib.Decide.{ℕ_discrete}
use power_monitor.Firmware.Flash.{FlashDriver}
use power_monitor.Firmware.Eeprom.{CachePage, blank_page, Eeprom, page_ptr}
use power_monitor.Firmware.Eeprom.Lookup.{nth, SamePage}

module _ (d : FlashDriver) where
  -- The state `e` holds the memory that has the 512 bytes `m p` at page `p` of the token.
  pub record Holds (e : Eeprom d) (m : ℕ → List ℕ) : Type 0 where
    pub fits : FlashDriver.Fits d e.token
    pub small : e.token.size ≤ 0xFFFF
    pub pages : 0 < length e.ext_cache
    pub bytes : (p : ℕ) → p < e.token.size → length (m p) ≡ 512
    pub sized : (i : ℕ) → i < length e.ext_cache → length (page_ptr d e i).buf ≡ 512
    pub current :
        (i : ℕ)
        → i < length e.ext_cache
        → (page_ptr d e i).page < e.token.size
        → (page_ptr d e i).buf ≡ m (page_ptr d e i).page
    pub unique :
        (i j : ℕ)
        → i < length e.ext_cache
        → j < length e.ext_cache
        → (page_ptr d e i).page ≡ (page_ptr d e j).page
        → (page_ptr d e i).page < e.token.size
        → i ≡ j
    pub stored :
        (p : ℕ)
        → p < e.token.size
        → ((i : ℕ)
            → i < length e.ext_cache
            → (page_ptr d e i).page ≡ p
            → (page_ptr d e i).dirty ≡ false)
        → d.page_at e.flash e.token p ≡ m p

  -- Counts do not matter.
  pub Holds-SamePage :
      (e : Eeprom d) (m : ℕ → List ℕ) (ps : List CachePage)
      → length ps ≡ length e.ext_cache
      → ((i : ℕ) → SamePage (nth ps i) (nth e.ext_cache i))
      → Holds e m
      → Holds (record e { ext_cache = ps }) m
  Holds-SamePage e m ps len same h = record {
    fits = h.fits;
    small = h.small;
    bytes = h.bytes;
    pages = omega arith;
    sized = λ i lt. ap length (same i).buf ∙ h.sized i (omega arith);
    current = λ i lt inside.
        (same i).buf
        ∙ h.current i (omega arith) (omega (arith, (same i).page))
        ∙ ap m (sym (same i).page);
    unique = λ i j li lj e inside.
        h.unique i j (omega arith) (omega arith) (omega (arith, (same i).page, (same j).page))
          (omega (arith, (same i).page));
    stored = λ p inside clean.
        h.stored p inside
          (λ i lt at. sym (same i).dirty ∙ clean i (omega arith) (omega (arith, (same i).page)));
  }

  -- What stands at an index after a write to another one or the same.
  pub slot :
      (ps : List CachePage) (o : ℕ) (q : CachePage) (i : ℕ)
      → o < length ps
      → ((o ≡ i) × (nth (set ps o q) i ≡ q)) ⊎ ((o ≢ i) × (nth (set ps o q) i ≡ nth ps i))
  slot ps o q i lt = elim (ℕ_discrete o i) [
    | yes e ↦ inl (e, rw (← e) (get_or-set_self ps o q blank_page lt))
    | no ne ↦ inr (ne, get_or-set_ne ps o i q blank_page ne)
  ]

  pub nth-set_same :
      (ps : List CachePage) (o : ℕ) (q : CachePage)
      → o < length ps
      → SamePage q (nth ps o)
      → (i : ℕ) → SamePage (nth (set ps o q) i) (nth ps i)
  nth-set_same ps o q lt same i = elim (slot ps o q i lt) [
    | inl (e, new) ↦ rw (new, ← e) same
    | inr (ne, old) ↦ rw old (record { page = refl; dirty = refl; buf = refl })
  ]

  -- A page that no other slot holds replaces the one at `o`, and the flash holds what is missing.
  pub Holds-install :
      (e : Eeprom d) (m : ℕ → List ℕ) (o page delay : ℕ) (buf : List ℕ) (s : d.State)
      → o < length e.ext_cache
      → page < e.token.size
      → ((i : ℕ) → i < length e.ext_cache → (page_ptr d e i).page ≢ page)
      → length buf ≡ 512
      → buf ≡ m page
      → ((p : ℕ)
          → p < e.token.size
          → ((i : ℕ)
              → i < length e.ext_cache
              → i ≢ o
              → (page_ptr d e i).page ≡ p
              → (page_ptr d e i).dirty ≡ false)
          → d.page_at s e.token p ≡ m p)
      → Holds e m
      → Holds
          (record e {
            ext_cache =
                set e.ext_cache o (record { page = page; dirty = false; count = 0; buf = buf });
            flush_delay = delay;
            flash = s;
          })
          m
  Holds-install e m o page delay buf s lt inside absent len eq rest h = record {
    fits = h.fits;
    small = h.small;
    bytes = h.bytes;
    pages = omega (arith, same_length);
    sized = λ i li. elim (there i) [
      | inl (e, new) ↦ rw new len
      | inr (ne, old) ↦ rw old (h.sized i (omega (arith, same_length)))
    ];
    current = λ i li. elim (there i) [
      | inl (e, new) ↦ rw new (λ _. eq)
      | inr (ne, old) ↦ rw old (h.current i (omega (arith, same_length)))
    ];
    unique = λ i j li lj. elim (there i) [
      | inl (ei, newi) ↦ elim (there j) [
        | inl (ej, newj) ↦ λ _ _. sym ei ∙ ej
        | inr (nj, oldj) ↦
            rw (newi, oldj) (λ same _. absurd (absent j (omega (arith, same_length)) (sym same)))
      ]
      | inr (ni, oldi) ↦ elim (there j) [
        | inl (ej, newj) ↦
            rw (oldi, newj) (λ same _. absurd (absent i (omega (arith, same_length)) same))
        | inr (nj, oldj) ↦
            rw (oldi, oldj) (h.unique i j (omega (arith, same_length)) (omega (arith, same_length)))
      ]
    ];
    stored = λ p small clean. rest p small λ i li ne here. elim (there i) [
      | inl (ei, new) ↦ absurd (ne (sym ei))
      | inr (ni, old) ↦ (rw old at (clean i (omega (arith, same_length)))) here
    ];
  }
    where
      q : CachePage
      q = record { page = page; dirty = false; count = 0; buf = buf }

      same_length : length (set e.ext_cache o q) ≡ length e.ext_cache
      same_length = length-set e.ext_cache o q

      there :
          (i : ℕ)
          → ((o ≡ i) × (nth (set e.ext_cache o q) i ≡ q))
            ⊎ ((o ≢ i) × (nth (set e.ext_cache o q) i ≡ nth e.ext_cache i))
      there i = slot e.ext_cache o q i lt
