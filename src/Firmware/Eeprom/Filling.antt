-- ===== src/Firmware/Eeprom/Filling.antt =====
-- `ExtCache_Fill` brings a page into the cache and changes nothing that the memory holds.
use power_monitor.Prelude.{
  ℕ, ◌<◌, ◌≡◌, ◌≢◌, ◌⊎◌, inl, inr, refl, sym, ap, ◌∙◌, false, List, length, set, length-set,
  get_or-set_self, arith, Bool-cases, ==_refl, ==_of_ne,
}
use native.Mathlib.Decide.{ℕ_discrete, dec_lt}
use power_monitor.Firmware.Flash.{buffer2, FlashDriver}
use power_monitor.Firmware.Eeprom.{
  CachePage, blank_page, age_cache, Found, hit, miss, scan, Eeprom, page_ptr, replace_page, fill,
  flush_time,
}
use power_monitor.Firmware.Eeprom.Lookup.{
  nth, scan-hit, scan_evicts_oldest, length-age_cache, age_cache-SamePage,
}
use power_monitor.Firmware.Eeprom.Coherent.{Holds, Holds-SamePage, Holds-install, nth-set_same}

pub Found-cases : (f : Found) → ((i : ℕ) × (f ≡ hit i)) ⊎ ((i : ℕ) × (f ≡ miss i))
Found-cases (hit i) = inl (i, refl)
Found-cases (miss i) = inr (i, refl)

module _ (d : FlashDriver) where
  -- The program cycle behind a read: the page that was dirty is stored, the others stay.
  page_at_written :
      (e : Eeprom d) (m : ℕ → List ℕ) (o page p : ℕ)
      → o < length e.ext_cache
      → p < e.token.size
      → ((i : ℕ)
          → i < length e.ext_cache
          → i ≢ o
          → (page_ptr d e i).page ≡ p
          → (page_ptr d e i).dirty ≡ false)
      → Holds d e m
      → let old = page_ptr d e o in
        let s = d.buffer_write e.flash e.token old.page 0 512 buffer2 old.buf in
        let s' = (d.read_page_direct s e.token page 0 512 old.buf).1 in
        d.page_at (d.write_buffer_to_flash s' e.token old.page buffer2) e.token p ≡ m p
  page_at_written e m o page p lt small clean h = elim (ℕ_discrete old.page p) [
    | yes here ↦
        let inside : old.page < e.token.size = omega arith in
        d.program_page s' e.token old.page buffer2 p h.fits inside small
        ∙ rw (here, ==_refl p)
            (d.read_keeps_held s e.token page old.buf buffer2
              ∙ d.buffer_write_held e.flash e.token old.page buffer2 old.buf h.fits inside
                  (h.sized o lt)
              ∙ h.current o lt inside
              ∙ ap m here)
    | no ne ↦
        let kept : d.page_at s' e.token p ≡ m p =
          d.read_keeps s e.token page old.buf p
          ∙ d.buffer_write_keeps e.flash e.token old.page buffer2 old.buf p
          ∙ h.stored p small (λ i li same. elim (ℕ_discrete i o) [
            | yes eq ↦ absurd (ne (ap (λ k. (page_ptr d e k).page) (sym eq) ∙ same))
            | no other ↦ clean i li other same
          ]) in
        elim (dec_lt old.page e.token.size) [
          | yes inside ↦
              d.program_page s' e.token old.page buffer2 p h.fits inside small
              ∙ rw (==_of_ne old.page p ne) kept
          | no outside ↦
              ap (λ t. d.page_at t e.token p)
                (d.program_refused s' e.token old.page buffer2 (omega arith))
              ∙ kept
        ]
  ]
    where
      old : CachePage
      old = page_ptr d e o

      s : d.State
      s = d.buffer_write e.flash e.token old.page 0 512 buffer2 old.buf

      s' : d.State
      s' = (d.read_page_direct s e.token page 0 512 old.buf).1

  replace_page-Holds :
      (e : Eeprom d) (m : ℕ → List ℕ) (o page : ℕ)
      → o < length e.ext_cache
      → page < e.token.size
      → ((i : ℕ) → i < length e.ext_cache → (page_ptr d e i).page ≢ page)
      → Holds d e m
      → Holds d (replace_page d e o page) m
  unfolding replace_page
  replace_page-Holds e m o page lt inside absent h = elim (Bool-cases old.dirty) [
    | inl dirty ↦ rw dirty (
        Holds-install d e m o page flush_time _ _ lt inside absent (len s) (value s ∙ kept ∙ same)
          (λ p small clean. page_at_written e m o page p lt small clean h) h)
    | inr clean ↦ rw clean (
        Holds-install d e m o page e.flush_delay _ _ lt inside absent (len e.flash)
          (value e.flash ∙ same)
          (λ p small others.
            d.read_keeps e.flash e.token page old.buf p
            ∙ h.stored p small (λ i li here. elim (ℕ_discrete i o) [
              | yes eq ↦ rw eq clean
              | no other ↦ others i li other here
            ]))
          h)
  ]
    where
      old : CachePage
      old = page_ptr d e o

      s : d.State
      s = d.buffer_write e.flash e.token old.page 0 512 buffer2 old.buf

      value :
          (t : d.State)
          → (d.read_page_direct t e.token page 0 512 old.buf).0 ≡ d.page_at t e.token page
      value t = d.read_page t e.token page old.buf h.fits inside (h.sized o lt)

      len : (t : d.State) → length (d.read_page_direct t e.token page 0 512 old.buf).0 ≡ 512
      len t = ap length (value t) ∙ d.length-page_at t e.token page

      kept : d.page_at s e.token page ≡ d.page_at e.flash e.token page
      kept = d.buffer_write_keeps e.flash e.token old.page buffer2 old.buf page

      same : d.page_at e.flash e.token page ≡ m page
      same = h.stored page inside (λ i li here. absurd (absent i li here))

  -- The memory stays, and the index is that of a slot which holds the page.
  pub record Filled (e : Eeprom d) (m : ℕ → List ℕ) (page : ℕ) (r : ℕ × Eeprom d) : Type 0 where
    pub holds : Holds d r.1 m
    pub inside : r.0 < length r.1.ext_cache
    pub here : (page_ptr d r.1 r.0).page ≡ page
    pub token : r.1.token ≡ e.token
    pub slots : length r.1.ext_cache ≡ length e.ext_cache

  -- The slot that the page took.
  record Replaced (e : Eeprom d) (o page : ℕ) (e' : Eeprom d) : Type 0 where
    token : e'.token ≡ e.token
    slots : length e'.ext_cache ≡ length e.ext_cache
    here : (page_ptr d e' o).page ≡ page

  replace_page-Replaced :
      (e : Eeprom d) (o page : ℕ)
      → o < length e.ext_cache
      → Replaced e o page (replace_page d e o page)
  unfolding replace_page
  replace_page-Replaced e o page lt = elim (Bool-cases (page_ptr d e o).dirty) [
    | inl dirty ↦ rw dirty (record {
      token = refl;
      slots = length-set e.ext_cache o _;
      here = ap (λ (p : CachePage). p.page) (get_or-set_self e.ext_cache o _ blank_page lt);
    })
    | inr clean ↦ rw clean (record {
      token = refl;
      slots = length-set e.ext_cache o _;
      here = ap (λ (p : CachePage). p.page) (get_or-set_self e.ext_cache o _ blank_page lt);
    })
  ]

  -- From a state that holds a memory, `ExtCache_Fill` of a page of the token returns an index
  -- inside the cache whose slot has that page, and keeps the memory, the token and the number of
  -- slots.
  pub fill-Filled :
      (e : Eeprom d) (m : ℕ → List ℕ) (page : ℕ)
      → page < e.token.size
      → Holds d e m
      → Filled e m page (fill d e page)
  unfolding fill
  fill-Filled e m page small h = elim (Found-cases (scan ps page 0 0 (nth ps 0).count)) [
    | inl (i, eq) ↦
        let (j, at0, inside, same) = scan-hit ps page 0 0 (nth ps 0).count i eq in
        let e' : i ≡ j = omega arith in
        let lt : i < length ps = omega arith in
        let q : CachePage = record (nth ps i) { count = 0 } in
        rw (eq, fill)
          (record {
            holds =
                Holds-SamePage d aged m (set ps i q) (length-set ps i q)
                  (nth-set_same d ps i q lt (record { page = refl; dirty = refl; buf = refl }))
                  aged-Holds;
            inside = omega (arith, length-set ps i q);
            here =
                ap (λ (p : CachePage). p.page) (get_or-set_self ps i q blank_page lt)
                ∙ ap (λ k. (nth ps k).page) e'
                ∙ same;
            token = refl;
            slots = length-set ps i q ∙ length-age_cache e.ext_cache;
          })
    | inr (o, eq) ↦
        let (lt, rest) = scan_evicts_oldest ps page o aged-Holds.pages eq in
        let r = replace_page-Replaced aged o page lt in
        rw (eq, fill)
          (record {
            holds = replace_page-Holds aged m o page lt small (λ i li. (rest i li).0) aged-Holds;
            inside = omega (arith, r.slots);
            here = r.here;
            token = r.token;
            slots = r.slots ∙ length-age_cache e.ext_cache;
          })
  ]
    where
      ps : List CachePage
      ps = age_cache e.ext_cache

      aged : Eeprom d
      aged = record e { ext_cache = ps }

      aged-Holds : Holds d aged m
      aged-Holds =
          Holds-SamePage d e m ps (length-age_cache e.ext_cache) (age_cache-SamePage e.ext_cache) h
