-- ===== src/Firmware/Eeprom/Flush.antt =====
-- `EE_Cache_Check` writes one dirty page back, `EE_Cache_Flush` all of them.
use power_monitor.Prelude.{
  ℕ, zero, suc, ◌+◌, ◌≤◌, ◌<◌, ◌≡◌, ◌≢◌, ◌⊎◌, inl, inr, refl, sym, ap, ◌∙◌, Bool, true, false, List,
  [], ◌∷◌, length, set, length-set, arith, Bool-cases, ==_refl, ==_of_ne, if◌then◌else◌,
}
use native.Mathlib.Decide.{ℕ_discrete, dec_lt}
use power_monitor.Firmware.Flash.{buffer2, FlashDriver}
use power_monitor.Firmware.Eeprom.{
  CachePage, hit, miss, Eeprom, page_ptr, first_dirty, cache_check, flush_loop, cache_flush,
}
use power_monitor.Firmware.Eeprom.Lookup.{nth}
use power_monitor.Firmware.Eeprom.Coherent.{Holds, slot}
use power_monitor.Firmware.Eeprom.Filling.{Found-cases}
use power_monitor.Firmware.Eeprom.Memory.{Memory}

unfoldable pub dirty_count : List CachePage → ℕ
dirty_count [] = 0
dirty_count (p ∷ ps) = (if p.dirty then 1 else 0) + dirty_count ps

pub dirty_count-le : (ps : List CachePage) → dirty_count ps ≤ length ps
unfolding dirty_count
dirty_count-le [] = omega arith
dirty_count-le (p ∷ ps) = ground (arith, dirty_count-le ps)

-- To clean a dirty page takes one off the count.
dirty_count-set :
    (ps : List CachePage) (i : ℕ)
    → i < length ps
    → (nth ps i).dirty ≡ true
    → suc (dirty_count (set ps i (record (nth ps i) { dirty = false }))) ≡ dirty_count ps
unfolding dirty_count
dirty_count-set [] i lt h = absurd (omega arith)
dirty_count-set (p ∷ ps) zero lt h = rw h (omega arith)
dirty_count-set (p ∷ ps) (suc i) lt h = omega (arith, dirty_count-set ps i (omega arith) h)

module _ (d : FlashDriver) where
  first_dirty-hit :
      (ps : List CachePage) (i k : ℕ)
      → first_dirty d ps i ≡ hit k
      → (j : ℕ) × (k ≡ i + j) × (j < length ps) × ((nth ps j).dirty ≡ true)
  unfolding first_dirty
  first_dirty-hit [] i k h = absurd (ground arith)
  first_dirty-hit (p ∷ ps) i k h = elim (Bool-cases p.dirty) [
    | inl e ↦ (0, ground arith, omega arith, e)
    | inr e ↦
        let (j, place, inside, found) = first_dirty-hit ps (i + 1) k (rw e at h) in
        (suc j, omega arith, omega arith, found)
  ]

  first_dirty-miss :
      (ps : List CachePage) (i k : ℕ)
      → first_dirty d ps i ≡ miss k
      → (j : ℕ) → j < length ps
      → (nth ps j).dirty ≡ false
  unfolding first_dirty
  first_dirty-miss [] i k h j lt = absurd (omega arith)
  first_dirty-miss (p ∷ ps) i k h zero lt = ground arith
  first_dirty-miss (p ∷ ps) i k h (suc j) lt = elim (Bool-cases p.dirty) [
    | inl e ↦ absurd (ground arith)
    | inr e ↦ first_dirty-miss ps (i + 1) k (rw e at h) j (omega arith)
  ]

  -- Every page of the token is in the flash as the memory has it.
  abbrev pub Stored : Eeprom d → Memory → Type 0
  Stored e m = (p : ℕ) → p < e.token.size → d.page_at e.flash e.token p ≡ m p

  -- What one call of `EE_Cache_Check` does: it finds nothing to do and all is stored, or it
  -- cleans one page.
  pub record Checked (e : Eeprom d) (m : Memory) (r : Bool × Eeprom d) : Type 0 where
    pub holds : Holds d r.1 m
    pub token : r.1.token ≡ e.token
    pub slots : length r.1.ext_cache ≡ length e.ext_cache
    pub progress :
        ((r.0 ≡ true) × (suc (dirty_count r.1.ext_cache) ≡ dirty_count e.ext_cache))
        ⊎ ((r.0 ≡ false) × Stored e m × (r.1 ≡ e))

  -- The page at `i` is written back and marked as clean.
  pub Holds-clean :
      (e : Eeprom d) (m : Memory) (i : ℕ)
      → i < length e.ext_cache
      → Holds d e m
      → let p = page_ptr d e i in
        let s = d.buffer_write e.flash e.token p.page 0 512 buffer2 p.buf in
        Holds d
          (record e {
            ext_cache = set e.ext_cache i (record p { dirty = false });
            flash = d.write_buffer_to_flash s e.token p.page buffer2;
          })
          m
  Holds-clean e m i lt h = record {
    fits = h.fits;
    small = h.small;
    pages = omega (arith, same_length);
    bytes = h.bytes;
    sized = λ j lj. ap length (same j).1 ∙ h.sized j (omega (arith, same_length));
    current = λ j lj inside.
        (same j).1
        ∙ h.current j (omega (arith, same_length)) (omega (arith, (same j).0))
        ∙ ap m (sym (same j).0);
    unique = λ j k lj lk eq inside.
        h.unique j k (omega (arith, same_length)) (omega (arith, same_length))
          (sym (same j).0 ∙ eq ∙ (same k).0) (omega (arith, (same j).0));
    stored = λ q small clean. elim (ℕ_discrete p.page q) [
      | yes here ↦
          let inside : p.page < e.token.size = omega arith in
          d.program_page s e.token p.page buffer2 q h.fits inside small
          ∙ rw (here, ==_refl q)
              (d.buffer_write_held e.flash e.token p.page buffer2 p.buf h.fits inside (h.sized i lt)
                ∙ h.current i lt inside
                ∙ ap m here)
      | no ne ↦ untouched q small ne (λ j lj tag. elim (there j) [
        | inl (ej, new) ↦ absurd (ne (ap (λ k. (page_ptr d e k).page) ej ∙ tag))
        | inr (nj, old) ↦ (rw old at (clean j (omega (arith, same_length)))) tag
      ])
    ];
  }
    where
      p : CachePage
      p = page_ptr d e i

      q0 : CachePage
      q0 = record p { dirty = false }

      s : d.State
      s = d.buffer_write e.flash e.token p.page 0 512 buffer2 p.buf

      same_length : length (set e.ext_cache i q0) ≡ length e.ext_cache
      same_length = length-set e.ext_cache i q0

      there :
          (j : ℕ)
          → ((i ≡ j) × (nth (set e.ext_cache i q0) j ≡ q0))
            ⊎ ((i ≢ j) × (nth (set e.ext_cache i q0) j ≡ nth e.ext_cache j))
      there j = slot d e.ext_cache i q0 j lt

      same :
          (j : ℕ)
          → ((nth (set e.ext_cache i q0) j).page ≡ (page_ptr d e j).page)
            × ((nth (set e.ext_cache i q0) j).buf ≡ (page_ptr d e j).buf)
      same j = elim (there j) [
        | inl (ej, new) ↦
            rw new (ap (λ k. (page_ptr d e k).page) ej, ap (λ k. (page_ptr d e k).buf) ej)
        | inr (nj, old) ↦ rw old (refl, refl)
      ]

      untouched :
          (q : ℕ)
          → q < e.token.size
          → p.page ≢ q
          → ((j : ℕ)
              → j < length e.ext_cache
              → (page_ptr d e j).page ≡ q
              → (page_ptr d e j).dirty ≡ false)
          → d.page_at (d.write_buffer_to_flash s e.token p.page buffer2) e.token q ≡ m q
      untouched q small ne clean =
          let kept : d.page_at s e.token q ≡ m q =
            d.buffer_write_keeps e.flash e.token p.page buffer2 p.buf q ∙ h.stored q small clean in
          elim (dec_lt p.page e.token.size) [
            | yes inside ↦
                d.program_page s e.token p.page buffer2 q h.fits inside small
                ∙ rw (==_of_ne p.page q ne) kept
            | no outside ↦
                ap (λ t. d.page_at t e.token q)
                  (d.program_refused s e.token p.page buffer2 (omega arith))
                ∙ kept
          ]

  -- From a state that holds a memory, `EE_Cache_Check` keeps the memory, the token and the number
  -- of slots; it either reports true and leaves one dirty page less, or reports false, changes
  -- nothing, and every page of the token is in the flash.
  pub cache_check-Checked :
      (e : Eeprom d) (m : Memory) → Holds d e m → Checked e m (cache_check d e)
  unfolding cache_check
  cache_check-Checked e m h = elim (Found-cases (first_dirty d e.ext_cache 0)) [
    | inl (i, eq) ↦
        let (j, place, inside, dirty) = first_dirty-hit e.ext_cache 0 i eq in
        let e' : i ≡ j = omega arith in
        let lt : i < length e.ext_cache = omega arith in
        rw (eq, cache_check)
          (record {
            holds = Holds-clean e m i lt h;
            token = refl;
            slots = length-set e.ext_cache i _;
            progress = inl (refl, dirty_count-set e.ext_cache i lt (rw e' dirty));
          })
    | inr (k, eq) ↦
        let clean = first_dirty-miss e.ext_cache 0 k eq in
        rw (eq, cache_check)
          (record {
            holds = h;
            token = refl;
            slots = refl;
            progress = inr (refl, (λ p small. h.stored p small (λ i li same. clean i li)), refl);
          })
  ]

  flush_loop-stores :
      (fuel : ℕ) (e : Eeprom d) (m : Memory)
      → dirty_count e.ext_cache < fuel
      → Holds d e m
      → let (done, e') = flush_loop d fuel e in
        (done ≡ true) × Holds d e' m × Stored e' m × (e'.token ≡ e.token)
  unfolding flush_loop
  flush_loop-stores zero e m lt h = absurd (omega arith)
  flush_loop-stores (suc fuel) e m lt h =
      let c = cache_check-Checked e m h in
      elim c.progress [
        | inl (found, fewer) ↦
            let (done, holds, stored, token) =
              flush_loop-stores fuel (cache_check d e).1 m (omega arith) c.holds in
            rw found (done, holds, stored, token ∙ c.token)
        | inr (none_left, stored, same) ↦ rw none_left (refl, c.holds, rw same stored, c.token)
      ]

  -- From a state that holds a memory, `EE_Cache_Flush` ends by its own test, holds the same memory
  -- and token, and leaves every page of the token in the flash as the memory has it.
  pub cache_flush-stores :
      (e : Eeprom d) (m : Memory)
      → Holds d e m
      → let (done, e') = cache_flush d e in
        (done ≡ true) × Holds d e' m × Stored e' m × (e'.token ≡ e.token)
  unfolding cache_flush
  cache_flush-stores e m h =
      flush_loop-stores (suc (length e.ext_cache)) e m (omega (arith, dirty_count-le e.ext_cache)) h
