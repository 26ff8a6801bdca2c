-- ===== src/Firmware/Eeprom/Trace.antt =====
-- Sequences of calls: the cache over the flash answers as the flat memory does, and a flush makes
-- its contents survive a restart.
use power_monitor.Prelude.{
  ℕ, zero, suc, ◌/◌, ◌%◌, ◌≤◌, ◌<◌, ◌≡◌, refl, ap, ◌∙◌, List, [], ◌∷◌, length, get_or, replicate,
  length-replicate, arith,
}
use mathlib.Core.Path.{ap₂}
use power_monitor.Firmware.Flash.{DfToken, FlashDriver}
use power_monitor.Firmware.Eeprom.{blank_page, CachePage, Eeprom, init, cache_check, cache_flush}
use power_monitor.Firmware.Eeprom.Lookup.{nth}
use power_monitor.Firmware.Eeprom.Coherent.{Holds}
use power_monitor.Firmware.Eeprom.Memory.{Memory, byte_at, store}
use power_monitor.Firmware.Eeprom.Bytes.{read1, write1}
use power_monitor.Firmware.Eeprom.Refine.{read1-Returns, write1-store}
use power_monitor.Firmware.Eeprom.Flush.{cache_check-Checked, cache_flush-stores}

-- The calls of a client, with the 10 ms tick of the main loop among them.
pub data Call : Type 0 where
  read : ℕ → Call
  write : ℕ → ℕ → Call
  tick : Call
  flush : Call

-- The address of a call lies in the pages of the token.
abbrev pub InRange : ℕ → List Call → Type 0
InRange size [] = Unit
InRange size (read a ∷ cs) = (a / 512 < size) × InRange size cs
InRange size (write a v ∷ cs) = (a / 512 < size) × InRange size cs
InRange size (tick ∷ cs) = InRange size cs
InRange size (flush ∷ cs) = InRange size cs

-- What the reads return, in the memory.
pub run_memory : List Call → Memory → List ℕ × Memory
run_memory [] m = ([], m)
run_memory (read a ∷ cs) m = let (out, m') = run_memory cs m in (byte_at m a ∷ out, m')
run_memory (write a v ∷ cs) m = run_memory cs (store m a v)
run_memory (tick ∷ cs) m = run_memory cs m
run_memory (flush ∷ cs) m = run_memory cs m

module _ (d : FlashDriver) where
  -- What the reads return, in the cache.
  pub run : List Call → Eeprom d → List ℕ × Eeprom d
  run [] e = ([], e)
  run (read a ∷ cs) e = let (b, e₁) = read1 d e a in let (out, e₂) = run cs e₁ in (b ∷ out, e₂)
  run (write a v ∷ cs) e = run cs (write1 d e a v)
  run (tick ∷ cs) e = run cs (cache_check d e).1
  run (flush ∷ cs) e = run cs (cache_flush d e).1

  -- From a state that holds a memory, any sequence of reads, writes, ticks and flushes at addresses
  -- in the pages of the token returns the bytes that the flat memory returns, leaves a state that
  -- holds the memory of the same sequence, and keeps the token.
  pub run_refines :
      (cs : List Call) (e : Eeprom d) (m : Memory)
      → InRange e.token.size cs
      → Holds d e m
      → ((run cs e).0 ≡ (run_memory cs m).0)
        × Holds d (run cs e).1 (run_memory cs m).1
        × ((run cs e).1.token ≡ e.token)
  unfolding run run_memory
  run_refines [] e m ok h = (refl, h, refl)
  run_refines (read a ∷ cs) e m (inside, ok) h =
      let r = read1-Returns d e m a inside h in
      let (out, holds, token) = run_refines cs (read1 d e a).1 m (rw r.token ok) r.holds in
      (ap₂ ◌∷◌ r.value out, holds, token ∙ r.token)
  run_refines (write a v ∷ cs) e m (inside, ok) h =
      let (h', same) = write1-store d e m a v inside h in
      let (out, holds, token) = run_refines cs (write1 d e a v) (store m a v) (rw same ok) h' in
      (out, holds, token ∙ same)
  run_refines (tick ∷ cs) e m ok h =
      let c = cache_check-Checked d e m h in
      let (out, holds, token) = run_refines cs (cache_check d e).1 m (rw c.token ok) c.holds in
      (out, holds, token ∙ c.token)
  run_refines (flush ∷ cs) e m ok h =
      let (done, h', stored, same) = cache_flush-stores d e m h in
      let (out, holds, token) = run_refines cs (cache_flush d e).1 m (rw same ok) h' in
      (out, holds, token ∙ same)

  nth-replicate : (n i : ℕ) → nth (replicate n blank_page) i ≡ blank_page
  nth-replicate zero i = refl
  nth-replicate (suc n) zero = refl
  nth-replicate (suc n) (suc i) = nth-replicate n i

  -- No slot of a fresh cache holds a page of a token.
  nth-replicate_page : (n i : ℕ) → (nth (replicate n blank_page) i).page ≡ 0xFFFF
  unfolding blank_page
  nth-replicate_page n i = ap (λ (p : CachePage). p.page) (nth-replicate n i)

  nth-replicate_buf : (n i : ℕ) → length (nth (replicate n blank_page) i).buf ≡ 512
  unfolding blank_page
  nth-replicate_buf n i =
      ap (λ (p : CachePage). length p.buf) (nth-replicate n i) ∙ length-replicate {A = ℕ} 512 0xFF

  -- After `EE_Init` the state holds the pages of the flash, if there is a page of cache.
  pub init-Holds :
      (flash : d.State) (token : DfToken) (cache_pages : ℕ)
      → d.Fits token
      → token.size ≤ 0xFFFF
      → 0 < cache_pages
      → Holds d (init d flash token cache_pages) (d.page_at flash token)
  unfolding init
  init-Holds flash token n fits small pos = record {
    fits = fits;
    small = small;
    pages = omega (arith, length-replicate n blank_page);
    bytes = λ p inside. d.length-page_at flash token p;
    sized = λ i lt. nth-replicate_buf n i;
    current = λ i lt inside. absurd (omega (arith, nth-replicate_page n i));
    unique = λ i j li lj same inside. absurd (omega (arith, nth-replicate_page n i));
    stored = λ p inside clean. refl;
  }

  -- From a state that holds a memory, `EE_Cache_Flush` followed by `EE_Init` with at least one page
  -- over the flash that it left gives a state in which `EE_Read1` of any address in the pages of
  -- the token returns the byte of that memory.
  pub restart-Holds :
      (e : Eeprom d) (m : Memory) (cache_pages addr : ℕ)
      → 0 < cache_pages
      → addr / 512 < e.token.size
      → Holds d e m
      → (read1 d (init d (cache_flush d e).1.flash e.token cache_pages) addr).0 ≡ byte_at m addr
  unfolding init byte_at
  restart-Holds e m n addr pos inside h =
      let (done, h', stored, token) = cache_flush-stores d e m h in
      let flash = (cache_flush d e).1.flash in
      let fresh = init-Holds flash e.token n h.fits h.small pos in
      let r =
        read1-Returns d (init d flash e.token n) (d.page_at flash e.token) addr inside fresh in
      r.value
      ∙ ap (λ (b : List ℕ). get_or b (addr % 512) 0) ((rw token at stored) (addr / 512) inside)
