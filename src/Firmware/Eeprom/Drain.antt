-- ===== src/Firmware/Eeprom/Drain.antt =====
-- firmware/PowerMon/src/eeprom.c: the calls of `EE_Cache_Check` that the main loop makes every 10 ms.
use power_monitor.Prelude.{ℕ, zero, suc, ◌≤◌, ◌≡◌, inl, inr, refl, sym, ap, ◌∙◌, arith}
use mathlib.Core.Path.{subst}
use power_monitor.Firmware.Flash.{FlashDriver}
use power_monitor.Firmware.Eeprom.{Eeprom, cache_check}
use power_monitor.Firmware.Eeprom.Coherent.{Holds}
use power_monitor.Firmware.Eeprom.Flush.{dirty_count, Stored, cache_check-Checked}
use power_monitor.Firmware.Eeprom.Memory.{Memory}

module _ (d : FlashDriver) where
  unfoldable pub checks : ℕ → Eeprom d → Eeprom d
  checks zero e = e
  checks (suc n) e = checks n (cache_check d e).1

  idle : (n : ℕ) (e : Eeprom d) → (cache_check d e).1 ≡ e → checks n e ≡ e
  unfolding checks
  idle zero e same = refl
  idle (suc n) e same = ap (checks n) same ∙ idle n e same

  -- From a state that holds a memory, as many calls of `EE_Cache_Check` as there are dirty pages,
  -- or more, leave every page of the token in the flash as the memory has it, and keep the memory
  -- and the token.
  pub checks-stores :
      (n : ℕ) (e : Eeprom d) (m : Memory)
      → Holds d e m
      → dirty_count e.ext_cache ≤ n
      → Holds d (checks n e) m × Stored d (checks n e) m × ((checks n e).token ≡ e.token)
  unfolding checks
  checks-stores zero e m h few = elim ((cache_check-Checked d e m h).progress) [
    | inl (found, fewer) ↦ absurd (omega (arith, fewer, few))
    | inr (none_left, stored, same) ↦ (h, stored, refl)
  ]
  checks-stores (suc n) e m h few =
      let c = cache_check-Checked d e m h in
      elim (c.progress) [
        | inl (found, fewer) ↦
            let (holds, stored, token) =
              checks-stores n (cache_check d e).1 m c.holds (omega (arith, fewer, few)) in
            (holds, stored, token ∙ c.token)
        | inr (none_left, stored, same) ↦
            subst (λ (e' : Eeprom d). Holds d e' m × Stored d e' m × (e'.token ≡ e.token))
              (sym (ap (checks n) same ∙ idle n e same)) (h, stored, refl)
      ]
