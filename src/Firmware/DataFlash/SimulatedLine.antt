-- ===== src/Firmware/DataFlash/SimulatedLine.antt =====
-- The simulated chip on the select line of the flash is left alone by what happens on other lines.
use Prim.Native.Nat.{bit_and}
use power_monitor.Prelude.{
  ℕ, ◌≡◌, ◌≢◌, refl, sym, ap, ◌∙◌, inl, inr, Bool-cases, Option-cases, ==→eq, ==_of_ne, ◌==◌, arith,
}
use mathlib.Core.Path.{subst}
use power_monitor.Firmware.DataFlash.Simulated.{chip, chip-content}
use power_monitor.Firmware.DataFlash.SimulatedBus.{Bus, board, polls, put, shift, fall, rise}
use power_monitor.Firmware.DataFlash.Wired.{at, Unselected}

other_pin : (pin : ℕ) → bit_and pin 0x20000 ≡ 0 → pin ≢ 0x20000
other_pin pin apart e =
    let clash : ◌≡◌ {A = ℕ} 0x20000 0 = subst (λ p. bit_and p 0x20000 ≡ 0) e apart in
    absurd (omega arith)

shift-content : (s : Bus) (v : ℕ) → (shift s v).1.content ≡ s.content
shift-content s v = elim (Option-cases s.selected) [
  | inl free ↦ rw (free, shift) refl
  | inr (q, e) ↦ rw (e, shift) refl
]

rise-content :
    (s : Bus) (pin : ℕ) → bit_and pin 0x20000 ≡ 0 → (rise s pin).content 0x20000 ≡ s.content 0x20000
unfolding put
rise-content s pin apart = elim (Option-cases s.selected) [
  | inl free ↦ rw (free, rise) refl
  | inr (q, e) ↦ elim (Bool-cases (q == pin)) [
    | inl here ↦
        rw
          (
            e,
            here,
            ==_of_ne 0x20000 q (λ at. other_pin pin apart (sym (==→eq q pin here) ∙ sym at)),
            rise,
          )
          refl
    | inr other ↦ rw (e, other, rise) refl
  ]
]

same_content :
    (s s' : Bus) (content : ℕ → ℕ → ℕ)
    → s'.content 0x20000 ≡ s.content 0x20000
    → chip.content (at board polls chip 0x20000 s) ≡ content
    → chip.content (at board polls chip 0x20000 s') ≡ content
same_content s s' content same k =
    chip-content (at board polls chip 0x20000 s')
    ∙ same
    ∙ sym (chip-content (at board polls chip 0x20000 s))
    ∙ k

pub unselected : Unselected board polls chip 0x20000
unselected content = record {
  select = λ s k. k;
  deselect = λ s k. k;
  transfer = λ s v. same_content s (shift s v).1 content (ap (λ c. c 0x20000) (shift-content s v));
  codr = λ s pin apart. same_content s (fall s pin) content refl;
  sodr = λ s pin apart. same_content s (rise s pin) content (rise-content s pin apart);
  miso = λ s. same_content s (board.miso_high s).1 content refl;
}
