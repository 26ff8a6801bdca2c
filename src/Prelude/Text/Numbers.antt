-- ===== src/Prelude/Text/Numbers.antt =====
-- A number that `%lu` prints is what `atoi` reads back.
use Prim.Native.Nat.{ℕ, zero, suc, ◌+◌, ◌*◌, ◌/◌, ◌%◌, ◌^◌, ◌<◌}
use Prim.Native.Nat.pow
use mathlib.Core.Path.{◌≡◌, refl, sym, ap, ◌∙◌, subst}
use mathlib.Core.Logic.{inl, inr}
use mathlib.Core.Bool.{true, false}
use mathlib.Core.List.{List, [], ◌∷◌, ◌++◌}
use native.Mathlib.Omega.{arith}
use power_monitor.Prelude.Tests.{ltb, ◌==◌, Bool-cases}
use power_monitor.Prelude.Text.{
  is_space, is_digit, digits_onto, format_unsigned, scan_digits, plus, atol, number_value, FitsLong,
  atol_exact,
}

is_digit_of : (d : ℕ) → d < 10 → is_digit (48 + d) ≡ true
is_digit_of d h = ground arith

scan_digits-cons :
    (k d : ℕ) (s : List ℕ) → d < 10 → scan_digits k ((48 + d) ∷ s) ≡ scan_digits (k * 10 + d) s
unfolding scan_digits
scan_digits-cons k d s h = rw (is_digit_of d h) (ap (λ (n : ℕ). scan_digits n s) (omega arith))

-- The digits that are printed spell the number.
scan_digits-digits_onto :
    (fuel n : ℕ) (acc : List ℕ)
    → n < 10 ^ fuel
    → scan_digits 0 (digits_onto fuel n acc) ≡ scan_digits n acc
unfolding digits_onto
scan_digits-digits_onto zero zero acc h = refl
scan_digits-digits_onto zero (suc n) acc h = absurd (omega arith)
scan_digits-digits_onto (suc fuel) n acc h = elim (Bool-cases (ltb n 10)) [
  | inl small ↦ rw small (
      scan_digits-cons 0 n acc (ground arith)
      ∙ ap (λ (k : ℕ). scan_digits k acc) {x = 0 * 10 + n} {y = n} (omega arith))
  | inr large ↦ rw large (
      scan_digits-digits_onto fuel (n / 10) ((48 + n % 10) ∷ acc) (omega (arith, pow.suc 10 fuel))
      ∙ scan_digits-cons (n / 10) (n % 10) acc (omega arith)
      ∙ ap (λ (k : ℕ). scan_digits k acc) {x = n / 10 * 10 + n % 10} {y = n} (omega arith))
]

-- The text begins with a digit, so nothing is skipped and there is no sign.
abbrev StartsWithDigit : List ℕ → Type 0
StartsWithDigit [] = ⊥
StartsWithDigit (c ∷ s) = is_digit c ≡ true

digits_onto-StartsWithDigit :
    (fuel n : ℕ) (acc : List ℕ)
    → n < 10 ^ fuel
    → 0 < fuel
    → StartsWithDigit (digits_onto fuel n acc)
unfolding digits_onto
digits_onto-StartsWithDigit zero n acc h pos = absurd (omega arith)
digits_onto-StartsWithDigit (suc fuel) n acc h pos = elim (Bool-cases (ltb n 10)) [
  | inl small ↦ rw small (is_digit_of n (ground arith))
  | inr large ↦ rw large (
      digits_onto-StartsWithDigit fuel (n / 10) ((48 + n % 10) ∷ acc)
        (omega (arith, pow.suc 10 fuel)) (positive fuel n h (ground arith)))
]
  where
    positive : (fuel n : ℕ) → n < 10 ^ suc fuel → 10 < suc n → 0 < fuel
    positive zero n h lt = absurd (omega arith)
    positive (suc fuel) n h lt = omega arith

no_space : (c : ℕ) → is_digit c ≡ true → is_space c ≡ false
no_space c h = ground arith

no_minus : (c : ℕ) → is_digit c ≡ true → (c == 45) ≡ false
no_minus c h = ground arith

no_plus : (c : ℕ) → is_digit c ≡ true → (c == 43) ≡ false
no_plus c h = ground arith

number_value_digits : (s : List ℕ) → StartsWithDigit s → number_value s ≡ plus (scan_digits 0 s)
unfolding number_value
number_value_digits [] h = absurd h
number_value_digits (c ∷ s) h = rw (no_space c h, no_minus c h, no_plus c h)

digits_onto-append :
    (fuel n : ℕ) (acc rest : List ℕ)
    → digits_onto fuel n acc ++ rest ≡ digits_onto fuel n (acc ++ rest)
unfolding digits_onto
digits_onto-append zero n acc rest = refl
digits_onto-append (suc fuel) n acc rest = elim (Bool-cases (ltb n 10)) [
  | inl small ↦ rw small
  | inr large ↦ rw large (digits_onto-append fuel (n / 10) ((48 + n % 10) ∷ acc) rest)
]

-- What `%lu` prints of a number below 2^31 reads back as that number, whatever stands behind it that
-- is no digit.
pub atol-format_unsigned :
    (n : ℕ) (rest : List ℕ)
    → n < 2 ^ 31
    → scan_digits n rest ≡ n
    → atol (format_unsigned n ++ rest) ≡ plus n
unfolding format_unsigned
atol-format_unsigned n rest small stop =
    let text = format_unsigned n ++ rest in
    let value : number_value text ≡ plus n = rw (digits_onto-append 10 n [] rest) (
      number_value_digits (digits_onto 10 n rest)
        (digits_onto-StartsWithDigit 10 n rest (omega arith) (omega arith))
      ∙ ap plus (scan_digits-digits_onto 10 n rest (omega arith) ∙ stop)) in
    atol_exact text (subst FitsLong (sym value) small) ∙ value
