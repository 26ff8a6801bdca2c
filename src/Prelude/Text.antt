-- ===== src/Prelude/Text.antt =====
-- C strings as lists of character codes without the terminator, and the functions of <ctype.h>,
-- <string.h>, <stdlib.h> and <stdio.h> that the program calls, in the C locale.
pub mod Numbers
pub mod Words
use Prim.Native.Nat.{ℕ, zero, suc, ◌+◌, ◌-◌, ◌*◌, ◌/◌, ◌%◌, ◌^◌, ◌<◌, ◌≤◌}
use Prim.Native.Char.{code}
use Prim.Native.String.{String}
use mathlib.Core.Path.{◌≡◌, refl, ap, ◌∙◌}
use mathlib.Core.Bool.{Bool, true, false, not, ◌&&◌, ◌||◌}
use mathlib.Core.List.{List, [], ◌∷◌, ◌++◌}
use native.Mathlib.Omega.{arith}
use power_monitor.Prelude.Tests.{ltb, leb, ◌==◌, if◌then◌else◌, Bool-cases, ==→eq}
use power_monitor.Prelude.Lists.{length}

abbrev pub codes : String → List ℕ
codes String.[] = []
codes (String.◌∷◌ c s) = code c ∷ codes s

-- `isspace`
abbrev pub is_space : ℕ → Bool
is_space c = c == 32 || leb 9 c && leb c 13

-- `isdigit`
abbrev pub is_digit : ℕ → Bool
is_digit c = leb 48 c && leb c 57

-- `strncmp(a, b, n) == 0`
unfoldable pub strncmp_eq : List ℕ → List ℕ → ℕ → Bool
strncmp_eq a b zero = true
strncmp_eq [] [] (suc n) = true
strncmp_eq [] (y ∷ b) (suc n) = false
strncmp_eq (x ∷ a) [] (suc n) = false
strncmp_eq (x ∷ a) (y ∷ b) (suc n) = x == y && strncmp_eq a b n

-- Skips white space; the terminator is none.
unfoldable pub skip_space : List ℕ → List ℕ
skip_space [] = []
skip_space (c ∷ s) = if is_space c then skip_space s else c ∷ s

-- Skips to the next white space or the terminator.
unfoldable pub skip_chars : List ℕ → List ℕ
skip_chars [] = []
skip_chars (c ∷ s) = if is_space c then c ∷ s else skip_chars s

-- The digits of `n` in front of `acc`, on fuel for the number of digits.
unfoldable pub digits_onto : ℕ → ℕ → List ℕ → List ℕ
digits_onto zero n acc = acc
digits_onto (suc fuel) n acc =
    let rest = digits_onto fuel (n / 10) ((48 + n % 10) ∷ acc) in
    if ltb n 10 then (48 + n) ∷ acc else rest

-- `%lu` of a 32-bit number, which has ten digits at most.
unfoldable pub format_unsigned : ℕ → List ℕ
format_unsigned n = digits_onto 10 n []

-- `%ld` of the 32-bit number that a bit pattern stands for.
unfoldable pub format_signed : ℕ → List ℕ
format_signed w = if ltb w (2 ^ 31) then format_unsigned w else 45 ∷ format_unsigned (2 ^ 32 - w)

unfoldable pub hex_digit : ℕ → ℕ
hex_digit n = if ltb n 10 then 48 + n else 55 + n

-- `%08lX`: `n` hexadecimal digits of the low bits of a number.
unfoldable pub format_hex : ℕ → ℕ → List ℕ
format_hex zero v = []
format_hex (suc n) v = format_hex n (v / 16) ++ (hex_digit (v % 16) ∷ [])

-- The number that the digits at the front spell behind `n`.
unfoldable pub scan_digits : ℕ → List ℕ → ℕ
scan_digits n [] = n
scan_digits n (c ∷ s) = if is_digit c then scan_digits (n * 10 + (c - 48)) s else n

-- A number with its sign, as `strtol` reads it.
pub data Signed : Type 0 where
  plus minus : ℕ → Signed

unfoldable pub scan_sign : List ℕ → Signed
scan_sign [] = plus 0
scan_sign (c ∷ s) =
    if c == 45
    then minus (scan_digits 0 s)
    else if c == 43
    then plus (scan_digits 0 s)
    else plus (scan_digits 0 (c ∷ s))

-- The number that stands at the front of a text, of any size.
unfoldable pub number_value : List ℕ → Signed
unfolding skip_space scan_sign
number_value s = scan_sign (skip_space s)

-- A number that a `long` (and an `int`) of 32 bits holds.
abbrev pub FitsLong : Signed → Type 0
FitsLong (plus n) = n < 2 ^ 31
FitsLong (minus n) = n ≤ 2 ^ 31

-- `LONG_MAX` and `LONG_MIN` for the numbers beyond them, as `strtol` has it.
unfoldable pub clamp_long : Signed → Signed
clamp_long (plus n) = if ltb n (2 ^ 31) then plus n else plus (2 ^ 31 - 1)
clamp_long (minus n) = if ltb (2 ^ 31) n then minus (2 ^ 31) else minus n

-- `atol`, and `atoi` where an `int` is as wide. C leaves open what they return for a number that a
-- `long` does not hold; the model takes the answer of `strtol`.
unfoldable pub atol : List ℕ → Signed
unfolding number_value clamp_long
atol s = clamp_long (number_value s)

clamp_long-FitsLong : (v : Signed) → FitsLong v → clamp_long v ≡ v
unfolding clamp_long
clamp_long-FitsLong (plus n) lt = ground arith
clamp_long-FitsLong (minus n) le = ground arith

-- A number that fits is read exactly.
pub atol_exact : (s : List ℕ) → FitsLong (number_value s) → atol s ≡ number_value s
unfolding atol
atol_exact s fits = clamp_long-FitsLong (number_value s) fits

-- The conversion to a 32-bit pattern.
unfoldable pub to_word32 : Signed → ℕ
to_word32 (plus n) = n % 2 ^ 32
to_word32 (minus n) = (2 ^ 32 - n % 2 ^ 32) % 2 ^ 32
