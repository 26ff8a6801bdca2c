-- ===== src/Prelude/Text/Words.antt =====
-- `strncmp` with the length of its first argument tests for a prefix; skipping splits a text.
use Prim.Native.Nat.{ℕ}
use mathlib.Core.Path.{◌≡◌, refl, ap₂}
use mathlib.Core.Bool.{true}
use mathlib.Core.List.{List, [], ◌∷◌, ◌++◌}
use native.Mathlib.Omega.{arith}
use power_monitor.Prelude.Tests.{==_refl}
use power_monitor.Prelude.Lists.{length}
use power_monitor.Prelude.Text.{strncmp_eq}

-- The text begins with the word.
pub strncmp_eq-prefix :
    (word text : List ℕ)
    → strncmp_eq word text (length word) ≡ true
    → (rest : List ℕ) × (text ≡ word ++ rest)
unfolding strncmp_eq
strncmp_eq-prefix [] text h = (text, refl)
strncmp_eq-prefix (x ∷ word) [] h = cc
strncmp_eq-prefix (x ∷ word) (y ∷ text) h =
    let (rest, e) = strncmp_eq-prefix word text (ground arith) in (rest, ap₂ ◌∷◌ (ground arith) e)

pub strncmp_eq-append : (word rest : List ℕ) → strncmp_eq word (word ++ rest) (length word) ≡ true
unfolding strncmp_eq
strncmp_eq-append [] rest = refl
strncmp_eq-append (x ∷ word) rest = rw (==_refl x) (strncmp_eq-append word rest)
