-- ===== src/Firmware/UartBuffer/Ring.antt =====
-- A ring of 256 bytes with wrapping 8-bit indices, as a queue.
use power_monitor.Prelude.{
  ℕ, suc, ◌+◌, ◌-◌, ◌%◌, ◌<◌, ◌≡◌, ◌≢◌, ap, ◌∙◌, List, [], ◌∷◌, ◌++◌, length, get_or, set, values,
  length-values, values_congr, values_snoc, get_or-set_self, get_or-set_ne, arith,
}
use mathlib.Core.Path.{ap₂}

-- The number of bytes between two indices, going round.
abbrev pub fill_level : ℕ → ℕ → ℕ
fill_level first last = (last + 256 - first) % 256

-- The bytes from index `first` up to `last`, oldest first.
unfoldable pub window : List ℕ → ℕ → ℕ → List ℕ
window buf first last = values (λ i. get_or buf (i % 256) 0) first (fill_level first last)

pub length-window :
    (buf : List ℕ) (first last : ℕ) → length (window buf first last) ≡ fill_level first last
unfolding window
length-window buf first last = length-values _ first (fill_level first last)

-- A write at `last` puts the byte at the end, while fewer than 255 bytes stand there.
pub window_push :
    (buf : List ℕ) (first last c : ℕ)
    → length buf ≡ 256
    → first < 256
    → last < 256
    → fill_level first last < 255
    → window (set buf last c) first ((last + 1) % 256) ≡ window buf first last ++ (c ∷ [])
unfolding window
window_push buf first last c len hf hl room =
    ap (values g' first) {x = fill_level first ((last + 1) % 256)} {y = suc n} (omega arith)
    ∙ values_snoc g' first n
    ∙ ap₂ (λ (xs : List ℕ) (x : ℕ). xs ++ (x ∷ []))
        (values_congr g' g first first n
          (λ i lt. get_or-set_ne buf last ((first + i) % 256) c 0 (omega arith)))
        (ap (λ (k : ℕ). get_or (set buf last c) k 0) {x = (first + n) % 256} {y = last}
            (omega arith)
          ∙ get_or-set_self buf last c 0 (omega arith))
  where
    n : ℕ
    n = fill_level first last

    g : ℕ → ℕ
    g i = get_or buf (i % 256) 0

    g' : ℕ → ℕ
    g' i = get_or (set buf last c) (i % 256) 0

pub window_empty : (buf : List ℕ) (first : ℕ) → first < 256 → window buf first first ≡ []
unfolding window values
window_empty buf first h =
    ap (values (λ i. get_or buf (i % 256) 0) first) {x = fill_level first first} {y = 0}
      (omega arith)

-- A full ring that takes one more byte reads as empty.
pub window_overflow :
    (buf : List ℕ) (first last : ℕ)
    → first < 256
    → last < 256
    → fill_level first last ≡ 255
    → window buf first ((last + 1) % 256) ≡ []
unfolding window values
window_overflow buf first last hf hl full =
    ap (values (λ i. get_or buf (i % 256) 0) first) {x = fill_level first ((last + 1) % 256)}
      {y = 0} (omega arith)

-- The oldest byte comes off the front.
pub window_pop :
    (buf : List ℕ) (first last : ℕ)
    → first < 256
    → last < 256
    → first ≢ last
    → window buf first last ≡ get_or buf first 0 ∷ window buf ((first + 1) % 256) last
unfolding window values
window_pop buf first last hf hl ne =
    ap (values g first) {x = fill_level first last} {y = suc n} (omega arith)
    ∙ ap₂ ◌∷◌ (ap (λ (k : ℕ). get_or buf k 0) (omega arith)) (
        values_congr g g (first + 1) ((first + 1) % 256) n
          (λ i lt. ap (λ (k : ℕ). get_or buf k 0) (omega arith)))
  where
    n : ℕ
    n = fill_level ((first + 1) % 256) last

    g : ℕ → ℕ
    g i = get_or buf (i % 256) 0
