-- ===== src/Firmware/Console/Line/Typed.antt =====
-- firmware/PowerMon/src/main.c, `Run_Config`: the buffer of the line that is typed.
use power_monitor.Prelude.{
  ℕ, suc, ◌+◌, ◌<◌, ◌≡◌, ◌⊎◌, inl, inr, Bool-cases, refl, sym, ap, ◌∙◌, true, false, ◌||◌, List, [],
  ◌∷◌, ◌++◌, length, length-append, set, length-set, ltb, arith, ◌==◌,
}
use mathlib.Core.Bool.{false≢true}
use mathlib.Core.Path.{ap₂}
use mathlib.Core.List.{append_assoc}
use power_monitor.Firmware.Console.Line.{LineBuffer, store_char, c_string}

-- `MsgBuf` has its 256 bytes, at most 255 of them are in use, and no byte went behind its end.
pub record IsLine (l : LineBuffer) : Type 0 where
  pub bytes : length l.msg_buf ≡ 256
  pub size : l.size < 256
  pub inside : l.overrun ≡ false

-- What every character keeps: a write behind the end is not forgotten.
abbrev pub InsideOrNot : LineBuffer → Type 0
InsideOrNot l = (l.overrun ≡ true) ⊎ IsLine l

pub InsideOrNot-inside : (l : LineBuffer) → InsideOrNot l → l.overrun ≡ false → IsLine l
InsideOrNot-inside l (inl over) inside = absurd (false≢true (sym inside ∙ over))
InsideOrNot-inside l (inr h) inside = h

pub store_char-InsideOrNot : (l : LineBuffer) (c : ℕ) → InsideOrNot l → InsideOrNot (store_char l c)
unfolding store_char
store_char-InsideOrNot l c (inl over) = elim (Bool-cases (ltb l.size 256)) [
  | inl room ↦ rw room (inl (rw over refl))
  | inr full ↦ rw full (inl over)
]
store_char-InsideOrNot l c (inr h) =
    let room : ltb l.size 256 ≡ true = ground (arith, h.size) in
    elim (Bool-cases (l.size + 1 == 256)) [
      | inl last ↦ rw room (inl (rw (h.inside, last) refl))
      | inr more ↦ rw room (
          inr (record {
            bytes =
                length-set (set l.msg_buf l.size c) (l.size + 1) 0
                ∙ length-set l.msg_buf l.size c
                ∙ h.bytes;
            size = ground (arith, h.size, more);
            inside = rw (h.inside, more) refl;
          }))
    ]

pub clear-InsideOrNot : (l : LineBuffer) → InsideOrNot l → InsideOrNot (record l { size = 0 })
clear-InsideOrNot l (inl over) = inl over
clear-InsideOrNot l (inr h) =
    inr (record { bytes = h.bytes; size = omega arith; inside = h.inside })

-- A character that neither ends a line nor is the terminator of a C string.
pub record IsPlain (c : ℕ) : Type 0 where
  pub no_end : (c == 13 || c == 10) ≡ false
  pub not_nul : (c == 0) ≡ false

pub data ArePlain : List ℕ → Type 0 where
  empty : ArePlain []
  char : {c : ℕ} {text : List ℕ} → IsPlain c → ArePlain text → ArePlain (c ∷ text)

pub c_string-terminated :
    (text tail : List ℕ) → ArePlain text → c_string (text ++ (0 ∷ tail)) ≡ text
unfolding c_string
c_string-terminated [] tail p = refl
c_string-terminated (c ∷ text) tail (char p ps) =
    rw (p.not_nul) (ap (λ (l : List ℕ). c ∷ l) (c_string-terminated text tail ps))

-- What is typed stands at the start of the buffer, and behind it come the bytes of `tail`.
pub record Typed (l : LineBuffer) (text tail : List ℕ) : Type 0 where
  pub size : l.size ≡ length text
  pub buffer : l.msg_buf ≡ text ++ tail
  pub bytes : length l.msg_buf ≡ 256

set_two :
    (text tail : List ℕ) (x y c : ℕ)
    → set (set (text ++ (x ∷ y ∷ tail)) (length text) c) (suc (length text)) 0
      ≡ text ++ (c ∷ 0 ∷ tail)
set_two [] tail x y c = refl
set_two (a ∷ text) tail x y c = ap (λ (l : List ℕ). a ∷ l) (set_two text tail x y c)

pub store_char-Typed :
    (l : LineBuffer) (text tail : List ℕ) (x y c : ℕ)
    → Typed l text (x ∷ y ∷ tail)
    → Typed (store_char l c) (text ++ (c ∷ [])) (0 ∷ tail)
unfolding store_char
store_char-Typed l text tail x y c t =
    let full : length (text ++ (x ∷ y ∷ tail)) ≡ 256 = ap length (sym t.buffer) ∙ t.bytes in
    let room : ltb l.size 256 ≡ true =
      ground (arith, length-append text (x ∷ y ∷ tail), t.size, full) in
    let stored : set (set l.msg_buf l.size c) (l.size + 1) 0 ≡ text ++ (c ∷ 0 ∷ tail) =
      ap (λ (n : ℕ). set (set l.msg_buf l.size c) n 0) (omega arith)
      ∙ ap₂ (λ (b : List ℕ) (n : ℕ). set (set b n c) (suc n) 0) t.buffer t.size
      ∙ set_two text tail x y c in
    rw room (record {
      size = omega (arith, length-append text (c ∷ []), t.size);
      buffer = stored ∙ sym (append_assoc text (c ∷ []) (0 ∷ tail));
      bytes =
          ap length stored
          ∙ omega
              (arith, length-append text (c ∷ 0 ∷ tail), length-append text (x ∷ y ∷ tail), full);
    })

pub two_bytes :
    (b : List ℕ) → length b ≡ 256 → (x : ℕ) × (y : ℕ) × (tail : List ℕ) × (b ≡ x ∷ y ∷ tail)
two_bytes [] e = absurd (omega (arith, e))
two_bytes (x ∷ []) e = absurd (omega (arith, e))
two_bytes (x ∷ y ∷ tail) e = (x, y, tail, refl)
