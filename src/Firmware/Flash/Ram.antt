-- ===== src/Firmware/Flash/Ram.antt =====
-- A flash driver that keeps its pages and buffers in memory, to run the cache on.
use power_monitor.Prelude.{
  ℕ, ◌+◌, ◌≤◌, ◌<◌, ◌≡◌, inl, inr, refl, ap, Bool, true, false, List, length, get_or, values,
  length-values, values-get_or, ltb, ◌==◌, if◌then◌else◌, arith, Bool-cases,
}
use mathlib.Core.Path.{subst}
use power_monitor.Firmware.Flash.{DfToken, DfBuff, buffer1, buffer2, FlashDriver}

-- The bytes of each page of the chip, and of the two buffers.
pub record Ram : Type 0 where
  pub pages : ℕ → ℕ → ℕ
  pub buffers : DfBuff → ℕ → ℕ

abbrev same_buffer : DfBuff → DfBuff → Bool
same_buffer buffer1 buffer1 = true
same_buffer buffer2 buffer2 = true
same_buffer a b = false

abbrev page : Ram → DfToken → ℕ → List ℕ
page s t p = values (s.pages (t.first_page + p)) 0 512

abbrev load : Ram → DfToken → ℕ → ℕ → ℕ → List ℕ → List ℕ × Ram
load s t p start n dest = (values (s.pages (t.first_page + p)) start n, s)

abbrev program : Ram → DfToken → ℕ → DfBuff → Ram
program s t p b =
    if ltb p t.size
    then record s { pages = λ q. if t.first_page + p == q then s.buffers b else s.pages q }
    else s

abbrev fill_buffer : Ram → DfToken → ℕ → ℕ → ℕ → DfBuff → List ℕ → Ram
fill_buffer s t p start n b src = record s {
  buffers = λ c. if same_buffer b c then (λ i. get_or src i 0) else s.buffers c;
}

lt_true : (a b : ℕ) → a < b → ltb a b ≡ true
lt_true a b h = ground arith

at_same : (first p q : ℕ) → (p == q) ≡ true → (first + p == first + q) ≡ true
at_same first p q h = ground arith

at_other : (first p q : ℕ) → (p == q) ≡ false → (first + p == first + q) ≡ false
at_other first p q h = ground arith

pub program_page :
    (s : Ram) (t : DfToken) (p : ℕ) (b : DfBuff) (q : ℕ)
    → p < t.size
    → page (program s t p b) t q ≡ (if p == q then values (s.buffers b) 0 512 else page s t q)
program_page s t p b q lt = elim (Bool-cases (p == q)) [
  | inl same ↦ rw (lt_true p t.size lt, same, at_same t.first_page p q same)
  | inr other ↦ rw (lt_true p t.size lt, other, at_other t.first_page p q other)
]

pub program_refused :
    (s : Ram) (t : DfToken) (p : ℕ) (b : DfBuff) → t.size ≤ p → program s t p b ≡ s
program_refused s t p b le = ground arith

pub loaded : (src : List ℕ) → length src ≡ 512 → values (λ i. get_or src i 0) 0 512 ≡ src
loaded src e =
    subst (λ (n : ℕ). values (λ (i : ℕ). get_or src i 0) 0 n ≡ src) e
      (values-get_or (λ (i : ℕ). get_or src i 0) 0 src 0
        (λ i lt. ap (λ (k : ℕ). get_or src k 0) {x = 0 + i} {y = i} (omega arith)))

pub written :
    (s : Ram) (b : DfBuff) (src : List ℕ)
    → length src ≡ 512
    → values (if same_buffer b b then (λ i. get_or src i 0) else s.buffers b) 0 512 ≡ src
written s buffer1 src len = loaded src len
written s buffer2 src len = loaded src len

abbrev pub ram : FlashDriver
ram = record {
  State = Ram;
  read_page_direct = load;
  write_buffer_to_flash = program;
  buffer_write = fill_buffer;
  Fits = λ t. Unit;
  page_at = page;
  held = λ s b. values (s.buffers b) 0 512;
  length-page_at = λ s t p. length-values (s.pages (t.first_page + p)) 0 512;
  read_page = λ s t p dest fits lt len. refl;
  read_keeps = λ s t p dest q. refl;
  read_keeps_held = λ s t p dest b. refl;
  program_page = λ s t p b q fits lt lt'. program_page s t p b q lt;
  program_refused = program_refused;
  buffer_write_held = λ s t p b src fits lt len. written s b src len;
  buffer_write_keeps = λ s t p b src q. refl;
}
