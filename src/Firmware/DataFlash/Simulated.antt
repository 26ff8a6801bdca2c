-- ===== src/Firmware/DataFlash/Simulated.antt =====
-- The simulated chip behaves as the data sheet of the AT45DB says.
use Prim.Native.Nat.{bit_and}
use power_monitor.Prelude.{
  ℕ, zero, suc, ◌+◌, ◌*◌, ◌-◌, ◌/◌, ◌%◌, ◌≤◌, ◌<◌, ◌≡◌, refl, sym, ap, ◌∙◌, true, not, ◌&&◌, List,
  [], ◌∷◌, ◌++◌, none, some, length, ==_refl, get_or, drop, replicate, values, length-append, ltb,
  leb, ◌==◌, if◌then◌else◌, arith, Bool-cases, inl, inr,
}
use mathlib.Core.Path.{ap₂}
use mathlib.Core.List.{append-nil, append_assoc}
use power_monitor.Firmware.DataFlash.Chip.{At45db}
use power_monitor.Firmware.Flash.{DfBuff, buffer1, buffer2}
use power_monitor.Firmware.DataFlash.{
  DataFlash, transfer, exchange, cs_on, cs_off, buffer_write_opcode, prog_with_erase,
}
use power_monitor.Firmware.DataFlash.Session.{session}
use power_monitor.Firmware.DataFlash.SimulatedBus.{
  Chip, chip_on, put, read_reply, reply, finish, board, polls,
}

abbrev Flash : Type 0
Flash = DataFlash board polls

-- The replies to bytes that follow a frame.
replies : Chip → List ℕ → List ℕ → List ℕ
replies s frame [] = []
replies s frame (v ∷ vs) = reply s.content s.busy frame ∷ replies s (frame ++ (v ∷ [])) vs

abbrev view : Flash → Chip
view f = chip_on f.spi f.cs_pin

-- The chip is selected and has received `frame`.
abbrev framed : Flash → List ℕ → Flash
framed f frame = record f { spi = record f.spi { selected = some f.cs_pin; frame = frame } }

exchange-frame :
    (f : Flash) (frame bytes : List ℕ)
    → exchange board polls (framed f frame) bytes
      ≡ (replies (view f) frame bytes, framed f (frame ++ bytes))
unfolding exchange transfer replies
exchange-frame f frame [] = ap (λ (l : List ℕ). ([], framed f l)) (sym (append-nil frame))
exchange-frame f frame (v ∷ vs) =
    ap (λ (r : List ℕ × Flash). (reply (view f).content (view f).busy frame ∷ r.0, r.1))
      (exchange-frame f (frame ++ (v ∷ [])) vs
        ∙ ap (λ (l : List ℕ). (replies (view f) (frame ++ (v ∷ [])) vs, framed f l))
            (append_assoc frame (v ∷ []) vs))

-- A session in one step.
abbrev after : Flash → List ℕ → Flash
after f bytes = record f {
  spi = record (put f.spi f.cs_pin (finish (view f) bytes)) { selected = none; frame = [] };
}

session-frame :
    (f : Flash) (bytes : List ℕ)
    → session board polls f bytes ≡ (replies (view f) [] bytes, after f bytes)
unfolding session cs_on cs_off put
session-frame f bytes =
    ap (λ (r : List ℕ × Flash). (r.0, cs_off board polls r.1)) (exchange-frame f [] bytes)
    ∙ rw (==_refl f.cs_pin) refl

view-after : (f : Flash) (bytes : List ℕ) → view (after f bytes) ≡ finish (view f) bytes
unfolding put
view-after f bytes = rw (==_refl f.cs_pin) refl

-- What a session leaves of the chip.
left : (f : Flash) (bytes : List ℕ) → view (session board polls f bytes).1 ≡ finish (view f) bytes
left f bytes = ap (λ (r : List ℕ × Flash). view r.1) (session-frame f bytes) ∙ view-after f bytes

-- The dummy bytes behind a read frame come back as the bytes of the page.
replies-read :
    (s : Chip) (a₂ a₁ a₀ k n : ℕ) (before : List ℕ)
    → length before ≡ k
    → replies s (0xD2 ∷ a₂ ∷ a₁ ∷ a₀ ∷ 0 ∷ 0 ∷ 0 ∷ 0 ∷ before) (replicate n 0)
      ≡ values
          (s.content ((a₂ * 65536 + a₁ * 256 + a₀) / 1024))
          ((a₂ * 65536 + a₁ * 256 + a₀) % 1024 + k)
          n
unfolding replies reply read_reply values
replies-read s a₂ a₁ a₀ k zero before e = refl
replies-read s a₂ a₁ a₀ k (suc n) before e =
    let address = a₂ * 65536 + a₁ * 256 + a₀ in
    ap₂ ◌∷◌ (ap (λ (j : ℕ). s.content (address / 1024) (address % 1024 + j)) e) (
      replies-read s a₂ a₁ a₀ (k + 1) n (before ++ (0 ∷ []))
        (omega (arith, length-append before (0 ∷ []), e))
      ∙ ap (λ (j : ℕ). values (s.content (address / 1024)) j n) (omega arith))

status :
    (f : Flash)
    → (bit_and (get_or (session board polls f (0xD7 ∷ 0xFF ∷ [])).0 1 0) 0x80 == 0)
      ≡ not ((view f).busy == 0)
unfolding replies reply
status f =
    rw (session-frame f (0xD7 ∷ 0xFF ∷ []))
      (elim (Bool-cases ((view f).busy == 0)) [ inl idle ↦ rw idle | inr busy ↦ rw busy ])

read_bytes :
    (f : Flash) (page offset n a₂ a₁ a₀ : ℕ)
    → offset + n ≤ 528
    → a₂ * 65536 + a₁ * 256 + a₀ ≡ page * 1024 + offset
    → drop 8 (session board polls f ((0xD2 ∷ a₂ ∷ a₁ ∷ a₀ ∷ 0 ∷ 0 ∷ 0 ∷ 0 ∷ []) ++ replicate n 0)).0
      ≡ values ((view f).content page) offset n
unfolding replies
read_bytes f page offset n a₂ a₁ a₀ room spelled =
    ap (λ (r : List ℕ × Flash). drop 8 r.0)
      (session-frame f ((0xD2 ∷ a₂ ∷ a₁ ∷ a₀ ∷ 0 ∷ 0 ∷ 0 ∷ 0 ∷ []) ++ replicate n 0))
    ∙ replies-read (view f) a₂ a₁ a₀ 0 n [] refl
    ∙ ap₂ (λ (p o : ℕ). values ((view f).content p) o n) {x = (a₂ * 65536 + a₁ * 256 + a₀) / 1024}
        {y = page} (omega arith) (omega arith)

above : (at offset i : ℕ) → at ≡ offset → leb at (offset + i) ≡ true
above at offset i e = ground arith

below : (at offset i n : ℕ) → at ≡ offset → i < n → ltb (offset + i) (at + n) ≡ true
below at offset i n e lt = ground arith

placed :
    (at offset i : ℕ) (src : List ℕ) (old : ℕ)
    → at ≡ offset
    → i < length src
    → (if leb at (offset + i) && ltb (offset + i) (at + length src)
        then get_or src (offset + i - at) 0
        else old)
      ≡ get_or src i 0
placed at offset i src old e lt =
    rw (above at offset i e, below at offset i (length src) e lt)
      (ap (λ (k : ℕ). get_or src k 0) {x = offset + i - at} {y = i} (omega arith))

filled :
    (c : Chip) (w : DfBuff) (offset a₁ a₀ i : ℕ) (src : List ℕ)
    → a₁ * 256 + a₀ ≡ offset
    → i < length src
    → (finish c (buffer_write_opcode w ∷ 0 ∷ a₁ ∷ a₀ ∷ src)).sram w (offset + i) ≡ get_or src i 0
unfolding finish
filled c buffer1 offset a₁ a₀ i src spelled inside =
    placed (a₁ * 256 + a₀) offset i src (c.sram buffer1 (offset + i)) spelled inside
filled c buffer2 offset a₁ a₀ i src spelled inside =
    placed (a₁ * 256 + a₀) offset i src (c.sram buffer2 (offset + i)) spelled inside

fill_keeps :
    (c : Chip) (w : DfBuff) (bytes : List ℕ)
    → (finish c (buffer_write_opcode w ∷ bytes)).content ≡ c.content
unfolding finish
fill_keeps c buffer1 [] = refl
fill_keeps c buffer1 (x ∷ []) = refl
fill_keeps c buffer1 (x ∷ y ∷ []) = refl
fill_keeps c buffer1 (x ∷ y ∷ z ∷ src) = refl
fill_keeps c buffer2 [] = refl
fill_keeps c buffer2 (x ∷ []) = refl
fill_keeps c buffer2 (x ∷ y ∷ []) = refl
fill_keeps c buffer2 (x ∷ y ∷ z ∷ src) = refl

page_of_bytes :
    (page a₂ a₁ : ℕ) → a₂ * 65536 + a₁ * 256 ≡ page * 1024 → (a₂ * 65536 + a₁ * 256) / 1024 ≡ page
page_of_bytes page a₂ a₁ spelled = omega arith

programmed :
    (c : Chip) (w : DfBuff) (page a₂ a₁ q i : ℕ)
    → a₂ * 65536 + a₁ * 256 ≡ page * 1024
    → (finish c (prog_with_erase w ∷ a₂ ∷ a₁ ∷ 0 ∷ [])).content q i
      ≡ (if page == q then c.sram w i else c.content q i)
unfolding finish
programmed c buffer1 page a₂ a₁ q i spelled =
    ap (λ (p : ℕ). if p == q then c.sram buffer1 i else c.content q i)
      (page_of_bytes page a₂ a₁ spelled)
programmed c buffer2 page a₂ a₁ q i spelled =
    ap (λ (p : ℕ). if p == q then c.sram buffer2 i else c.content q i)
      (page_of_bytes page a₂ a₁ spelled)

-- The simulated chip behaves as the data sheet says.
pub chip : At45db board polls
unfolding finish
chip = record {
  content = λ f. (view f).content;
  buffer = λ f. (view f).sram;
  status_bit = status;
  status_polls = λ f. ap (λ (c : Chip). c.busy) (left f (0xD7 ∷ 0xFF ∷ []));
  status_content = λ f. ap (λ (c : Chip). c.content) (left f (0xD7 ∷ 0xFF ∷ []));
  status_buffer = λ f. ap (λ (c : Chip). c.sram) (left f (0xD7 ∷ 0xFF ∷ []));
  read_bytes = λ f page offset n a₂ a₁ a₀ idle inside room spelled.
      read_bytes f page offset n a₂ a₁ a₀ room spelled;
  read_content = λ f bytes idle. ap (λ (c : Chip). c.content) (left f (0xD2 ∷ bytes));
  read_buffer = λ f bytes idle. ap (λ (c : Chip). c.sram) (left f (0xD2 ∷ bytes));
  write_buffer = λ f w offset a₁ a₀ i src idle room spelled inside.
      ap (λ (c : Chip). c.sram w (offset + i)) (left f (buffer_write_opcode w ∷ 0 ∷ a₁ ∷ a₀ ∷ src))
      ∙ filled (view f) w offset a₁ a₀ i src spelled inside;
  write_content = λ f w bytes idle.
      ap (λ (c : Chip). c.content) (left f (buffer_write_opcode w ∷ bytes))
      ∙ fill_keeps (view f) w bytes;
  program_content = λ f w page a₂ a₁ q i idle inside spelled.
      ap (λ (c : Chip). c.content q i) (left f (prog_with_erase w ∷ a₂ ∷ a₁ ∷ 0 ∷ []))
      ∙ programmed (view f) w page a₂ a₁ q i spelled;
}

pub chip-content : (f : Flash) → chip.content f ≡ f.spi.content f.cs_pin
unfolding chip
chip-content f = refl
