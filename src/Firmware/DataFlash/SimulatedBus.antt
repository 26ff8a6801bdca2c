-- ===== src/Firmware/DataFlash/SimulatedBus.antt =====
-- A board with simulated AT45DB chips and converters behind one bus, to run the drivers on. The chip
-- on a select line sees the bytes from the fall of its line to its rise, and acts on them at the rise.
use power_monitor.Prelude.{
  ℕ, ◌+◌, ◌*◌, ◌-◌, ◌/◌, ◌%◌, Bool, true, false, not, ◌&&◌, List, [], ◌∷◌, ◌++◌, Option, none, some,
  length, get_or, ltb, leb, ◌==◌, if◌then◌else◌,
}
use power_monitor.Firmware.Board.{Board}
use power_monitor.Firmware.Flash.{DfBuff, buffer1, buffer2}

-- What the effect of a frame is on: `busy` counts the status reads that still answer busy.
pub record Chip : Type 0 where
  pub content : ℕ → ℕ → ℕ
  pub sram : DfBuff → ℕ → ℕ
  pub busy : ℕ

-- A chip on every select line; `working` counts the reads of the port that still see the line of a
-- converter high, and `frame` is what the selected device has received.
pub record Bus : Type 0 where
  pub content : ℕ → ℕ → ℕ → ℕ
  pub sram : ℕ → DfBuff → ℕ → ℕ
  pub busy : ℕ
  pub working : ℕ
  pub selected : Option ℕ
  pub frame : List ℕ

-- The byte of a main memory page read, behind the three address bytes and four more.
unfoldable pub read_reply : (ℕ → ℕ → ℕ) → List ℕ → ℕ
read_reply content [] = 0
read_reply content (a₂ ∷ []) = 0
read_reply content (a₂ ∷ a₁ ∷ []) = 0
read_reply content (a₂ ∷ a₁ ∷ a₀ ∷ []) = 0
read_reply content (a₂ ∷ a₁ ∷ a₀ ∷ w ∷ []) = 0
read_reply content (a₂ ∷ a₁ ∷ a₀ ∷ w ∷ x ∷ []) = 0
read_reply content (a₂ ∷ a₁ ∷ a₀ ∷ w ∷ x ∷ y ∷ []) = 0
read_reply content (a₂ ∷ a₁ ∷ a₀ ∷ w ∷ x ∷ y ∷ z ∷ rest) =
    let address = a₂ * 65536 + a₁ * 256 + a₀ in
    content (address / 1024) (address % 1024 + length rest)

-- What comes back behind the bytes of a frame.
unfoldable pub reply : (ℕ → ℕ → ℕ) → ℕ → List ℕ → ℕ
reply content busy [] = 0
reply content busy (op ∷ args) =
    if op == 0xD7
    then (if busy == 0 then 0x80 else 0)
    else if op == 0xD2
    then read_reply content args
    else 0

abbrev pub is_buffer : DfBuff → DfBuff → Bool
is_buffer buffer1 buffer1 = true
is_buffer buffer2 buffer2 = true
is_buffer a b = false

abbrev pub fill_sram : Chip → DfBuff → List ℕ → Chip
fill_sram s b (x ∷ a₁ ∷ a₀ ∷ src) =
    let offset = a₁ * 256 + a₀ in
    record s {
      sram = λ c i.
          if is_buffer b c && leb offset i && ltb i (offset + length src)
          then get_or src (i - offset) 0
          else s.sram c i;
    }
fill_sram s b bytes = s

abbrev pub program : Chip → DfBuff → List ℕ → Chip
program s b (a₂ ∷ a₁ ∷ a₀ ∷ rest) = record s {
  content = λ q i. if (a₂ * 65536 + a₁ * 256) / 1024 == q then s.sram b i else s.content q i;
  busy = 3;
}
program s b bytes = s

-- The effect of a frame.
unfoldable pub finish : Chip → List ℕ → Chip
finish s [] = s
finish s (op ∷ args) =
    if op == 0xD7
    then record s { busy = s.busy - 1 }
    else if op == 0x84
    then fill_sram s buffer1 args
    else if op == 0x87
    then fill_sram s buffer2 args
    else if op == 0x83
    then program s buffer1 args
    else if op == 0x86
    then program s buffer2 args
    else s

abbrev pub chip_on : Bus → ℕ → Chip
chip_on s pin = record { content = s.content pin; sram = s.sram pin; busy = s.busy }

-- The bus with another chip on a select line.
unfoldable pub put : Bus → ℕ → Chip → Bus
put s pin c = record s {
  content = λ q. if q == pin then c.content else s.content q;
  sram = λ q. if q == pin then c.sram else s.sram q;
  busy = c.busy;
}

-- The fall and the rise of a select line, and a byte over the bus.
abbrev pub fall : Bus → ℕ → Bus
fall s pin = record s { selected = some pin; frame = [] }

abbrev pub rise : Bus → ℕ → Bus
rise s pin = elim s.selected [
  | none ↦ s
  | some q ↦
      if q == pin
      then record (put s q (finish (chip_on s q) s.frame)) { selected = none; frame = [] }
      else s
]

abbrev pub shift : Bus → ℕ → ℕ × Bus
shift s v = elim s.selected [
  | none ↦ (0x9C, s)
  | some q ↦ (reply (s.content q) s.busy s.frame, record s { frame = s.frame ++ (v ∷ []) })
]

abbrev pub board : Board
board = record {
  State = Bus;
  spi_select_device = λ s. s;
  spi_deselect_device = λ s. s;
  spi_transfer = shift;
  pio_codr = fall;
  pio_sodr = rise;
  pio_per = λ s pin. s;
  pio_oer = λ s pin. s;
  miso_high = λ s. (not (s.working == 0), record s { working = s.working - 1 });
}

abbrev pub polls : Bus → ℕ
polls s = s.busy
