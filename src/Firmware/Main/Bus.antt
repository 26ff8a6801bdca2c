-- ===== src/Firmware/Main/Bus.antt =====
-- firmware/PowerMon/src/main.c: the flash and the converters on one bus. What the converters and the
-- lights do leaves the pages of the flash alone, as the chip is not selected.
use power_monitor.Prelude.{ℕ, ◌≡◌, ◌∙◌, refl, Bool, true, false, List}
use power_monitor.Firmware.Board.{Board}
use power_monitor.Firmware.Flash.{DfToken, FlashDriver}
use power_monitor.Firmware.Ad7787.Keeps.{Undisturbed}
use power_monitor.Firmware.Main.{set_lights}
use power_monitor.Firmware.Eeprom.{Eeprom}
use power_monitor.Firmware.Eeprom.Coherent.{Holds}
use power_monitor.Firmware.Eeprom.Memory.{Memory}

-- PIO_PA17, the select line of the flash.
abbrev pub flash_pin : ℕ
flash_pin = 0x20000

-- `Quiet f s` says that the bus came from the state `f` of the flash driver, between two of its
-- calls, to `s` without a select of the flash.
pub record SharedBus (d : FlashDriver) (b : Board) (bus : d.State → b.State)
    (set_bus : d.State → b.State → d.State) : Type 1 where
  pub Quiet : d.State → b.State → Type 0
  pub at_rest : (f : d.State) → Quiet f (bus f)
  pub undisturbed : (f : d.State) → Undisturbed b flash_pin (Quiet f)
  pub same_pages :
      (f : d.State) (s : b.State) (t : DfToken) (p : ℕ)
      → Quiet f s
      → d.page_at (set_bus f s) t p ≡ d.page_at f t p

-- The three lights are not on the select line.
pub set_lights-keeps :
    (d : FlashDriver) (build : List ℕ) (b : Board) (miso_polls : b.State → ℕ)
    (bus : d.State → b.State) (set_bus : d.State → b.State → d.State) (P : b.State → Type 0)
    → Undisturbed b flash_pin P
    → (on : Bool) (s : b.State) → P s
    → P (set_lights d build b miso_polls bus set_bus on s)
unfolding set_lights
set_lights-keeps d build b polls bus set_bus P u true s k =
    u.sodr _ 0x400 refl (u.codr _ 0x200 refl (u.sodr s 0x100 refl k))
set_lights-keeps d build b polls bus set_bus P u false s k =
    u.codr _ 0x400 refl (u.sodr _ 0x200 refl (u.codr s 0x100 refl k))

-- The cache and the flash hold the same memory where the pages are the same.
pub Holds-flash :
    (d : FlashDriver) (e : Eeprom d) (m : Memory) (s : d.State)
    → ((p : ℕ) → d.page_at s e.token p ≡ d.page_at e.flash e.token p)
    → Holds d e m
    → Holds d (record e { flash = s }) m
Holds-flash d e m s same h = record {
  fits = h.fits;
  small = h.small;
  pages = h.pages;
  bytes = h.bytes;
  sized = h.sized;
  current = h.current;
  unique = h.unique;
  stored = λ p lt clean. same p ∙ h.stored p lt clean;
}
