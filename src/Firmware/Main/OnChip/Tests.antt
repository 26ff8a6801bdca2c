-- ===== src/Firmware/Main/OnChip/Tests.antt =====
-- `calib sec 900` on a board of simulated chips, after an interrupt.
use power_monitor.Prelude.{
  ℕ, ◌%◌, ◌<◌, ◌≡◌, refl, sym, true, List, [], ◌∷◌, none, some, values, get_or-values, arith,
}
use mathlib.Core.Path.{subst}
use power_monitor.Prelude.Text.{
  codes, strncmp_eq, skip_space, skip_chars, number_value, scan_digits, FitsLong, to_word32,
}
use power_monitor.Firmware.Flash.{FlashDriver}
use power_monitor.Firmware.DataFlash.{chip_page}
use power_monitor.Firmware.DataFlash.Simulated.{chip, chip-content}
use power_monitor.Firmware.DataFlash.SimulatedBus.{Bus, board, polls}
use power_monitor.Firmware.DataFlash.SimulatedLine.{unselected}
use power_monitor.Firmware.DataFlash.Wired.{at, wired_driver}
use power_monitor.Firmware.Eeprom.{cache_flush}
use power_monitor.Firmware.Eeprom.Memory.{byte_at}
use power_monitor.Firmware.Eeprom.Settings.{AreBytes}
use power_monitor.Firmware.UartBuffer.{UsartEvent}
use power_monitor.Firmware.CmdProcessor.{cp_skip_space, cp_skip_chars}
use power_monitor.Firmware.Console.{sec, volt_address, parse_supply, cmd_volt_calib}
use power_monitor.Firmware.Main.{at_heartbeat, start_up, usart0_handler}
use power_monitor.Firmware.Main.Bench.{
  token, pri_ch, sec_ch, pri_ch-HasConverter, sec_ch-HasConverter, line, line-IsLine,
}
use power_monitor.Firmware.Main.Bus.{flash_pin}
use power_monitor.Firmware.Main.Invariant.{State}
use power_monitor.Firmware.Main.Interleaved.{Reach, at_start, next, usart}
use power_monitor.Firmware.Main.OnChip.{shared_bus, WordOnChip, calibration_on_chip}

abbrev driver : FlashDriver
driver = wired_driver board polls chip flash_pin

abbrev erased : Bus
erased = record {
  content = λ pin q i. 0xFF;
  sram = λ pin w i. 0;
  busy = 2;
  working = 0;
  selected = none;
  frame = [];
}

miso_polls : Bus → ℕ
miso_polls s = s.working

abbrev Here : Type 0
Here = State driver [] board miso_polls (λ s. s) (λ f s. s)

abbrev events : List UsartEvent
events = record { tx_empty = true; received = some 118 } ∷ []

start : Here
start =
    start_up driver [] board miso_polls (λ s. s) (λ f s. s) erased token pri_ch sec_ch line events

after_interrupt : Here
after_interrupt = usart0_handler driver [] board miso_polls (λ s. s) (λ f s. s) start

reached :
    Reach driver [] board miso_polls
      (λ s. s)
      (λ f s. s)
      (shared_bus board polls chip unselected)
      token
      (omega arith)
      (at_heartbeat, start)
      (at_heartbeat, after_interrupt)
unfolding after_interrupt
reached = next at_start usart

erased-AreBytes : AreBytes (driver.page_at erased token)
unfolding byte_at
erased-AreBytes a =
    subst (λ (c : ℕ → ℕ → ℕ). byte_at (λ p. values (c (chip_page token p)) 0 512) a < 256)
      (sym (chip-content (at board polls chip flash_pin erased)))
      (omega (arith, get_or-values {A = ℕ} (λ (i : ℕ). 0xFF) 0 512 (a % 512) 0 (omega arith)))

abbrev argument : List ℕ
argument = codes " sec 900"

parsed : parse_supply (cp_skip_space argument) ≡ some sec
unfolding parse_supply strncmp_eq skip_space
parsed = refl

number : cp_skip_space (cp_skip_chars (cp_skip_space argument)) ≡ codes "900"
unfolding skip_space skip_chars
number = refl

nine_hundred : FitsLong (number_value (codes "900"))
unfolding number_value scan_digits
nine_hundred = omega arith

calibration_on_chip_example :
    let e = (cmd_volt_calib driver [] argument [] after_interrupt.system).state.eeprom in
    ((cache_flush driver e).0 ≡ true)
    × WordOnChip board polls chip unselected token
        (cache_flush driver e).1.flash
        (volt_address sec)
        (to_word32 (number_value (codes "900")))
unfolding start
calibration_on_chip_example =
    calibration_on_chip board polls chip unselected [] miso_polls token (omega arith) erased pri_ch
      sec_ch line events at_heartbeat after_interrupt sec argument [] 57 (codes "00") (omega arith)
      (omega arith) erased-AreBytes pri_ch-HasConverter sec_ch-HasConverter line-IsLine reached
      parsed number nine_hundred
