-- ===== src/Firmware/Console/Settings/Tests.antt =====
-- `offset pri -5` on an erased flash.
use power_monitor.Prelude.{
  ℕ, ◌≡◌, ◌<◌, refl, false, List, [], none, some, get_or-values, arith, ◌%◌,
}
use power_monitor.Prelude.Text.{
  codes, strncmp_eq, skip_space, skip_chars, number_value, scan_digits, FitsLong, to_word32,
}
use power_monitor.Firmware.Flash.{DfToken}
use power_monitor.Firmware.Flash.Ram.{Ram, ram}
use power_monitor.Firmware.Eeprom
use power_monitor.Firmware.Eeprom.Memory.{Memory, byte_at}
use power_monitor.Firmware.Eeprom.Settings.{AreBytes, init_token}
use power_monitor.Firmware.Eeprom.Trace.{init-Holds}
use power_monitor.Firmware.Eeprom.Words.{store4}
use power_monitor.Firmware.PowerChanel.{PowerChanel}
use power_monitor.Firmware.UartBuffer
use power_monitor.Firmware.CmdProcessor.{cp_skip_space, cp_skip_chars}
use power_monitor.Firmware.Console.{
  pri, volt_offset_address, System, chanel, parse_supply, cmd_volt_offset,
}
use power_monitor.Firmware.Console.Settings.{Answered, offset_text, cmd_volt_offset-Answered}

abbrev token : DfToken
token = record { first_page = 100; size = 16 }

abbrev erased : Ram
erased = record { pages = λ q i. 0xFF; buffers = λ b i. 0 }

abbrev memory : Memory
memory = ram.page_at erased token

memory-AreBytes : AreBytes memory
unfolding byte_at
memory-AreBytes a =
    omega (arith, get_or-values {A = ℕ} (λ (i : ℕ). 0xFF) 0 512 (a % 512) 0 (omega arith))

abbrev idle : PowerChanel
idle = record { adc = none; volts = 0; v_calib = 1; volt_offset = 0 }

abbrev system : System ram []
system = record {
  uart = UartBuffer.init [];
  pri_ch = idle;
  sec_ch = idle;
  eeprom = Eeprom.init ram erased token 4;
  halted = false;
}

abbrev argument : List ℕ
argument = codes " pri  -5"

parsed : parse_supply (cp_skip_space argument) ≡ some pri
unfolding parse_supply strncmp_eq skip_space
parsed = refl

number : cp_skip_space (cp_skip_chars (cp_skip_space argument)) ≡ codes "-5"
unfolding skip_space skip_chars
number = refl

minus_five : FitsLong (number_value (codes "-5"))
unfolding number_value scan_digits
minus_five = omega arith

pages : 0 < system.eeprom.token.size
pages = rw (init_token ram erased token 4) (omega arith)

cmd_volt_offset-Answered_example :
    let v = to_word32 (number_value (codes "-5")) in
    let r = cmd_volt_offset ram [] argument [] system in
    Answered ram [] system (store4 memory (volt_offset_address pri) v) (offset_text ram [] pri v) r
    × ((chanel ram [] r.state pri).volt_offset ≡ v)
cmd_volt_offset-Answered_example =
    cmd_volt_offset-Answered ram [] pri argument [] system memory 45 (codes "5") parsed number
      minus_five pages memory-AreBytes
      (init-Holds ram erased token 4 tt (omega arith) (omega arith))
