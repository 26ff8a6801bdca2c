-- ===== src/Daemon/Tests.antt =====
-- The daemon on replies of a monitor.
use power_monitor.Prelude.{
  refl, ℕ, ◌+◌, ◌≡◌, ◌++◌, true, false, List, [], ◌∷◌, none, some, replicate, set, arith,
}
use power_monitor.Prelude.Text.{codes, Signed, plus, minus, skip_space}
use power_monitor.Firmware.Flash.Ram.{ram}
use power_monitor.Firmware.Eeprom
use power_monitor.Firmware.PowerChanel
use power_monitor.Firmware.PowerChanel.{PowerChanel}
use power_monitor.Firmware.UartBuffer
use power_monitor.Firmware.Console.{sec, parse_supply, System, chanel, cmd_voltage, cmd_current}
use power_monitor.Firmware.Console.Replies.{parse_supply_sec}
use power_monitor.Daemon.CmdParse.{no_match, handled, CmdFuncs, Callback, process_string, drain}
use power_monitor.Daemon.CmdParse.Lines.{drain_ends}
use power_monitor.Daemon.CmdParse.Reply.{kept}
use power_monitor.Daemon.Commands.{Segment, cmd_table}
use power_monitor.Daemon.Commands.Reports.{voltage_report, current_report}

-- A number of millivolts stands for itself.
abbrev milli : Signed → ℕ
milli (plus n) = n
milli (minus n) = 0

abbrev Shared : Type 0
Shared = Segment milli 0

abbrev memory : Shared
memory = record {
  mem = record { voltage = 0 ∷ 0 ∷ []; current = 0 ∷ 0 ∷ []; port_connected = true };
  attached = true;
  faulted = false;
}

abbrev build : List ℕ
build = codes "now"

abbrev supply : PowerChanel
supply = record { adc = none; volts = 40000; v_calib = 856; volt_offset = 1 }

abbrev monitor : System ram build
monitor = record {
  uart = UartBuffer.init [];
  pri_ch = supply;
  sec_ch = supply;
  eeprom =
      Eeprom.init ram (record { pages = λ q i. 0xFF; buffers = λ b i. 0 })
        (record { first_page = 0; size = 4 }) 2;
  halted = false;
}

parse_sec : parse_supply (skip_space (codes " sec")) ≡ some sec
unfolding skip_space
parse_sec = parse_supply_sec

reading_value : PowerChanel.get_volts (chanel ram build monitor sec) ≡ 8358
unfolding PowerChanel.get_volts chanel
reading_value = refl

voltage_report_example :
    process_string
      (cmd_table milli 0)
      (replicate 2 10 ++ ((cmd_voltage ram build (codes " sec") [] monitor).buffer ++ codes "Vol"))
      memory
    ≡ (
      handled 1,
      kept 2 ++ (10 ∷ codes "Vol"),
      record memory {
        mem = record memory.mem {
          voltage =
              set memory.mem.voltage 1
                (milli (plus (PowerChanel.get_volts (chanel ram build monitor sec))));
        };
      },
    )
voltage_report_example =
    voltage_report milli 0 ram build sec (codes " sec") [] monitor 2 (codes "Vol") memory refl
      parse_sec (omega (arith, reading_value))

current_report_example :
    process_string
      (cmd_table milli 0)
      (replicate 1 10 ++ ((cmd_current ram build (codes " sec") [] monitor).buffer ++ []))
      memory
    ≡ (no_match, kept 1 ++ (10 ∷ []), memory)
current_report_example =
    current_report milli 0 ram build sec (codes " sec") [] monitor 1 [] memory parse_sec

abbrev two_lines : List ℕ
two_lines = codes "a:1" ++ (13 ∷ 10 ∷ codes "b:2") ++ (13 ∷ 10 ∷ [])

abbrev count : Callback ℕ
count argument s = (1, s + 1)

abbrev words : CmdFuncs ℕ
words = (codes "a", count) ∷ (codes "b", count) ∷ []

drain_ends_example : (drain 11 words two_lines 0).0 ≡ true
drain_ends_example = drain_ends words 11 two_lines 0 (omega arith)
