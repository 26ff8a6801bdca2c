-- ===== src/Firmware/Console/Replies.antt =====
-- firmware/PowerMon/src/main.c: the text of the replies on voltage and current.
use power_monitor.Prelude.{ℕ, ◌≡◌, refl, List, ◌++◌, some}
use power_monitor.Prelude.Text.{codes, strncmp_eq, format_unsigned, format_signed}
use power_monitor.Firmware.Flash.{FlashDriver}
use power_monitor.Firmware.PowerChanel
use power_monitor.Firmware.CmdProcessor.{cp_skip_space}
use power_monitor.Firmware.Console.{
  Supply, sec, supply_name, parse_supply, System, chanel, answer, cmd_voltage, cmd_current, crlf,
}

pub parse_supply_sec : parse_supply (codes "sec") ≡ some sec
unfolding parse_supply strncmp_eq
parse_supply_sec = refl

module _ (d : FlashDriver) (build : List ℕ) where
  pub cmd_voltage-answer :
      (ch : Supply) (argument buffer : List ℕ) (s : System d build)
      → parse_supply (cp_skip_space argument) ≡ some ch
      → cmd_voltage d build argument buffer s
        ≡ answer d build
            (codes "Voltage: "
              ++ (supply_name ch
                  ++ (codes " "
                      ++ (format_unsigned (PowerChanel.get_volts (chanel d build s ch))
                          ++ (codes " mV" ++ crlf)))))
            s
  unfolding cmd_voltage
  cmd_voltage-answer ch argument buffer s e = rw (e, cmd_voltage)

  pub cmd_current-answer :
      (ch : Supply) (argument buffer : List ℕ) (s : System d build)
      → parse_supply (cp_skip_space argument) ≡ some ch
      → cmd_current d build argument buffer s
        ≡ answer d build
            (codes "Current: "
              ++ (supply_name ch
                  ++ (codes " "
                      ++ (format_signed (PowerChanel.get_current (chanel d build s ch))
                          ++ (codes " mA" ++ crlf)))))
            s
  unfolding cmd_current
  cmd_current-answer ch argument buffer s e = rw (e, cmd_current)
