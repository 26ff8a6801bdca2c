-- ===== src/Daemon/Commands/Reports.antt =====
-- The replies of the firmware's console, read by the daemon.
use power_monitor.Prelude.{
  ℕ, zero, suc, ◌+◌, ◌^◌, ◌<◌, ◌≡◌, ◌∙◌, refl, sym, ap, List, [], ◌∷◌, ◌++◌, some, true, set,
  replicate, arith, Bool-cases, inl, inr, ◌/◌, ◌%◌, ltb,
}
use power_monitor.Prelude.Text.{
  codes, strncmp_eq, skip_space, skip_chars, Signed, plus, atol, format_unsigned, format_signed,
  digits_onto, scan_digits, is_space,
}
use power_monitor.Prelude.Text.Numbers.{atol-format_unsigned}
use power_monitor.Firmware.Flash.{FlashDriver}
use power_monitor.Firmware.PowerChanel
use power_monitor.Firmware.PowerChanel.{PowerChanel}
use power_monitor.Firmware.CmdProcessor.{Reply, cp_skip_space}
use power_monitor.Firmware.Console.{
  Supply, pri, sec, supply_name, parse_supply, System, chanel, cmd_voltage, cmd_current, crlf,
}
use power_monitor.Firmware.Console.Replies.{cmd_voltage-answer, cmd_current-answer}
use power_monitor.Daemon.CmdParse.{no_match, handled, argument, scan_table, process_string}
use power_monitor.Daemon.CmdParse.Lines.{Without}
use power_monitor.Daemon.CmdParse.Reply.{Without-append, kept, process_string_reply, ++_assoc}
use power_monitor.Daemon.Commands.{
  SharedMem, Segment, through, on_segment, receive_voltage, cmd_table,
}

-- The place of a supply in the arrays of the shared memory.
abbrev pub supply_index : Supply → ℕ
supply_index pri = 0
supply_index sec = 1

Without-digits_onto :
    (c : ℕ)
    → c < 48
    → (fuel n : ℕ) (acc : List ℕ) → Without c acc
    → Without c (digits_onto fuel n acc)
unfolding digits_onto
Without-digits_onto c low zero n acc w = w
Without-digits_onto c low (suc fuel) n acc w = elim (Bool-cases (ltb n 10)) [
  | inl small ↦ rw small (omega arith, w)
  | inr large ↦
      rw large (Without-digits_onto c low fuel (n / 10) ((48 + n % 10) ∷ acc) (omega arith, w))
]

skip_space_twice : (s : List ℕ) → skip_space (skip_space s) ≡ skip_space s
unfolding skip_space
skip_space_twice [] = refl
skip_space_twice (c ∷ s) = elim (Bool-cases (is_space c)) [
  | inl space ↦ rw space (skip_space_twice s)
  | inr word ↦ rw (word, word)
]

-- The text of a reading behind the colon, and the reply's line.
abbrev reading : Supply → ℕ → List ℕ
reading ch v = codes " " ++ (supply_name ch ++ (codes " " ++ (format_unsigned v ++ codes " mV")))

digits-Without : (v : ℕ) → Without 13 (format_unsigned v ++ codes " mV")
unfolding format_unsigned
digits-Without v =
    Without-append 13 (format_unsigned v) (codes " mV")
      (Without-digits_onto 13 (omega arith) 10 v [] tt)
      (omega arith, (omega arith, (omega arith, tt)))

stops : (v : ℕ) → scan_digits v (codes " mV") ≡ v
unfolding scan_digits
stops v = refl

reading-Without : (ch : Supply) (v : ℕ) → Without 13 (reading ch v)
reading-Without pri v =
    (omega arith, (omega arith, (omega arith, (omega arith, (omega arith, digits-Without v)))))
reading-Without sec v =
    (omega arith, (omega arith, (omega arith, (omega arith, (omega arith, digits-Without v)))))

atol-reading :
    (v : ℕ) → v < 2 ^ 31 → atol (skip_space (32 ∷ (format_unsigned v ++ codes " mV"))) ≡ plus v
unfolding atol skip_space
atol-reading v small =
    rw (skip_space_twice (format_unsigned v ++ codes " mV"))
      (atol-format_unsigned v (codes " mV") small (stops v))

module _ {F : Type 0} (milli : Signed → F) (nought : F) where
  receive_voltage-reading :
      (ch : Supply) (v : ℕ) (m : SharedMem milli nought)
      → v < 2 ^ 31
      → receive_voltage milli nought (some (reading ch v)) m
        ≡ (1, record m { voltage = set m.voltage (supply_index ch) (milli (plus v)) })
  unfolding receive_voltage strncmp_eq skip_space skip_chars
  receive_voltage-reading pri v m small =
      ap (λ (i : Signed). (1, record m { voltage = set m.voltage 0 (milli i) }))
        (atol-reading v small)
  receive_voltage-reading sec v m small =
      ap (λ (i : Signed). (1, record m { voltage = set m.voltage 1 (milli i) }))
        (atol-reading v small)

  -- The segment with a voltage at a place.
  abbrev stored : Segment milli nought → ℕ → F → Segment milli nought
  stored g place volt = record g { mem = record g.mem { voltage = set g.mem.voltage place volt } }

  on_segment-reading :
      (ch : Supply) (v : ℕ) (g : Segment milli nought)
      → g.attached ≡ true
      → v < 2 ^ 31
      → on_segment milli nought (receive_voltage milli nought) (some (reading ch v)) g
        ≡ (1, stored g (supply_index ch) (milli (plus v)))
  unfolding on_segment through
  on_segment-reading ch v g live small =
      rw (receive_voltage-reading ch v g.mem small) (simp (live, through) refl)

  line_tail :
      (digits unit rest : List ℕ)
      → (digits ++ (unit ++ crlf)) ++ rest ≡ (digits ++ unit) ++ (13 ∷ 10 ∷ rest)
  line_tail digits unit rest =
      sym (++_assoc digits (unit ++ crlf) rest)
      ∙ ap (◌++◌ digits) (sym (++_assoc unit crlf rest))
      ∙ ++_assoc digits unit (13 ∷ 10 ∷ rest)

  voltage_text :
      (ch : Supply) (v : ℕ) (rest : List ℕ)
      → (codes "Voltage: "
            ++ (supply_name ch ++ (codes " " ++ (format_unsigned v ++ (codes " mV" ++ crlf)))))
          ++ rest
        ≡ (codes "Voltage" ++ (58 ∷ reading ch v)) ++ (13 ∷ 10 ∷ rest)
  voltage_text pri v rest =
      ap (λ (t : List ℕ). codes "Voltage: Pri " ++ t)
        (line_tail (format_unsigned v) (codes " mV") rest)
  voltage_text sec v rest =
      ap (λ (t : List ℕ). codes "Voltage: Sec " ++ t)
        (line_tail (format_unsigned v) (codes " mV") rest)

  -- A voltage reply's line, read by the daemon.
  voltage_line :
      (n : ℕ) (ch : Supply) (v : ℕ) (rest : List ℕ) (m : Segment milli nought)
      → m.attached ≡ true
      → v < 2 ^ 31
      → process_string
          (cmd_table milli nought)
          ((replicate n 10 ++ (codes "Voltage" ++ (58 ∷ reading ch v))) ++ (13 ∷ 10 ∷ rest))
          m
        ≡ (handled 1, kept n ++ (10 ∷ rest), stored m (supply_index ch) (milli (plus v)))
  unfolding cmd_table scan_table strncmp_eq argument
  voltage_line n ch v rest m live small =
      process_string_reply (cmd_table milli nought) n 86 (codes "oltage") (reading ch v) (10 ∷ rest)
        m refl (ground arith) (ground arith) (reading-Without ch v)
      ∙ rw (on_segment-reading ch v m live small)

  -- With the shared memory attached, where the argument of the firmware's `volt` command names a
  -- supply whose voltage is below 2^31, the daemon handles the reply, with any number of line ends
  -- in front and any text behind: it stores the voltage that the firmware computed, in thousandths,
  -- at the place of that supply, changes nothing else, and leaves a line end and the text behind.
  pub voltage_report :
      (d : FlashDriver) (build : List ℕ) (ch : Supply) (argument buffer : List ℕ)
      (s : System d build) (n : ℕ) (rest : List ℕ) (m : Segment milli nought)
      → m.attached ≡ true
      → parse_supply (cp_skip_space argument) ≡ some ch
      → PowerChanel.get_volts (chanel d build s ch) < 2 ^ 31
      → process_string
          (cmd_table milli nought)
          (replicate n 10 ++ ((cmd_voltage d build argument buffer s).buffer ++ rest))
          m
        ≡ (
          handled 1,
          kept n ++ (10 ∷ rest),
          record m {
            mem = record m.mem {
              voltage =
                  set m.mem.voltage
                    (supply_index ch)
                    (milli (plus (PowerChanel.get_volts (chanel d build s ch))));
            };
          },
        )
  voltage_report d build ch arg buffer s n rest m live e small =
      let v = PowerChanel.get_volts (chanel d build s ch) in
      ap
        (λ (r : Reply (System d build)).
          process_string (cmd_table milli nought) (replicate n 10 ++ (r.buffer ++ rest)) m)
        (cmd_voltage-answer d build ch arg buffer s e)
      ∙ ap (λ (t : List ℕ). process_string (cmd_table milli nought) t m)
          (ap (◌++◌ (replicate n 10)) (voltage_text ch v rest)
            ∙ ++_assoc (replicate n 10) (codes "Voltage" ++ (58 ∷ reading ch v)) (13 ∷ 10 ∷ rest))
      ∙ voltage_line n ch v rest m live small

  current_reading : Supply → List ℕ
  current_reading ch = codes " " ++ (supply_name ch ++ codes " 0 mA")

  current_text :
      (p : PowerChanel) (ch : Supply) (n : ℕ) (rest : List ℕ)
      → replicate n 10
          ++ ((codes "Current: "
                ++ (supply_name ch
                    ++ (codes " "
                        ++ (format_signed (PowerChanel.get_current p) ++ (codes " mA" ++ crlf)))))
              ++ rest)
        ≡ (replicate n 10 ++ (codes "Current" ++ (58 ∷ current_reading ch))) ++ (13 ∷ 10 ∷ rest)
  unfolding format_signed format_unsigned digits_onto PowerChanel.get_current current_reading
  current_text p pri n rest = ++_assoc (replicate n 10) (codes "Current: Pri 0 mA") (13 ∷ 10 ∷ rest)
  current_text p sec n rest = ++_assoc (replicate n 10) (codes "Current: Sec 0 mA") (13 ∷ 10 ∷ rest)

  current_line :
      (n : ℕ) (ch : Supply) (rest : List ℕ) (m : Segment milli nought)
      → process_string
          (cmd_table milli nought)
          ((replicate n 10 ++ (codes "Current" ++ (58 ∷ current_reading ch))) ++ (13 ∷ 10 ∷ rest))
          m
        ≡ (no_match, kept n ++ (10 ∷ rest), m)
  unfolding cmd_table scan_table strncmp_eq current_reading
  current_line n pri rest m =
      process_string_reply (cmd_table milli nought) n 67 (codes "urrent") (codes " Pri 0 mA")
        (10 ∷ rest) m refl (ground arith) (ground arith) (ground arith)
  current_line n sec rest m =
      process_string_reply (cmd_table milli nought) n 67 (codes "urrent") (codes " Sec 0 mA")
        (10 ∷ rest) m refl (ground arith) (ground arith) (ground arith)

  -- Where the argument of the firmware's `current` command names a supply, the daemon does not know
  -- the reply, with any number of line ends in front and any text behind: it changes no shared
  -- value, and `CmdParse_ProcessString` returns -1 although it has taken the line off the string.
  pub current_report :
      (d : FlashDriver) (build : List ℕ) (ch : Supply) (argument buffer : List ℕ)
      (s : System d build) (n : ℕ) (rest : List ℕ) (m : Segment milli nought)
      → parse_supply (cp_skip_space argument) ≡ some ch
      → process_string
          (cmd_table milli nought)
          (replicate n 10 ++ ((cmd_current d build argument buffer s).buffer ++ rest))
          m
        ≡ (no_match, kept n ++ (10 ∷ rest), m)
  current_report d build ch arg buffer s n rest m e =
      ap
        (λ (r : Reply (System d build)).
          process_string (cmd_table milli nought) (replicate n 10 ++ (r.buffer ++ rest)) m)
        (cmd_current-answer d build ch arg buffer s e)
      ∙ ap (λ (t : List ℕ). process_string (cmd_table milli nought) t m)
          (current_text (chanel d build s ch) ch n rest)
      ∙ current_line n ch rest m
