-- ===== src/Firmware/CmdProcessor/Tests.antt =====
-- A table of two words.
use power_monitor.Prelude.{ℕ, ◌+◌, ◌≡◌, ◌⊎◌, [], ◌∷◌}
use power_monitor.Prelude.Text.{codes}
use power_monitor.Firmware.CmdProcessor.{
  done, failed, CmdHandler, CmdTable, cp_lookup, cp_skip_chars,
}
use power_monitor.Firmware.CmdProcessor.Lookup.{NoMatch, FirstMatch, cp_lookup_cases}

abbrev add : ℕ → CmdHandler ℕ
add n argument buffer s = record { status = done; buffer = argument; state = s + n }

abbrev words : CmdTable ℕ
words = (codes "one", add 1) ∷ (codes "two", add 2) ∷ []

cp_lookup_cases_example :
    ((vector : CmdHandler ℕ) × FirstMatch (codes "two x") words vector
      × (cp_lookup (codes "two x") words 0 ≡ vector (cp_skip_chars (codes "two x")) [] 0))
    ⊎ (NoMatch (codes "two x") words
        × (cp_lookup (codes "two x") words 0 ≡ record { status = failed; buffer = []; state = 0 }))
cp_lookup_cases_example = cp_lookup_cases (codes "two x") words 0
