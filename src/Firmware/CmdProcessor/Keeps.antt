-- ===== src/Firmware/CmdProcessor/Keeps.antt =====
-- firmware/PowerMon/src/CmdProcessor.c: a lookup keeps what every handler of its table keeps.
use power_monitor.Prelude.{ℕ, List, [], ◌∷◌, length, inl, inr, Bool-cases}
use power_monitor.Prelude.Text.{strncmp_eq}
use power_monitor.Firmware.CmdProcessor.{CmdHandler, CmdTable, scan_table, cp_lookup, cp_skip_chars}

module _ {S : Type 0} (P : S → Type 0) where
  abbrev pub Keeps : CmdHandler S → Type 0
  Keeps h = (argument buffer : List ℕ) (s : S) → P s → P (h argument buffer s).state

  -- Every handler of the table keeps the predicate.
  pub data AllKeep : CmdTable S → Type 0 where
    end : AllKeep []
    entry :
        {cmd : List ℕ} {vector : CmdHandler S} {tbl : CmdTable S}
        → Keeps vector
        → AllKeep tbl
        → AllKeep ((cmd, vector) ∷ tbl)

  pub cp_lookup-Keeps :
      (line : List ℕ) (tbl : CmdTable S) (s : S)
      → AllKeep tbl
      → P s
      → P (cp_lookup line tbl s).state
  unfolding cp_lookup scan_table
  cp_lookup-Keeps line [] s all p = p
  cp_lookup-Keeps line ((cmd, vector) ∷ tbl) s (entry k all) p =
      elim (Bool-cases (strncmp_eq cmd line (length cmd))) [
        | inl e ↦ rw e (k (cp_skip_chars line) [] s p)
        | inr e ↦ rw e (cp_lookup-Keeps line tbl s all p)
      ]
