-- ===== src/Firmware/CmdProcessor.antt =====
-- firmware/PowerMon/src/CmdProcessor.c: the lookup of a command line in a table of handlers.
pub mod Keeps
pub mod Lookup
mod Tests
use power_monitor.Prelude.{ℕ, List, [], ◌∷◌, length, if◌then◌else◌}
use power_monitor.Prelude.Text.{strncmp_eq, skip_space, skip_chars}

-- The results of a handler and of `CP_Lookup`: 0 and -1.
pub data Status : Type 0 where
  done failed : Status

-- `CP_SkipChars` and `CP_SkipSpace`
abbrev pub cp_skip_chars : List ℕ → List ℕ
cp_skip_chars = skip_chars

abbrev pub cp_skip_space : List ℕ → List ℕ
cp_skip_space = skip_space

-- What a handler leaves: the `int` that it returns, the text in `resp->buffer`, and the state of
-- the rest of the program.
pub record Reply (S : Type 0) : Type 0 where
  pub status : Status
  pub buffer : List ℕ
  pub state : S

-- A `CmdHandler`: the argument, the text in the buffer, and the state.
abbrev pub CmdHandler : Type 0 → Type 0
CmdHandler S = List ℕ → List ℕ → S → Reply S

-- An entry of a `CmdTable`; the end of the list is the entry whose `cmd` is NULL.
abbrev pub CmdTable : Type 0 → Type 0
CmdTable S = List (List ℕ × CmdHandler S)

module _ {S : Type 0} where
  -- The loop of `CP_Lookup`, behind `resp->buffer[0] = 0`.
  pub scan_table : List ℕ → CmdTable S → S → Reply S
  scan_table line [] s = record { status = failed; buffer = []; state = s }
  scan_table line ((cmd, vector) ∷ tbl) s =
      if strncmp_eq cmd line (length cmd)
      then vector (cp_skip_chars line) [] s
      else scan_table line tbl s

  -- `CP_Lookup` with a response buffer.
  pub cp_lookup : List ℕ → CmdTable S → S → Reply S
  unfolding scan_table
  cp_lookup line tbl s = scan_table line tbl s
