-- ===== src/Daemon/CmdParse.antt =====
-- daemon/src/CmdParse.c: takes one line off the receive buffer and calls its handler. The buffer is
-- the C string in it.
pub mod Keeps
pub mod Lines
pub mod Reply
use power_monitor.Prelude.{
  ℕ, zero, suc, Bool, true, false, List, [], ◌∷◌, ◌++◌, Option, none, some, length, ltb, ◌==◌,
  if◌then◌else◌,
}
use power_monitor.Prelude.Text.{strncmp_eq, skip_space, skip_chars}

abbrev pub cmd_parse_skip_space : List ℕ → List ℕ
cmd_parse_skip_space = skip_space

abbrev pub cmd_parse_skip_chars : List ℕ → List ℕ
cmd_parse_skip_chars = skip_chars

-- `strchr`: what stands before the first `c` and behind it.
unfoldable pub strchr : List ℕ → ℕ → Option (List ℕ × List ℕ)
strchr [] c = none
strchr (x ∷ s) c =
    if x == c
    then some ([], s)
    else elim (strchr s c) [ none ↦ none | some (a, b) ↦ some (x ∷ a, b) ]

-- `rv`: -1, or what the handler returned.
pub data Rv : Type 0 where
  no_match : Rv
  handled : ℕ → Rv

-- A `Cmd_Callback`: the argument (`none` for NULL) and the state of the program.
abbrev pub Callback : Type 0 → Type 0
Callback S = Option (List ℕ) → S → ℕ × S

abbrev pub CmdFuncs : Type 0 → Type 0
CmdFuncs S = List (List ℕ × Callback S)

-- `if ( string[0] == '\n' ) string++;`: the character that is stepped over, and the rest.
pub step_newline : List ℕ → List ℕ × List ℕ
step_newline [] = ([], [])
step_newline (c ∷ s) = if c == 10 then (c ∷ [], s) else ([], c ∷ s)

-- The argument behind the colon; an empty one counts as none.
unfoldable pub argument : List ℕ → Option (List ℕ)
argument [] = none
argument (c ∷ s) = some (c ∷ s)

-- The text up to the colon, and the argument.
pub split_colon : List ℕ → List ℕ × Option (List ℕ)
unfolding argument
split_colon text = elim (strchr text 58) [ none ↦ (text, none) | some (a, b) ↦ (a, argument b) ]

module _ {S : Type 0} where
  -- The scan of the table.
  unfoldable pub scan_table : CmdFuncs S → List ℕ → Option (List ℕ) → S → Rv × S
  scan_table [] cmd arg s = (no_match, s)
  scan_table ((word, func) ∷ table) cmd arg s =
      let (rv, s') = func arg s in
      if strncmp_eq word cmd (length word) then (handled rv, s') else scan_table table cmd arg s

  -- `if ( strlen(cmd) > 0 )`
  pub run_line : CmdFuncs S → List ℕ → S → Rv × S
  unfolding split_colon scan_table
  run_line table text s =
      let (front, arg) = split_colon text in
      let cmd = cmd_parse_skip_space front in
      if ltb 0 (length cmd) then scan_table table cmd arg s else (no_match, s)

  -- `CmdParse_ProcessString`: the result, the string that `memmove` leaves, and the state.
  pub process_string : CmdFuncs S → List ℕ → S → Rv × List ℕ × S
  unfolding step_newline run_line
  process_string table string s = elim (strchr string 13) [
    | none ↦ (no_match, string, s)
    | some (line, rest) ↦
        let (newline, text) = step_newline line in
        let (rv, s') = run_line table text s in (rv, newline ++ rest, s')
  ]

  -- The loop of the daemon's receiver, `while ( rv >= 0 )`, with fuel; the Boolean says that it
  -- ended by its test.
  pub drain : ℕ → CmdFuncs S → List ℕ → S → Bool × List ℕ × S
  drain zero table string s = (false, string, s)
  drain (suc fuel) table string s =
      let (rv, string', s') = process_string table string s in
      let rest = drain fuel table string' s' in
      elim rv [ no_match ↦ (true, string', s') | handled n ↦ rest ]
