-- ===== src/Daemon/CmdParse/Keeps.antt =====
-- daemon/src/CmdParse.c: the receiver's loop keeps what every handler of the table keeps.
use power_monitor.Prelude.{
  ℕ, zero, suc, Bool, true, inl, inr, List, [], ◌∷◌, Option, length, ltb, Bool-cases, Option-cases,
}
use power_monitor.Prelude.Text.{strncmp_eq}
use power_monitor.Daemon.CmdParse.{
  Callback, CmdFuncs, Rv, no_match, handled, cmd_parse_skip_space, split_colon, scan_table,
  run_line, process_string, strchr, step_newline, drain,
}

module _ {S : Type 0} (P : S → Type 0) where
  abbrev pub Keeps : Callback S → Type 0
  Keeps func = (arg : Option (List ℕ)) (s : S) → P s → P (func arg s).1

  pub data AllKeep : CmdFuncs S → Type 0 where
    end : AllKeep []
    entry :
        {word : List ℕ} {func : Callback S} {table : CmdFuncs S}
        → Keeps func
        → AllKeep table
        → AllKeep ((word, func) ∷ table)

  scan_table-Keeps :
      (table : CmdFuncs S) (cmd : List ℕ) (arg : Option (List ℕ)) (s : S)
      → AllKeep table
      → P s
      → P (scan_table table cmd arg s).1
  unfolding scan_table
  scan_table-Keeps [] cmd arg s all p = p
  scan_table-Keeps ((word, func) ∷ table) cmd arg s (entry k all) p =
      elim (Bool-cases (strncmp_eq word cmd (length word))) [
        | inl e ↦ rw e (k arg s p)
        | inr e ↦ rw e (scan_table-Keeps table cmd arg s all p)
      ]

  run_line-Keeps :
      (table : CmdFuncs S) (text : List ℕ) (s : S)
      → AllKeep table
      → P s
      → P (run_line table text s).1
  unfolding run_line
  run_line-Keeps table text s all p =
      let cmd = cmd_parse_skip_space (split_colon text).0 in
      elim (Bool-cases (ltb 0 (length cmd))) [
        | inl e ↦ rw e (scan_table-Keeps table cmd (split_colon text).1 s all p)
        | inr e ↦ rw e p
      ]

  process_string-Keeps :
      (table : CmdFuncs S) (string : List ℕ) (s : S)
      → AllKeep table
      → P s
      → P (process_string table string s).2
  unfolding process_string
  process_string-Keeps table string s all p = elim (Option-cases (strchr string 13)) [
    | inl e ↦ rw (e, process_string) p
    | inr ((line, rest), e) ↦
        rw (e, process_string) (run_line-Keeps table (step_newline line).1 s all p)
  ]

  drain_round-Keeps :
      (fuel : ℕ) (table : CmdFuncs S)
      → ((rest : List ℕ) (s : S) → P s → P (drain fuel table rest s).2)
      → (r : Rv × List ℕ × S) → P r.2
      → P
          (elim r.0 as (λ _. Bool × List ℕ × S) [
            | no_match ↦ (true, r.1, r.2)
            | handled k ↦ drain fuel table r.1 r.2
          ]).2
  drain_round-Keeps fuel table next (no_match, string, s) p = p
  drain_round-Keeps fuel table next (handled k, string, s) p = next string s p

  pub drain-Keeps :
      (fuel : ℕ) (table : CmdFuncs S) (string : List ℕ) (s : S)
      → AllKeep table
      → P s
      → P (drain fuel table string s).2
  unfolding drain
  drain-Keeps zero table string s all p = p
  drain-Keeps (suc fuel) table string s all p =
      drain_round-Keeps fuel table (λ rest s' k. drain-Keeps fuel table rest s' all k)
        (process_string table string s) (process_string-Keeps table string s all p)
