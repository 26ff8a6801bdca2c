-- ===== src/Firmware/CmdProcessor/Lookup.antt =====
-- Which handler `CP_Lookup` calls.
use power_monitor.Prelude.{
  ℕ, ◌≡◌, ◌≢◌, ◌⊎◌, ◌∙◌, inl, inr, refl, sym, false, List, [], ◌∷◌, ◌++◌, length, Bool-cases,
}
use mathlib.Core.Bool.{false≢true}
use power_monitor.Prelude.Text.{strncmp_eq}
use power_monitor.Prelude.Text.Words.{strncmp_eq-prefix, strncmp_eq-append}
use power_monitor.Firmware.CmdProcessor.{
  failed, CmdHandler, CmdTable, scan_table, cp_lookup, cp_skip_chars,
}

module _ {S : Type 0} where
  -- No entry of the table is a prefix of the line.
  abbrev pub NoMatch : List ℕ → CmdTable S → Type 0
  NoMatch line [] = Unit
  NoMatch line ((cmd, vector) ∷ tbl) = ((rest : List ℕ) → line ≢ cmd ++ rest) × NoMatch line tbl

  -- The first entry of the table whose word begins the line.
  pub data FirstMatch (line : List ℕ) : CmdTable S → CmdHandler S → Type 0 where
    here :
        {cmd : List ℕ} {vector : CmdHandler S} {tbl : CmdTable S} (rest : List ℕ)
        → line ≡ cmd ++ rest
        → FirstMatch line ((cmd, vector) ∷ tbl) vector
    later :
        {cmd : List ℕ} {vector v : CmdHandler S} {tbl : CmdTable S}
        → ((rest : List ℕ) → line ≢ cmd ++ rest)
        → FirstMatch line tbl v
        → FirstMatch line ((cmd, vector) ∷ tbl) v

  -- Either an entry of the table is the first whose word begins the line, and `CP_Lookup` is its
  -- handler on an empty buffer and the line from its first blank on; or no entry's word begins the
  -- line, and `CP_Lookup` fails with an empty buffer and the state as it was.
  pub cp_lookup_cases :
      (line : List ℕ) (tbl : CmdTable S) (s : S)
      → ((vector : CmdHandler S) × FirstMatch line tbl vector
          × (cp_lookup line tbl s ≡ vector (cp_skip_chars line) [] s))
        ⊎ (NoMatch line tbl
            × (cp_lookup line tbl s ≡ record { status = failed; buffer = []; state = s }))
  unfolding cp_lookup scan_table
  cp_lookup_cases line [] s = inr (tt, refl)
  cp_lookup_cases line ((cmd, vector) ∷ tbl) s =
      elim (Bool-cases (strncmp_eq cmd line (length cmd))) [
        | inl e ↦ let (rest, eq) = strncmp_eq-prefix cmd line e in inl (vector, here rest eq, rw e)
        | inr e ↦ elim (cp_lookup_cases line tbl s) [
          | inl (v, first, eq) ↦ inl (v, later (no_prefix cmd line e) first, rw e eq)
          | inr (absent, eq) ↦ inr ((no_prefix cmd line e, absent), rw e eq)
        ]
      ]
    where
      no_prefix :
          (cmd line : List ℕ)
          → strncmp_eq cmd line (length cmd) ≡ false
          → (rest : List ℕ) → line ≢ cmd ++ rest
      no_prefix cmd line e rest eq = false≢true (sym e ∙ rw eq (strncmp_eq-append cmd rest))
