-- ===== src/Daemon/CmdParse/Lines.antt =====
-- Lines come off the buffer whole and in order, and the receiver's loop ends.
use power_monitor.Prelude.{
  ℕ, zero, suc, ◌+◌, ◌≤◌, ◌<◌, ◌≡◌, ◌≢◌, ◌⊎◌, ◌∙◌, inl, inr, refl, sym, ap, Bool, true, false, List,
  [], ◌∷◌, ◌++◌, Option, none, some, length, length-append, arith, Bool-cases, Option-cases,
  ==_refl, ==_of_ne, ==→eq, ◌==◌,
}
use mathlib.Core.Path.{subst}
use power_monitor.Daemon.CmdParse.{
  strchr, Rv, no_match, handled, CmdFuncs, step_newline, run_line, process_string, drain,
}

-- A text without the character.
abbrev pub Without : ℕ → List ℕ → Type 0
Without c [] = Unit
Without c (x ∷ s) = (x ≢ c) × Without c s

pub strchr-append :
    (c : ℕ) (s rest : List ℕ) → Without c s → strchr (s ++ (c ∷ rest)) c ≡ some (s, rest)
unfolding strchr
strchr-append c [] rest w = rw (==_refl c)
strchr-append c (x ∷ s) rest (ne, w) = rw (==_of_ne x c ne, strchr-append c s rest w)

-- What an answer of `strchr` says of the text.
abbrev Parts : ℕ → List ℕ → Option (List ℕ × List ℕ) → Type 0
Parts c s none = Without c s
Parts c s (some (a, b)) = (s ≡ a ++ (c ∷ b)) × Without c a

x_is_not : (c x : ℕ) → (x == c) ≡ false → x ≢ c
x_is_not c x ne = ground arith

strchr-hit : (c x : ℕ) (s : List ℕ) → (x == c) ≡ true → strchr (x ∷ s) c ≡ some ([], s)
unfolding strchr
strchr-hit c x s eq = rw (eq, strchr)

strchr-miss :
    (c x : ℕ) (s : List ℕ)
    → (x == c) ≡ false
    → strchr (x ∷ s) c ≡ elim (strchr s c) [ none ↦ none | some (a, b) ↦ some (x ∷ a, b) ]
unfolding strchr
strchr-miss c x s ne = rw (ne, strchr)

Parts-extend :
    (c x : ℕ) (s : List ℕ) (o : Option (List ℕ × List ℕ))
    → (x == c) ≡ false
    → Parts c s o
    → Parts c (x ∷ s) (elim o [ none ↦ none | some (a, b) ↦ some (x ∷ a, b) ])
Parts-extend c x s none ne p = (x_is_not c x ne, p)
Parts-extend c x s (some (a, b)) ne (e, w) = (ap (λ r. x ∷ r) e, (x_is_not c x ne, w))

strchr-Parts : (c : ℕ) (s : List ℕ) → Parts c s (strchr s c)
unfolding strchr
strchr-Parts c [] = tt
strchr-Parts c (x ∷ s) = elim (Bool-cases (x == c)) [
  | inl eq ↦
      subst (Parts c (x ∷ s)) (sym (strchr-hit c x s eq)) (ap (λ y. y ∷ s) (==→eq x c eq), tt)
  | inr ne ↦
      subst (Parts c (x ∷ s)) (sym (strchr-miss c x s ne))
        (Parts-extend c x s (strchr s c) ne (strchr-Parts c s))
]

length-step_newline : (l : List ℕ) → length (step_newline l).0 ≤ length l
unfolding step_newline
length-step_newline [] = omega arith
length-step_newline (c ∷ s) = ground arith

module _ {S : Type 0} (table : CmdFuncs S) where
  -- Where a line without a carriage return stands in front of one, `CmdParse_ProcessString` handles
  -- that line alone, whatever stands behind it, and leaves what stands behind it, after the newline
  -- with which the line began, if it did.
  pub process_string_line :
      (line rest : List ℕ) (s : S)
      → Without 13 line
      → process_string table (line ++ (13 ∷ rest)) s ≡ (
          let (newline, text) = step_newline line in
          let (rv, s') = run_line table text s in (rv, newline ++ rest, s'))
  unfolding process_string
  process_string_line line rest s w = rw (strchr-append 13 line rest w, process_string)

  process_string-rest :
      (string line rest : List ℕ) (s : S)
      → strchr string 13 ≡ some (line, rest)
      → (process_string table string s).1 ≡ (step_newline line).0 ++ rest
  unfolding process_string
  process_string-rest string line rest s e = rw (e, process_string)

  rest_shorter :
      (string line rest : List ℕ) (s : S)
      → strchr string 13 ≡ some (line, rest)
      → Parts 13 string (some (line, rest))
      → length (process_string table string s).1 < length string
  rest_shorter string line rest s e (parts, w) =
      let all : length string ≡ length line + suc (length rest) =
        ap length parts ∙ length-append line (13 ∷ rest) in
      let left : length (process_string table string s).1
          ≡ length (step_newline line).0 + length rest =
        ap length (process_string-rest string line rest s e)
        ∙ length-append (step_newline line).0 rest in
      let short = length-step_newline line in omega arith

  -- A call that handles a line leaves a shorter string; any other result is -1.
  process_string-shorter :
      (string : List ℕ) (s : S)
      → ((process_string table string s).0 ≡ no_match)
        ⊎ (length (process_string table string s).1 < length string)
  unfolding process_string
  process_string-shorter string s = elim (Option-cases (strchr string 13)) [
    | inl e ↦ inl (rw (e, process_string))
    | inr ((line, rest), e) ↦
        inr (rest_shorter string line rest s e (subst (Parts 13 string) e (strchr-Parts 13 string)))
  ]

  drain_round :
      (fuel : ℕ) (string : List ℕ) (s : S)
      → ((rest : List ℕ) (s' : S) → length rest < fuel → (drain fuel table rest s').0 ≡ true)
      → length string < suc fuel
      → (r : Rv × List ℕ × S) → (r.0 ≡ no_match) ⊎ (length r.1 < length string)
      → (elim r.0 as (λ _. Bool × List ℕ × S) [
        | no_match ↦ (true, r.1, r.2)
        | handled n ↦ drain fuel table r.1 r.2
      ]).0
        ≡ true
  drain_round fuel string s next lt (no_match, string', s') either = refl
  drain_round fuel string s next lt (handled n, string', s') (inl e) = absurd (ground arith)
  drain_round fuel string s next lt (handled n, string', s') (inr shorter) =
      next string' s' (omega arith)

  -- For any table of handlers, the receiver's loop over a string ends by its test within as many
  -- rounds as the string has characters, and one more.
  pub drain_ends :
      (fuel : ℕ) (string : List ℕ) (s : S)
      → length string < fuel
      → (drain fuel table string s).0 ≡ true
  unfolding drain
  drain_ends zero string s lt = absurd (omega arith)
  drain_ends (suc fuel) string s lt =
      drain_round fuel string s (drain_ends fuel) lt (process_string table string s)
        (process_string-shorter string s)
