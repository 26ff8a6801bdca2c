-- ===== src/Daemon/CmdParse/Reply.antt =====
-- A reply of the form `Word: text`, with line ends in front that earlier replies left.
use power_monitor.Prelude.{
  ℕ, zero, suc, ◌≡◌, ◌≢◌, ◌∙◌, refl, ap, true, false, List, [], ◌∷◌, ◌++◌, length, replicate, arith,
  ltb, ◌==◌,
}
use power_monitor.Prelude.Text.{is_space, skip_space}
use power_monitor.Daemon.CmdParse.{
  CmdFuncs, step_newline, argument, split_colon, scan_table, run_line, process_string,
}
use power_monitor.Daemon.CmdParse.Lines.{Without, strchr-append, process_string_line}

pub Without-append : (c : ℕ) (a b : List ℕ) → Without c a → Without c b → Without c (a ++ b)
Without-append c [] b u w = w
Without-append c (x ∷ a) b (ne, u) w = (ne, Without-append c a b u w)

Without-replicate : (c n : ℕ) → 10 ≢ c → Without c (replicate n 10)
Without-replicate c zero ne = tt
Without-replicate c (suc n) ne = (ne, Without-replicate c n ne)

skip_space-line_ends :
    (n c : ℕ) (s : List ℕ) → is_space c ≡ false → skip_space (replicate n 10 ++ (c ∷ s)) ≡ c ∷ s
unfolding skip_space
skip_space-line_ends zero c s h = rw h
skip_space-line_ends (suc n) c s h = skip_space-line_ends n c s h

ten_ne_colon : ◌≢◌ {A = ℕ} 10 58
ten_ne_colon = omega arith

some_char : (n : ℕ) → ltb 0 (suc n) ≡ true
some_char n = ground arith

no_line_end : (c : ℕ) → is_space c ≡ false → (c == 10) ≡ false
no_line_end c h = ground arith

pub ++_assoc {ℓ} : {A : Type ℓ} (a b c : List A) → a ++ (b ++ c) ≡ (a ++ b) ++ c
++_assoc [] b c = refl
++_assoc (x ∷ a) b c = ap (◌∷◌ x) (++_assoc a b c)

-- The line end that stays in front.
abbrev pub kept : ℕ → List ℕ
kept zero = []
kept (suc n) = 10 ∷ []

module _ {S : Type 0} (table : CmdFuncs S) where
  run_line-word :
      (n c : ℕ) (word text : List ℕ) (s : S)
      → is_space c ≡ false
      → Without 58 (c ∷ word)
      → run_line table (replicate n 10 ++ ((c ∷ word) ++ (58 ∷ text))) s
        ≡ scan_table table (c ∷ word) (argument text) s
  unfolding run_line split_colon
  run_line-word n c word text s h w = rw (
    ++_assoc (replicate n 10) (c ∷ word) (58 ∷ text),
    split_colon,
    strchr-append 58 (replicate n 10 ++ (c ∷ word)) text
        (Without-append 58 (replicate n 10) (c ∷ word) (Without-replicate 58 n ten_ne_colon) w),
    skip_space-line_ends n c word h,
    some_char (length word),
  )

  whole_line :
      (n c : ℕ) (word text : List ℕ)
      → Without 13 (c ∷ word)
      → Without 13 text
      → Without 13 (replicate n 10 ++ ((c ∷ word) ++ (58 ∷ text)))
  whole_line n c word text w t =
      Without-append 13 (replicate n 10) ((c ∷ word) ++ (58 ∷ text))
        (Without-replicate 13 n (omega arith))
        (Without-append 13 (c ∷ word) (58 ∷ text) w (omega arith, t))

  pub process_string_reply :
      (n c : ℕ) (word text rest : List ℕ) (s : S)
      → is_space c ≡ false
      → Without 58 (c ∷ word)
      → Without 13 (c ∷ word)
      → Without 13 text
      → process_string table ((replicate n 10 ++ ((c ∷ word) ++ (58 ∷ text))) ++ (13 ∷ rest)) s
        ≡ (let (rv, s') = scan_table table (c ∷ word) (argument text) s in (rv, kept n ++ rest, s'))
  unfolding step_newline
  process_string_reply zero c word text rest s h w58 w13 t13 =
      process_string_line table ((c ∷ word) ++ (58 ∷ text)) rest s
        (whole_line zero c word text w13 t13)
      ∙ rw (no_line_end c h, run_line-word zero c word text s h w58)
  process_string_reply (suc n) c word text rest s h w58 w13 t13 =
      process_string_line table (replicate (suc n) 10 ++ ((c ∷ word) ++ (58 ∷ text))) rest s
        (whole_line (suc n) c word text w13 t13)
      ∙ rw (run_line-word n c word text s h w58)
