-- ===== src/Firmware/Console/Line/Typing.antt =====
-- firmware/PowerMon/src/main.c, `Run_Config`: a line that is typed is the command that is looked up.
use power_monitor.Prelude.{
  ℕ, suc, ◌+◌, ◌<◌, ◌≡◌, refl, sym, ap, ◌∙◌, inl, inr, Bool, true, false, not, ◌&&◌, List, [], ◌∷◌,
  ◌++◌, length, length-append, get_or, drop, arith, ◌==◌,
}
use mathlib.Core.List.{append_assoc, append-nil, nil≢cons}
use mathlib.Core.Path.{ap₂, subst}
use power_monitor.Firmware.Flash.{FlashDriver}
use power_monitor.Firmware.UartBuffer.{Uart, rx_ready, get_char}
use power_monitor.Firmware.UartBuffer.Receive.{IsValid, received, get_char-received}
use power_monitor.Firmware.Console.{System}
use power_monitor.Firmware.Console.Line.Typed.{
  IsPlain, ArePlain, char, Typed, c_string-terminated, store_char-Typed, two_bytes,
}
use power_monitor.Firmware.Console.Line.{
  LineBuffer, store_char, c_string, run_command, handle_char, run_config,
}

module _ (d : FlashDriver) (build : List ℕ) where
  -- The rounds behind a character that the loop takes.
  abbrev after : ℕ → LineBuffer × System d build → Bool × LineBuffer × System d build
  after fuel r = run_config d build fuel r.0 r.1

  -- A round takes the oldest character.
  run_config-takes :
      (fuel : ℕ) (l : LineBuffer) (s : System d build) (c : ℕ) (more : List ℕ)
      → IsValid s.uart
      → s.halted ≡ false
      → received s.uart ≡ c ∷ more
      → (u : Uart) × IsValid u
        × (received u ≡ more)
        × (run_config d build (suc fuel) l s
            ≡ after fuel (handle_char d build l (record s { uart = u }) c))
  unfolding run_config
  run_config-takes fuel l s c more v running e = elim (get_char-received s.uart v) [
    | inl (idle, none_left, same) ↦ absurd (nil≢cons (sym none_left ∙ e))
    | inr (ready, front, valid) ↦
        let both = sym front ∙ e in
        let first : (get_char s.uart).0 ≡ c = ap (λ (l : List ℕ). get_or l 0 0) both in
        let goes : (rx_ready s.uart && not s.halted) ≡ true =
          ap₂ (λ (a b : Bool). a && not b) ready running in
        (
          (get_char s.uart).1,
          valid,
          ap (drop 1) both,
          rw goes (
              ap
                (λ (n : ℕ).
                  after fuel (handle_char d build l (record s { uart = (get_char s.uart).1 }) n))
                first),
        )
  ]

  -- A plain character goes to the line.
  run_config-stores :
      (fuel : ℕ) (l : LineBuffer) (s : System d build) (c : ℕ) (more : List ℕ)
      → IsValid s.uart
      → s.halted ≡ false
      → IsPlain c
      → received s.uart ≡ c ∷ more
      → (u : Uart) × IsValid u
        × (received u ≡ more)
        × (run_config d build (suc fuel) l s
            ≡ run_config d build fuel (store_char l c) (record s { uart = u }))
  unfolding handle_char
  run_config-stores fuel l s c more v running plain e =
      let (u, valid, left, taken) = run_config-takes fuel l s c more v running e in
      (u, valid, left, taken ∙ rw (plain.no_end, handle_char) refl)

  -- What the loop has after the characters of a text, in front of the line end.
  record AtEnd (fuel : ℕ) (l : LineBuffer) (s : System d build) (typed rest : List ℕ) (before : ℕ)
      : Type 0 where
    line : LineBuffer
    uart : Uart
    tail : List ℕ
    valid : IsValid uart
    left : received uart ≡ 13 ∷ rest
    typed_line : Typed line typed (0 ∷ tail)
    same : run_config d build before l s ≡ run_config d build fuel line (record s { uart = uart })

  stores_all :
      (text typed tail rest : List ℕ) (fuel : ℕ) (l : LineBuffer) (s : System d build)
      → ArePlain text
      → length typed + length text < 256
      → Typed l typed (0 ∷ tail)
      → IsValid s.uart
      → s.halted ≡ false
      → received s.uart ≡ text ++ (13 ∷ rest)
      → AtEnd fuel l s (typed ++ text) rest (length text + fuel)
  stores_all [] typed tail rest fuel l s p short t v running e = record {
    line = l;
    uart = s.uart;
    tail = tail;
    valid = v;
    left = e;
    typed_line = rw (append-nil typed) t;
    same = ap (λ (n : ℕ). run_config d build n l s) (omega arith);
  }
  stores_all (c ∷ text) typed [] rest fuel l s p short t v running e =
      absurd (omega (arith, length-append typed (0 ∷ []), ap length t.buffer, t.bytes))
  stores_all (c ∷ text) typed (y ∷ tail) rest fuel l s (char p ps) short t v running e =
      let (u, valid, left, stored) =
        run_config-stores (length text + fuel) l s c (text ++ (13 ∷ rest)) v running p e in
      let r =
        stores_all text (typed ++ (c ∷ [])) tail rest fuel (store_char l c) (record s { uart = u })
          ps (omega (arith, length-append typed (c ∷ []))) (store_char-Typed l typed tail 0 y c t)
          valid running left in
      record {
        line = r.line;
        uart = r.uart;
        tail = r.tail;
        valid = r.valid;
        left = r.left;
        typed_line =
            subst (λ (k : List ℕ). Typed r.line k (0 ∷ r.tail)) (append_assoc typed (c ∷ []) text)
              r.typed_line;
        same = ap (λ (n : ℕ). run_config d build n l s) (omega arith) ∙ stored ∙ r.same;
      }

  -- The line end runs what was typed.
  run_config-runs :
      (fuel : ℕ) (l : LineBuffer) (s : System d build) (rest : List ℕ)
      → IsValid s.uart
      → s.halted ≡ false
      → (l.size == 0) ≡ false
      → received s.uart ≡ 13 ∷ rest
      → (u : Uart) × IsValid u
        × (received u ≡ rest)
        × (run_config d build (suc fuel) l s
            ≡ after fuel (run_command d build l (record s { uart = u })))
  unfolding handle_char
  run_config-runs fuel l s rest v running typed e =
      let (u, valid, left, taken) = run_config-takes fuel l s 13 rest v running e in
      (u, valid, left, taken ∙ rw (typed, handle_char) refl)

  line_end :
      (fuel : ℕ) (l : LineBuffer) (s : System d build) (text rest : List ℕ) (before : ℕ)
      → ArePlain text
      → 0 < length text
      → s.halted ≡ false
      → AtEnd (suc fuel) l s text rest before
      → (l' : LineBuffer) × (u : Uart) × (c_string l'.msg_buf ≡ text)
        × IsValid u
        × (received u ≡ rest)
        × (run_config d build before l s
            ≡ after fuel (run_command d build l' (record s { uart = u })))
  line_end fuel l s text rest before plain typed running r =
      let some_typed : (r.line.size == 0) ≡ false = ground (arith, r.typed_line.size) in
      let (u', valid', left', run) =
        run_config-runs fuel r.line (record s { uart = r.uart }) rest r.valid running some_typed
          r.left in
      (
        r.line,
        u',
        ap c_string r.typed_line.buffer ∙ c_string-terminated text r.tail plain,
        valid',
        left',
        r.same ∙ run,
      )

  -- Where the rings are valid, the line is empty with a buffer of 256 bytes, no restart is under
  -- way, and the characters that wait begin with a text of 1 to 255 characters, none of them a line
  -- end or 0, and a carriage return: `Run_Config` takes all of these characters, and goes on as
  -- after the command on a buffer whose C string is that text, with the other characters still
  -- waiting.
  pub run_config-command :
      (c : ℕ) (text rest : List ℕ) (fuel : ℕ) (l : LineBuffer) (s : System d build)
      → ArePlain (c ∷ text)
      → length (c ∷ text) < 256
      → l.size ≡ 0
      → length l.msg_buf ≡ 256
      → IsValid s.uart
      → s.halted ≡ false
      → received s.uart ≡ (c ∷ text) ++ (13 ∷ rest)
      → (l' : LineBuffer) × (u : Uart) × (c_string l'.msg_buf ≡ c ∷ text)
        × IsValid u
        × (received u ≡ rest)
        × (run_config d build (suc (suc (length text + fuel))) l s
            ≡ after fuel (run_command d build l' (record s { uart = u })))
  run_config-command c text rest fuel l s (char p ps) short fresh bytes v running e =
      let (x, y, tail, eq) = two_bytes l.msg_buf bytes in
      let t : Typed l [] (x ∷ y ∷ tail) = record { size = fresh; buffer = eq; bytes = bytes } in
      let (u, valid, left, stored) =
        run_config-stores (suc (length text + fuel)) l s c (text ++ (13 ∷ rest)) v running p e in
      let r =
        stores_all text (c ∷ []) tail rest (suc fuel) (store_char l c) (record s { uart = u }) ps
          (omega (arith, short)) (store_char-Typed l [] tail x y c t) valid running left in
      let (l', u', same_text, valid', left', run) =
        line_end fuel (store_char l c) (record s { uart = u }) (c ∷ text) rest
          (length text + suc fuel) (char p ps) (omega arith) running r in
      (
        l',
        u',
        same_text,
        valid',
        left',
        stored ∙ shorter (store_char l c) (record s { uart = u }) ∙ run,
      )
    where
      shorter :
          (l : LineBuffer) (s : System d build)
          → run_config d build (suc (length text + fuel)) l s
            ≡ run_config d build (length text + suc fuel) l s
      shorter l s = ap (λ (n : ℕ). run_config d build n l s) (omega arith)
