-- ===== src/Firmware/Console/Settings.antt =====
-- firmware/PowerMon/src/main.c: what `calib` and `offset` with a number do.
mod Tests
use power_monitor.Prelude.{
  ℕ, ◌+◌, ◌%◌, ◌-◌, ◌/◌, ◌^◌, ◌<◌, ◌≡◌, refl, sym, ap, ◌∙◌, List, [], ◌∷◌, ◌++◌, Option, none, some,
  ◌==◌, if◌then◌else◌, arith,
}
use power_monitor.Prelude.Text.{
  codes, format_unsigned, format_signed, atol, atol_exact, number_value, FitsLong, Signed, plus,
  minus, to_word32,
}
use mathlib.Core.Path.{subst}
use power_monitor.Firmware.Flash.{DfToken, FlashDriver}
use power_monitor.Firmware.Eeprom.{Eeprom, u32}
use power_monitor.Firmware.Eeprom.Coherent.{Holds}
use power_monitor.Firmware.Eeprom.Memory.{Memory}
use power_monitor.Firmware.Eeprom.Words.{store4}
use power_monitor.Firmware.Eeprom.Settings.{AreBytes, write4-setting, store4-AreBytes}
use power_monitor.Firmware.PowerChanel
use power_monitor.Firmware.PowerChanel.{PowerChanel, set_volt_calib, set_volt_offset}
use power_monitor.Firmware.CmdProcessor.{Reply, Status, done, cp_skip_space, cp_skip_chars}
use power_monitor.Firmware.Console.{
  Supply, pri, sec, supply_name, volt_address, volt_offset_address, parse_supply, crlf, System,
  chanel, set_chanel, answer, store_calibration, store_offset, read_volt_calibration,
  write_volt_calibration, read_volt_offset, write_volt_offset, cmd_volt_calib, cmd_volt_offset,
}

pub to_word32-lt : (n : Signed) → to_word32 n < 2 ^ 32
unfolding to_word32
to_word32-lt (plus n) = omega arith
to_word32-lt (minus n) = omega arith

pub volt_address_inside : (ch : Supply) (size : ℕ) → 0 < size → (volt_address ch + 3) / 512 < size
volt_address_inside pri size pos = omega arith
volt_address_inside sec size pos = omega arith

pub volt_offset_address_inside :
    (ch : Supply) (size : ℕ) → 0 < size → (volt_offset_address ch + 3) / 512 < size
volt_offset_address_inside pri size pos = omega arith
volt_offset_address_inside sec size pos = omega arith

module _ (d : FlashDriver) (build : List ℕ) where
  -- What a setting command leaves of a system: the memory, and the answer.
  pub record Answered (s : System d build) (m : Memory) (text : List ℕ) (r : Reply (System d build))
      : Type 0 where
    pub status : r.status ≡ done
    pub buffer : r.buffer ≡ text
    pub holds : Holds d r.state.eeprom m
    pub token : r.state.eeprom.token ≡ s.eeprom.token
    pub uart : r.state.uart ≡ s.uart

  -- The command behind its tests.
  abbrev calib_reply : Supply → List ℕ → System d build → Reply (System d build)
  calib_reply ch rest s =
      let s' = store_calibration d build ch rest s in
      let (v, e) = read_volt_calibration d build s'.eeprom ch in
      answer d build
        (codes "Volt Calib " ++ (supply_name ch ++ (codes ": " ++ (format_unsigned v ++ crlf))))
        (record s' { eeprom = e })

  calib_reply-eq :
      (ch : Supply) (argument buffer rest : List ℕ) (s : System d build)
      → parse_supply (cp_skip_space argument) ≡ some ch
      → cp_skip_space (cp_skip_chars (cp_skip_space argument)) ≡ rest
      → cmd_volt_calib d build argument buffer s ≡ calib_reply ch rest s
  unfolding cmd_volt_calib
  calib_reply-eq ch argument buffer rest s e r = rw (e, r, cmd_volt_calib)

  abbrev pub calib_text : Supply → ℕ → List ℕ
  calib_text ch v =
      codes "Volt Calib "
      ++ (supply_name ch
          ++ (codes ": " ++ (format_unsigned (if v == 0xFFFFFFFF then 856 else v) ++ crlf)))

  calib_reply-Answered :
      (ch : Supply) (s : System d build) (m : Memory) (c : ℕ) (number : List ℕ)
      → 0 < s.eeprom.token.size
      → AreBytes m
      → Holds d s.eeprom m
      → let v = to_word32 (atol (c ∷ number)) in
        Answered s (store4 m (volt_address ch) v) (calib_text ch v) (calib_reply ch (c ∷ number) s)
        × ((chanel d build (calib_reply ch (c ∷ number) s).state ch).v_calib ≡ v)
  unfolding store_calibration read_volt_calibration write_volt_calibration set_chanel chanel
      set_volt_calib
  calib_reply-Answered pri s m c number pos bytes h =
      let v = to_word32 (atol (c ∷ number)) in
      let r =
        write4-setting d s.eeprom m 2 v 856 (omega arith) (to_word32-lt (atol (c ∷ number))) bytes
          h in
      (
        record {
          status = refl;
          buffer = ap (λ (n : ℕ). codes "Volt Calib Pri: " ++ (format_unsigned n ++ crlf)) r.value;
          holds = r.holds;
          token = r.token;
          uart = refl;
        },
        refl,
      )
  calib_reply-Answered sec s m c number pos bytes h =
      let v = to_word32 (atol (c ∷ number)) in
      let r =
        write4-setting d s.eeprom m 6 v 856 (omega arith) (to_word32-lt (atol (c ∷ number))) bytes
          h in
      (
        record {
          status = refl;
          buffer = ap (λ (n : ℕ). codes "Volt Calib Sec: " ++ (format_unsigned n ++ crlf)) r.value;
          holds = r.holds;
          token = r.token;
          uart = refl;
        },
        refl,
      )

  calib-Answered :
      (ch : Supply) (argument buffer : List ℕ) (s : System d build) (m : Memory) (c : ℕ)
      (number : List ℕ)
      → parse_supply (cp_skip_space argument) ≡ some ch
      → cp_skip_space (cp_skip_chars (cp_skip_space argument)) ≡ c ∷ number
      → 0 < s.eeprom.token.size
      → AreBytes m
      → Holds d s.eeprom m
      → let v = to_word32 (atol (c ∷ number)) in
        let r = cmd_volt_calib d build argument buffer s in
        Answered s (store4 m (volt_address ch) v) (calib_text ch v) r
        × ((chanel d build r.state ch).v_calib ≡ v)
  calib-Answered ch argument buffer s m c number e rest pos bytes h =
      let v = to_word32 (atol (c ∷ number)) in
      subst
        (λ (r : Reply (System d build)).
          Answered s (store4 m (volt_address ch) v) (calib_text ch v) r
          × ((chanel d build r.state ch).v_calib ≡ v))
        (sym (calib_reply-eq ch argument buffer (c ∷ number) s e rest))
        (calib_reply-Answered ch s m c number pos bytes h)

  -- `calib` with a channel and a number, in the same way.
  pub cmd_volt_calib-Answered :
      (ch : Supply) (argument buffer : List ℕ) (s : System d build) (m : Memory) (c : ℕ)
      (number : List ℕ)
      → parse_supply (cp_skip_space argument) ≡ some ch
      → cp_skip_space (cp_skip_chars (cp_skip_space argument)) ≡ c ∷ number
      → FitsLong (number_value (c ∷ number))
      → 0 < s.eeprom.token.size
      → AreBytes m
      → Holds d s.eeprom m
      → let v = to_word32 (number_value (c ∷ number)) in
        let r = cmd_volt_calib d build argument buffer s in
        Answered s (store4 m (volt_address ch) v) (calib_text ch v) r
        × ((chanel d build r.state ch).v_calib ≡ v)
  cmd_volt_calib-Answered ch argument buffer s m c number e rest fits pos bytes h =
      subst
        (λ (n : Signed).
          let v = to_word32 n in
          let r = cmd_volt_calib d build argument buffer s in
          Answered s (store4 m (volt_address ch) v) (calib_text ch v) r
          × ((chanel d build r.state ch).v_calib ≡ v))
        (atol_exact (c ∷ number) fits)
        (calib-Answered ch argument buffer s m c number e rest pos bytes h)

  -- The command behind its tests.
  abbrev offset_reply : Supply → List ℕ → System d build → Reply (System d build)
  offset_reply ch rest s =
      let s' = store_offset d build ch rest s in
      let (v, e) = read_volt_offset d build s'.eeprom ch in
      answer d build
        (codes "Volt Offset " ++ (supply_name ch ++ (codes ": " ++ (format_signed v ++ crlf))))
        (record s' { eeprom = e })

  offset_reply-eq :
      (ch : Supply) (argument buffer rest : List ℕ) (s : System d build)
      → parse_supply (cp_skip_space argument) ≡ some ch
      → cp_skip_space (cp_skip_chars (cp_skip_space argument)) ≡ rest
      → cmd_volt_offset d build argument buffer s ≡ offset_reply ch rest s
  unfolding cmd_volt_offset
  offset_reply-eq ch argument buffer rest s e r = rw (e, r, cmd_volt_offset)

  abbrev pub offset_text : Supply → ℕ → List ℕ
  offset_text ch v =
      codes "Volt Offset "
      ++ (supply_name ch
          ++ (codes ": " ++ (format_signed (if v == 0xFFFFFFFF then 1 else v) ++ crlf)))

  offset_reply-Answered :
      (ch : Supply) (s : System d build) (m : Memory) (c : ℕ) (number : List ℕ)
      → 0 < s.eeprom.token.size
      → AreBytes m
      → Holds d s.eeprom m
      → let v = to_word32 (atol (c ∷ number)) in
        Answered s
          (store4 m (volt_offset_address ch) v)
          (offset_text ch v)
          (offset_reply ch (c ∷ number) s)
        × ((chanel d build (offset_reply ch (c ∷ number) s).state ch).volt_offset ≡ v)
  unfolding store_offset read_volt_offset write_volt_offset set_chanel chanel set_volt_offset
  offset_reply-Answered pri s m c number pos bytes h =
      let v = to_word32 (atol (c ∷ number)) in
      let r =
        write4-setting d s.eeprom m 10 v 1 (omega arith) (to_word32-lt (atol (c ∷ number))) bytes
          h in
      (
        record {
          status = refl;
          buffer = ap (λ (n : ℕ). codes "Volt Offset Pri: " ++ (format_signed n ++ crlf)) r.value;
          holds = r.holds;
          token = r.token;
          uart = refl;
        },
        refl,
      )
  offset_reply-Answered sec s m c number pos bytes h =
      let v = to_word32 (atol (c ∷ number)) in
      let r =
        write4-setting d s.eeprom m 14 v 1 (omega arith) (to_word32-lt (atol (c ∷ number))) bytes
          h in
      (
        record {
          status = refl;
          buffer = ap (λ (n : ℕ). codes "Volt Offset Sec: " ++ (format_signed n ++ crlf)) r.value;
          holds = r.holds;
          token = r.token;
          uart = refl;
        },
        refl,
      )

  offset-Answered :
      (ch : Supply) (argument buffer : List ℕ) (s : System d build) (m : Memory) (c : ℕ)
      (number : List ℕ)
      → parse_supply (cp_skip_space argument) ≡ some ch
      → cp_skip_space (cp_skip_chars (cp_skip_space argument)) ≡ c ∷ number
      → 0 < s.eeprom.token.size
      → AreBytes m
      → Holds d s.eeprom m
      → let v = to_word32 (atol (c ∷ number)) in
        let r = cmd_volt_offset d build argument buffer s in
        Answered s (store4 m (volt_offset_address ch) v) (offset_text ch v) r
        × ((chanel d build r.state ch).volt_offset ≡ v)
  offset-Answered ch argument buffer s m c number e rest pos bytes h =
      let v = to_word32 (atol (c ∷ number)) in
      subst
        (λ (r : Reply (System d build)).
          Answered s (store4 m (volt_offset_address ch) v) (offset_text ch v) r
          × ((chanel d build r.state ch).volt_offset ≡ v))
        (sym (offset_reply-eq ch argument buffer (c ∷ number) s e rest))
        (offset_reply-Answered ch s m c number pos bytes h)

  -- From a state that holds a memory of bytes under a token of at least one page, `offset` with a
  -- channel and a number that fits 32 bits with its sign answers with the number as 32 bits, or 1
  -- where that is 0xFFFFFFFF; the state then holds the memory with that word stored at the address
  -- of the channel's offset, token and USART are as before, and the channel has the number as its
  -- offset.
  pub cmd_volt_offset-Answered :
      (ch : Supply) (argument buffer : List ℕ) (s : System d build) (m : Memory) (c : ℕ)
      (number : List ℕ)
      → parse_supply (cp_skip_space argument) ≡ some ch
      → cp_skip_space (cp_skip_chars (cp_skip_space argument)) ≡ c ∷ number
      → FitsLong (number_value (c ∷ number))
      → 0 < s.eeprom.token.size
      → AreBytes m
      → Holds d s.eeprom m
      → let v = to_word32 (number_value (c ∷ number)) in
        let r = cmd_volt_offset d build argument buffer s in
        Answered s (store4 m (volt_offset_address ch) v) (offset_text ch v) r
        × ((chanel d build r.state ch).volt_offset ≡ v)
  cmd_volt_offset-Answered ch argument buffer s m c number e rest fits pos bytes h =
      subst
        (λ (n : Signed).
          let v = to_word32 n in
          let r = cmd_volt_offset d build argument buffer s in
          Answered s (store4 m (volt_offset_address ch) v) (offset_text ch v) r
          × ((chanel d build r.state ch).volt_offset ≡ v))
        (atol_exact (c ∷ number) fits)
        (offset-Answered ch argument buffer s m c number e rest pos bytes h)
