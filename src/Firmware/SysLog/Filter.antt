-- ===== src/Firmware/SysLog/Filter.antt =====
-- Which log lines are printed, and what they say.
use power_monitor.Prelude.{ℕ, inl, inr, List, [], ◌∷◌, ◌++◌, some, ltb, Bool-cases}
use power_monitor.Prelude.Text.{codes}
use power_monitor.Firmware.SysLog.{init, get_warning_text, emit, syslog}

-- The line of a message.
abbrev pub log_line : ℕ → List ℕ → List ℕ → List ℕ
log_line level mod_name text =
    codes ">> "
    ++ (get_warning_text level
        ++ (codes "," ++ (mod_name ++ (codes "," ++ (text ++ (13 ∷ 10 ∷ []))))))

-- A log keeps what the function that prints it keeps.
pub syslog-keeps :
    {S : Type 0} (P : S → Type 0) (fn : List ℕ → S → S) (print_level level : ℕ)
    (mod_name text : List ℕ) (s : S)
    → ((line : List ℕ) (s : S) → P s → P (fn line s))
    → P s
    → P (syslog (init print_level (some fn)) level mod_name text s)
unfolding syslog init emit
syslog-keeps P fn print_level level mod_name text s keep p =
    elim (Bool-cases (ltb level print_level)) [
      | inl below ↦ rw below p
      | inr above ↦
          rw above (keep _ _ (keep _ _ (keep _ _ (keep _ _ (keep _ _ (keep _ _ (keep _ s p)))))))
    ]
