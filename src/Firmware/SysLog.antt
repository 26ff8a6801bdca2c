-- ===== src/Firmware/SysLog.antt =====
-- firmware/PowerMon/src/SysLog.c: log lines with a level, through a response function.
pub mod Filter
pub mod Printed
mod Tests
use power_monitor.Prelude.{ℕ, List, [], ◌∷◌, Option, none, some, ltb, ◌==◌, if◌then◌else◌}
use power_monitor.Prelude.Text.{codes}

-- `LogLevel`: the values of the enumeration.
abbrev pub l_debug : ℕ
l_debug = 0

abbrev pub l_info : ℕ
l_info = 1

abbrev pub l_notice : ℕ
l_notice = 2

abbrev pub l_warning : ℕ
l_warning = 3

abbrev pub l_error : ℕ
l_error = 4

abbrev pub l_critical : ℕ
l_critical = 5

abbrev pub l_alert : ℕ
l_alert = 6

abbrev pub l_emerg : ℕ
l_emerg = 7

abbrev pub l_diag : ℕ
l_diag = 0xFE

abbrev pub l_update : ℕ
l_update = 0xFF

-- `Get_WarningText`
pub get_warning_text : ℕ → List ℕ
get_warning_text level =
    if level == l_debug
    then codes "Debug"
    else if level == l_info
    then codes "Info"
    else if level == l_notice
    then codes "Notice"
    else if level == l_warning
    then codes "Warning"
    else if level == l_error
    then codes "Error"
    else if level == l_critical
    then codes "Critical"
    else if level == l_alert
    then codes "Alert"
    else if level == l_emerg
    then codes "Emerg"
    else if level == l_diag
    then codes "Diag"
    else if level == l_update
    then codes "Update"
    else codes "Unknown"

-- The static variables: `PrintLevel`, and `RespFn`, which writes to the output `S`.
pub record SysLog (S : Type 0) : Type 0 where
  pub print_level : ℕ
  pub resp_fn : Option (List ℕ → S → S)

module _ {S : Type 0} where
  -- `Syslog_Init`
  pub init : ℕ → Option (List ℕ → S → S) → SysLog S
  init logging fn = record { print_level = logging; resp_fn = fn }

  -- The calls of `RespFn`; `text` is what `vsprintf` leaves in `buf`.
  pub emit : (List ℕ → S → S) → ℕ → List ℕ → List ℕ → S → S
  emit fn level mod_name text s =
      let s₁ = fn (codes ">> ") s in
      let s₂ = fn (get_warning_text level) s₁ in
      let s₃ = fn (codes ",") s₂ in
      let s₄ = fn mod_name s₃ in
      let s₅ = fn (codes ",") s₄ in let s₆ = fn text s₅ in fn (13 ∷ 10 ∷ []) s₆

  -- `Syslog`
  pub syslog : SysLog S → ℕ → List ℕ → List ℕ → S → S
  syslog log level mod_name text s =
      if ltb level log.print_level
      then s
      else elim log.resp_fn [ none ↦ s | some fn ↦ emit fn level mod_name text s ]
