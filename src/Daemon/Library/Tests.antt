-- ===== src/Daemon/Library/Tests.antt =====
-- What a client reads.
use power_monitor.Prelude.{ℕ, ◌≡◌, refl, true, false, [], ◌∷◌, none, some}
use power_monitor.Prelude.Text.{Signed, plus, minus}
use power_monitor.Daemon.Commands.{SharedMem}
use power_monitor.Daemon.Library.{
  connect, is_connected, get_voltage, get_voltages, get_current, read_at, beyond,
}

-- A number of millivolts stands for itself.
abbrev milli : Signed → ℕ
milli (plus n) = n
milli (minus n) = 0

abbrev memory : SharedMem milli 0
memory = record { voltage = 0 ∷ 0 ∷ []; current = 0 ∷ 0 ∷ []; port_connected = true }

library_reads : get_voltage milli 0 1 (some memory) (plus 1) ≡ some 0
unfolding get_voltage beyond read_at
library_reads = refl

library_current : get_current milli 0 1 none (plus 0) ≡ some 1
unfolding get_current
library_current = refl

library_pair : get_voltages milli 0 1 (some memory) true false ≡ some (some 0, none)
unfolding get_voltages
library_pair = refl

connected : is_connected milli 0 1 (some memory) ≡ true
unfolding is_connected
connected = refl

no_segment : connect milli 0 1 true false true memory ≡ none
unfolding connect
no_segment = refl
