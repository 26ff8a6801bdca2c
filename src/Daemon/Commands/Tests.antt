-- ===== src/Daemon/Commands/Tests.antt =====
-- The polls and the shared memory.
use power_monitor.Prelude.{ℕ, ◌≡◌, refl, true, [], ◌∷◌, none, some}
use power_monitor.Prelude.Text.{Signed, plus, minus}
use power_monitor.Daemon.Commands.{
  SharedMem, poll, create_shared_memory, clear_shared_memory, set_connected, set_disconnected,
  receive_current, single,
}

-- A number of millivolts stands for itself.
abbrev milli : Signed → ℕ
milli (plus n) = n
milli (minus n) = 0

abbrev memory : SharedMem milli 0
memory = record { voltage = 0 ∷ 0 ∷ []; current = 0 ∷ 0 ∷ []; port_connected = true }

poll_late : poll 5 3 ≡ (5, some single)
unfolding poll
poll_late = refl

reconnected : set_connected milli 0 (set_disconnected milli 0 memory) ≡ memory
unfolding set_connected set_disconnected
reconnected = refl

cleared : some (clear_shared_memory milli 0 memory) ≡ create_shared_memory milli 0 true true true
unfolding clear_shared_memory create_shared_memory
cleared = refl

no_current : receive_current milli 0 none memory ≡ (1, memory)
unfolding receive_current
no_current = refl
