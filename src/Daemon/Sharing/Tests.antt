-- ===== src/Daemon/Sharing/Tests.antt =====
-- A daemon with a line of the monitor.
use power_monitor.Prelude.{ℕ, ◌≡◌, refl, true, [], ◌∷◌, Option, none, some}
use power_monitor.Prelude.Text.{Signed, plus, minus}
use power_monitor.Daemon.Commands.{SharedMem}
use power_monitor.Daemon.Sharing.{Mutex, serving, idle}
use power_monitor.Daemon.Sharing.Runs.{System}

-- A number of millivolts stands for itself.
abbrev milli : Signed → ℕ
milli (plus n) = n
milli (minus n) = 0

-- A mutex that is its owner.
abbrev owned : Mutex
owned = record {
  State = Option ℕ;
  Locks = λ i s t. (s ≡ none) × (t ≡ some i);
  Unlocks = λ i s t. (s ≡ some i) × (t ≡ none);
  owner = λ s. s;
  locks_owner = λ g. g.1;
  unlocks_free = λ own g. g.1;
  can_lock = λ i s free. (some i, (free, refl));
  can_unlock = λ i s own. (none, (own, refl));
}

abbrev Sys : Type 0
Sys = System milli 0 0 owned

abbrev memory : SharedMem milli 0
memory = record { voltage = 5 ∷ 7 ∷ []; current = 0 ∷ 0 ∷ []; port_connected = true }

abbrev begun : Sys
begun = record { mem = memory; lock = none; daemon = serving; client = λ _. idle }
