-- ===== src/Daemon/Library.antt =====
-- daemon/src/PMon_Lib.c: what a client reads from the shared memory. A pointer is `none` for NULL.
mod Tests
use power_monitor.Prelude.{
  ℕ, zero, suc, Bool, true, false, List, [], ◌∷◌, Option, none, some, get_or, leb, if◌then◌else◌,
}
use power_monitor.Prelude.Text.{Signed, plus, minus}
use power_monitor.Daemon.Commands.{SharedMem}

module _ {F : Type 0} (milli : Signed → F) (nought minus_one : F) where
  -- `PMon_Connect`, over the segment that the daemon made; the flags say whether `ftok`, `shmget` and
  -- `shmat` succeed.
  pub connect : Bool → Bool → Bool → SharedMem milli nought → Option (SharedMem milli nought)
  connect key_made found attached m =
      if key_made then (if found then (if attached then some m else none) else none) else none

  -- `PMon_isConnected`
  unfoldable pub is_connected : Option (SharedMem milli nought) → Bool
  is_connected none = false
  is_connected (some m) = m.port_connected

  -- The place `ch` of an array of two; `none` is a read outside it.
  unfoldable pub read_at : List F → Signed → Option F
  read_at values (plus zero) = some (get_or values 0 nought)
  read_at values (plus (suc zero)) = some (get_or values 1 nought)
  read_at values (plus (suc (suc n))) = none
  read_at values (minus zero) = some (get_or values 0 nought)
  read_at values (minus (suc n)) = none

  -- `ch >= PMON_NUM_CHANELS`
  unfoldable pub beyond : Signed → Bool
  beyond (plus n) = leb 2 n
  beyond (minus n) = false

  unfoldable pub get_voltage : Option (SharedMem milli nought) → Signed → Option F
  unfolding beyond read_at
  get_voltage none ch = some minus_one
  get_voltage (some m) ch = if beyond ch then some minus_one else read_at m.voltage ch

  -- `PMon_GetVoltages`: `none` is the result -1. A Boolean says that a pointer is not NULL; the pair
  -- is what is stored through them.
  unfoldable pub get_voltages :
      Option (SharedMem milli nought) → Bool → Bool → Option (Option F × Option F)
  get_voltages none v1 v2 = none
  get_voltages (some m) v1 v2 = some (
    if v1 then some (get_or m.voltage 0 nought) else none,
    if v2 then some (get_or m.voltage 1 nought) else none,
  )

  unfoldable pub get_current : Option (SharedMem milli nought) → Signed → Option F
  unfolding beyond read_at
  get_current none ch = some minus_one
  get_current (some m) ch = if beyond ch then some minus_one else read_at m.current ch
