-- ===== src/Daemon/Client.antt =====
-- daemon/src/PM_Test.c: a client that prints what the library returns.
mod Tests
use power_monitor.Prelude.{ℕ, zero, suc, ◌+◌, Bool, true, false, List, [], ◌∷◌, Option, none, some}
use power_monitor.Prelude.Text.{Signed, plus}
use power_monitor.Daemon.Commands.{SharedMem}
use power_monitor.Daemon.Library.{is_connected, get_voltage, get_current}

-- What a call of `printf` prints; the number of a channel counts from 1.
pub data Line (F : Type 0) : Type 0 where
  failed_to_connect : Line F
  hardware : Bool → Line F
  ch : ℕ → Option F → Option F → Line F

module _ {F : Type 0} (milli : Signed → F) (nought minus_one : F) where
  -- The loop, with `left` rounds to go.
  pub print_chanels : ℕ → ℕ → Option (SharedMem milli nought) → List (Line F)
  print_chanels zero i ptr = []
  print_chanels (suc left) i ptr =
      ch (i + 1) (get_voltage milli nought minus_one ptr (plus i))
        (get_current milli nought minus_one ptr (plus i))
      ∷ print_chanels left (i + 1) ptr

  -- `main`, with what `PMon_Connect` returned: whether it returns 0, and what it prints.
  pub test_main : Option (SharedMem milli nought) → Bool × List (Line F)
  unfolding print_chanels
  test_main none = (false, failed_to_connect ∷ [])
  test_main (some m) =
      (true, hardware (is_connected milli nought minus_one (some m)) ∷ print_chanels 2 0 (some m))
