-- ===== src/Daemon/Main/Serving.antt =====
-- daemon/src/PowerMon_Main.c: what the loop of the daemon keeps of its buffer and of the shared memory.
pub mod Tests
use power_monitor.Prelude.{
  ℕ, zero, ◌+◌, ◌≤◌, ◌<◌, ◌≡◌, ◌⊎◌, Bool, true, false, ◌||◌, List, [], ◌∷◌, Option, none, some,
  length, length-append, ◌==◌, if◌then◌else◌,
}
use power_monitor.Prelude.Text.{Signed}
use power_monitor.Daemon.Commands.Places.{TwoPlaces}
use power_monitor.Daemon.Serial.{Os, close_port}
use power_monitor.Daemon.Main.{Daemon, Selected, read_size}

-- Each string that `readBuf` holds to begin with leaves room for `most` characters and a terminator.
abbrev pub LeavesRoom : ℕ → List (ℕ × Selected) → Type 0
LeavesRoom most [] = Unit
LeavesRoom most ((time, none) ∷ rounds) = LeavesRoom most rounds
LeavesRoom most ((time, some none) ∷ rounds) = LeavesRoom most rounds
LeavesRoom most ((time, some (some found)) ∷ rounds) =
    (length found + most < read_size) × LeavesRoom most rounds

-- The same for one round.
abbrev RoomIn : ℕ → Selected → Type 0
RoomIn most none = Unit
RoomIn most (some none) = Unit
RoomIn most (some (some found)) = length found + most < read_size

module _ {F : Type 0} (milli : Signed → F) (nought : F) (os : Os) where
  -- `read` gives at most `most` bytes at a time: POSIX bounds the input that waits at a terminal by
  -- MAX_INPUT.
  abbrev pub ReadsAtMost : ℕ → Type 0
  ReadsAtMost most =
      (s : os.State) (fd n : ℕ) (bytes : List ℕ)
      → (os.read s fd n).0 ≡ some bytes
      → length bytes ≤ most

  -- Nothing went behind the end of `readBuf`, and the arrays of the memory have two places.
  pub record Bounded (p : Daemon milli nought os) : Type 0 where
    pub inside : p.overrun ≡ false
    pub places : TwoPlaces milli nought p.mem.mem
