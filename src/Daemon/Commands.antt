-- ===== src/Daemon/Commands.antt =====
-- daemon/src/Cmds_PMon.c, and the structure of ShdMem.h: the shared memory, the polling of the
-- monitor, and the handlers of its replies. Where the mutex is held is modelled in Sharing.
pub mod Places
pub mod Reports
mod Tests
use power_monitor.Prelude.{
  ℕ, zero, suc, ◌+◌, ◌-◌, Bool, true, false, List, [], ◌∷◌, ◌++◌, Option, none, some, set, ltb, leb,
  ◌==◌, if◌then◌else◌,
}
use power_monitor.Prelude.Text.{codes, strncmp_eq, Signed, atol}
use power_monitor.Daemon.CmdParse.{Callback, CmdFuncs, cmd_parse_skip_space, cmd_parse_skip_chars}

-- `Single`, the text of `PMon_SetStartup`, and `Restart_Cmd`.
abbrev pub single : List ℕ
single = codes "volt pri" ++ (13 ∷ 10 ∷ codes "volt sec") ++ (13 ∷ 10 ∷ [])

abbrev pub startup_cmd : List ℕ
startup_cmd = codes "ver" ++ (13 ∷ 10 ∷ [])

abbrev pub restart_cmd : List ℕ
restart_cmd = codes "restart" ++ (13 ∷ 10 ∷ [])

-- `PMon_Poll` at a time: `last`, and the text that goes to the port, if any.
unfoldable pub poll : ℕ → ℕ → ℕ × Option (List ℕ)
poll current last = if leb (last + 1) current then (current, some single) else (last, none)

-- `F` is the type `float`; `milli i` is `(float)i / 1000.0`, and `nought` is 0.
module _ {F : Type 0} (milli : Signed → F) (nought : F) where
  -- `struct PMon_Shared_Mem`
  pub record SharedMem : Type 0 where
    pub voltage : List F
    pub current : List F
    pub port_connected : Bool

  -- The memory behind `memset` in `PMon_CreateSharedMemory`; the flags say whether `ftok`, `shmget`
  -- and `shmat` succeed, and `none` is `exit(1)`.
  pub create_shared_memory : Bool → Bool → Bool → Option SharedMem
  create_shared_memory key_made found attached =
      if key_made
      then (if found
          then (if attached
              then some (record {
                voltage = nought ∷ nought ∷ [];
                current = nought ∷ nought ∷ [];
                port_connected = false;
              })
              else none)
          else none)
      else none

  -- `PMon_ClearSharedMemory`, without the `shmdt` behind it.
  unfoldable pub clear_shared_memory : SharedMem → SharedMem
  clear_shared_memory m = record {
    voltage = set (set m.voltage 0 nought) 1 nought;
    current = set (set m.current 0 nought) 1 nought;
    port_connected = false;
  }

  unfoldable pub set_connected : SharedMem → SharedMem
  set_connected m = record m { port_connected = true }

  unfoldable pub set_disconnected : SharedMem → SharedMem
  set_disconnected m = record m { port_connected = false }

  unfoldable pub receive_current : Callback SharedMem
  receive_current none m = (1, m)
  receive_current (some buf) m =
      (1, record m { current = set m.current 0 (milli (atol (cmd_parse_skip_space buf))) })

  -- The place of a channel's name.
  pub chanel_index : List ℕ → Option ℕ
  chanel_index ptr =
      if strncmp_eq ptr (codes "Pri") 3
      then some 0
      else if strncmp_eq ptr (codes "Sec") 3
      then some 1
      else none

  unfoldable pub receive_voltage : Callback SharedMem
  unfolding chanel_index
  receive_voltage none m = (1, m)
  receive_voltage (some buf) m =
      let ptr = cmd_parse_skip_space buf in
      let volt = milli (atol (cmd_parse_skip_space (cmd_parse_skip_chars ptr))) in
      elim (chanel_index ptr) [
        | none ↦ (0, m)
        | some ch ↦ (1, record m { voltage = set m.voltage ch volt })
      ]

  -- What `PM_ptr` points to, whether it is attached, and whether the daemon has stored through it
  -- while it was not, which ends the process.
  pub record Segment : Type 0 where
    pub mem : SharedMem
    pub attached : Bool
    pub faulted : Bool

  unfoldable pub through : (SharedMem → SharedMem) → Segment → Segment
  through f g = if g.attached then record g { mem = f g.mem } else record g { faulted = true }

  -- `PMon_ClearSharedMemory` with its `shmdt`.
  unfoldable pub detach : Segment → Segment
  detach g = record (through clear_shared_memory g) { attached = false }

  -- A handler comes to the memory where it has an argument and does not return 0.
  unfoldable pub on_segment : Callback SharedMem → Callback Segment
  on_segment func none g = ((func none g.mem).0, g)
  on_segment func (some buf) g =
      let (r, m) = func (some buf) g.mem in (r, if r == 0 then g else through (λ _. m) g)

  -- `Cmd_Table`
  unfoldable pub cmd_table : CmdFuncs Segment
  cmd_table =
      (codes "Voltage", on_segment receive_voltage)
      ∷ (codes "current", on_segment receive_current)
      ∷ []
