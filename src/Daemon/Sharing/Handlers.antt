-- ===== src/Daemon/Sharing/Handlers.antt =====
-- daemon/src/Cmds_PMon.c: the accesses of each operation, with nothing between them, against the
-- operation as one function.
use power_monitor.Prelude.{◌≡◌, none}
use power_monitor.Prelude.Text.{Signed}
use power_monitor.Daemon.Commands.{SharedMem}
use power_monitor.Daemon.Sharing.{Mutex, Writer}
use power_monitor.Daemon.Sharing.Runs.{System, Leads}

module _ {F : Type 0} (milli : Signed → F) (nought minus_one : F) (mutex : Mutex) where
  abbrev Sys : Type 0
  Sys = System milli nought minus_one mutex

  -- The daemon comes to `p` with the memory `m` and the mutex free, and the clients stay where they are.
  abbrev pub Arrives : Sys → Writer milli nought minus_one → SharedMem milli nought → Type 0
  Arrives s p m =
      (t : Sys) × Leads s t
      × (t.daemon ≡ p)
      × (t.mem ≡ m)
      × (mutex.owner t.lock ≡ none)
      × (t.client ≡ s.client)
