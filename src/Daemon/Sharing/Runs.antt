-- ===== src/Daemon/Sharing/Runs.antt =====
-- daemon/src/Cmds_PMon.c and daemon/src/PMon_Lib.c: the daemon and its clients together, interleaved
-- in any order.
use power_monitor.Prelude.{ℕ}
use power_monitor.Prelude.Text.{Signed}
use power_monitor.Daemon.Commands.{SharedMem}
use power_monitor.Daemon.Sharing.{Mutex, update, Writer, Client, WriterMove, ClientMove}

module _ {F : Type 0} (milli : Signed → F) (nought minus_one : F) (mutex : Mutex) where
  pub record System : Type 0 where
    pub mem : SharedMem milli nought
    pub lock : mutex.State
    pub daemon : Writer milli nought minus_one
    pub client : ℕ → Client milli nought minus_one

module _ {F : Type 0} {milli : Signed → F} {nought minus_one : F} {mutex : Mutex} where
  pub data Step (s : System milli nought minus_one mutex)
      : System milli nought minus_one mutex → Type 0 where
    writer :
        {m : SharedMem milli nought} {l : mutex.State} {p : Writer milli nought minus_one}
        → WriterMove milli nought minus_one mutex s.mem s.lock s.daemon m l p
        → Step s (record { mem = m; lock = l; daemon = p; client = s.client })
    reader :
        (i : ℕ) {l : mutex.State} {p : Client milli nought minus_one}
        → ClientMove milli nought minus_one mutex i s.mem s.lock (s.client i) l p
        → Step s (record s { lock = l; client = update s.client i p })

  pub data Leads (s : System milli nought minus_one mutex)
      : System milli nought minus_one mutex → Type 0 where
    here : Leads s s
    later : {t u : System milli nought minus_one mutex} → Leads s t → Step t u → Leads s u

  pub Leads-trans :
      {s t u : System milli nought minus_one mutex} → Leads s t → Leads t u → Leads s u
  Leads-trans r here = r
  Leads-trans r (later q st) = later (Leads-trans r q) st
