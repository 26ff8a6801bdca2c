-- ===== src/Daemon/Sharing.antt =====
-- daemon/src/Cmds_PMon.c and daemon/src/PMon_Lib.c: the processes around the shared memory, an access
-- at a time. The daemon writes, and any number of clients read; the signal handler and the `atexit`
-- function of daemon/src/PowerMon_Main.c end the daemon.
pub mod Runs
pub mod Handlers
mod Tests
use power_monitor.Prelude.{
  ℕ, zero, suc, ◌+◌, ◌<◌, ◌≡◌, refl, Bool, true, false, List, [], ◌∷◌, Option, none, some, set,
  get_or, ◌==◌, if◌then◌else◌,
}
use power_monitor.Prelude.Text.{Signed, atol}
use power_monitor.Daemon.CmdParse.{cmd_parse_skip_space, cmd_parse_skip_chars}
use power_monitor.Daemon.Commands.{SharedMem, set_connected, set_disconnected, chanel_index}
use power_monitor.Daemon.Library.{beyond, read_at, get_voltage, get_voltages, get_current}

-- A mutex of the threads library: `Locks i` is a return of `pthread_mutex_lock` in thread `i` and
-- `Unlocks i` one of `pthread_mutex_unlock`. These laws are documented for the threads of the process
-- that made the mutex; `pthread_mutex_init` of Cmds_PMon.c gives it no attributes, so that they do
-- not reach the other processes.
pub record Mutex : Type 1 where
  pub State : Type 0
  pub Locks : ℕ → State → State → Type 0
  pub Unlocks : ℕ → State → State → Type 0
  pub owner : State → Option ℕ
  pub locks_owner : {i : ℕ} {s t : State} → Locks i s t → owner t ≡ some i
  pub unlocks_free : {i : ℕ} {s t : State} → owner s ≡ some i → Unlocks i s t → owner t ≡ none
  pub can_lock : (i : ℕ) (s : State) → owner s ≡ none → (t : State) × Locks i s t
  pub can_unlock : (i : ℕ) (s : State) → owner s ≡ some i → (t : State) × Unlocks i s t

-- The family with another member at one place.
unfoldable pub update : {A : Type 0} → (ℕ → A) → ℕ → A → ℕ → A
update f i a j = if i == j then a else f j

-- The accessors of the library that take the mutex. The Booleans of `PMon_GetVoltages` say which
-- pointers are not NULL.
pub data Call : Type 0 where
  voltage : (ch : Signed) → Call
  voltages : (v1 v2 : Bool) → Call
  current : (ch : Signed) → Call

module _ {F : Type 0} (milli : Signed → F) (nought minus_one : F) where
  -- What a call returns or stores; `none` in a `value` is a read outside the array.
  pub data Answer : Type 0 where
    value : (x : Option F) → Answer
    pair : (a b : Option F) → Answer
    failed : Answer

  -- The call by itself.
  unfoldable pub answer : Call → SharedMem milli nought → Answer
  answer (voltage ch) m = value (get_voltage milli nought minus_one (some m) ch)
  answer (voltages v1 v2) m = elim (get_voltages milli nought minus_one (some m) v1 v2) [
    | none ↦ failed
    | some (a, b) ↦ pair a b
  ]
  answer (current ch) m = value (get_current milli nought minus_one (some m) ch)

  -- The store between `pthread_mutex_lock` and `pthread_mutex_unlock`.
  pub data Write : Type 0 where
    to_voltage : (ch : ℕ) (volt : F) → Write
    to_current : (amps : F) → Write

  unfoldable pub perform : Write → SharedMem milli nought → SharedMem milli nought
  perform (to_voltage ch volt) m = record m { voltage = set m.voltage ch volt }
  perform (to_current amps) m = record m { current = set m.current 0 amps }

  -- The stores of `PMon_ClearSharedMemory`, in their order.
  unfoldable pub clear_store : ℕ → SharedMem milli nought → SharedMem milli nought
  clear_store zero m = record m { port_connected = false }
  clear_store (suc zero) m = record m { voltage = set m.voltage 0 nought }
  clear_store (suc (suc zero)) m = record m { voltage = set m.voltage 1 nought }
  clear_store (suc (suc (suc zero))) m = record m { current = set m.current 0 nought }
  clear_store (suc (suc (suc (suc k)))) m = record m { current = set m.current 1 nought }

  -- Where the daemon stands: `clearing k` is `PMon_ClearSharedMemory` behind `k` stores.
  pub data Writer : Type 0 where
    serving : Writer
    locking : (w : Write) → Writer
    storing : (w : Write) → Writer
    unlocking : Writer
    clearing : (k : ℕ) → Writer
    detached : Writer

  -- Behind `shmdt` a store ends the daemon.
  abbrev pub is_attached : Writer → Bool
  is_attached detached = false
  is_attached _ = true

  -- Where a client stands, with what it has read.
  pub data Client : Type 0 where
    idle : Client
    waiting : (c : Call) → Client
    entered : (c : Call) → Client
    halfway : (v1 v2 : Bool) (a : Option F) → Client
    leaving : (c : Call) (r : Answer) → Client
    returned : (c : Call) (r : Answer) → Client

  module _ (mutex : Mutex) where
    -- One access of the daemon. The lines of the monitor come in any order; the end of the daemon
    -- (`Run_CtrlC` and `System_Shutdown`) and the loss of the port may come anywhere.
    pub data WriterMove (m : SharedMem milli nought) (l : mutex.State)
        : Writer → SharedMem milli nought → mutex.State → Writer → Type 0 where
      connect : WriterMove m l serving (set_connected milli nought m) l serving
      disconnect : WriterMove m l serving (set_disconnected milli nought m) l serving
      current_line :
          (buf : List ℕ)
          → WriterMove m l serving m l
              (locking (to_current (milli (atol (cmd_parse_skip_space buf)))))
      voltage_line :
          (buf : List ℕ) {ch : ℕ}
          → chanel_index milli nought (cmd_parse_skip_space buf) ≡ some ch
          → WriterMove m l serving m l (
              locking (
                to_voltage ch (
                  milli (
                    atol
                      (cmd_parse_skip_space (cmd_parse_skip_chars (cmd_parse_skip_space buf)))))))
      lock :
          {w : Write} {l' : mutex.State}
          → mutex.Locks 0 l l'
          → WriterMove m l (locking w) m l' (storing w)
      store : {w : Write} → WriterMove m l (storing w) (perform w m) l unlocking
      unlock : {l' : mutex.State} → mutex.Unlocks 0 l l' → WriterMove m l unlocking m l' serving
      shut_down : {p : Writer} → is_attached p ≡ true → WriterMove m l p m l (clearing 0)
      clear : {k : ℕ} → k < 5 → WriterMove m l (clearing k) (clear_store k m) l (clearing (suc k))
      detach : WriterMove m l (clearing 5) m l detached

    -- One access of client `i`. A refused channel never takes the mutex.
    pub data ClientMove (i : ℕ) (m : SharedMem milli nought) (l : mutex.State)
        : Client → mutex.State → Client → Type 0 where
      call_voltages : (v1 v2 : Bool) → ClientMove i m l idle l (waiting (voltages v1 v2))
      call_voltage :
          (ch : Signed)
          → beyond milli nought minus_one ch ≡ false
          → ClientMove i m l idle l (waiting (voltage ch))
      call_current :
          (ch : Signed)
          → beyond milli nought minus_one ch ≡ false
          → ClientMove i m l idle l (waiting (current ch))
      refuse_voltage :
          (ch : Signed)
          → beyond milli nought minus_one ch ≡ true
          → ClientMove i m l idle l (returned (voltage ch) (value (some minus_one)))
      refuse_current :
          (ch : Signed)
          → beyond milli nought minus_one ch ≡ true
          → ClientMove i m l idle l (returned (current ch) (value (some minus_one)))
      lock :
          {c : Call} {l' : mutex.State}
          → mutex.Locks (suc i) l l'
          → ClientMove i m l (waiting c) l' (entered c)
      read_voltage :
          {ch : Signed}
          → ClientMove i m l
              (entered (voltage ch))
              l
              (leaving (voltage ch) (value (read_at milli nought minus_one m.voltage ch)))
      read_current :
          {ch : Signed}
          → ClientMove i m l
              (entered (current ch))
              l
              (leaving (current ch) (value (read_at milli nought minus_one m.current ch)))
      first :
          {v1 v2 : Bool}
          → ClientMove i m l
              (entered (voltages v1 v2))
              l
              (halfway v1 v2 (if v1 then some (get_or m.voltage 0 nought) else none))
      second :
          {v1 v2 : Bool} {a : Option F}
          → ClientMove i m l (halfway v1 v2 a) l (
              leaving
                (voltages v1 v2)
                (pair a (if v2 then some (get_or m.voltage 1 nought) else none)))
      unlock :
          {c : Call} {r : Answer} {l' : mutex.State}
          → mutex.Unlocks (suc i) l l'
          → ClientMove i m l (leaving c r) l' (returned c r)
      again : {c : Call} {r : Answer} → ClientMove i m l (returned c r) l idle
