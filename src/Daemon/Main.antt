-- ===== src/Daemon/Main.antt =====
-- daemon/src/PowerMon_Main.c: start, main loop and end of the daemon, over the calls of the operating
-- system. A descriptor or a result of -1 is `none`.
pub mod Connection
pub mod Serving
pub mod Detached
use power_monitor.Prelude.{
  ℕ, zero, suc, ◌+◌, ◌-◌, Bool, true, false, ◌||◌, List, [], ◌∷◌, ◌++◌, Option, none, some, length,
  ltb, leb, ◌==◌, if◌then◌else◌,
}
use power_monitor.Prelude.Text.{Signed}
use power_monitor.Daemon.CmdParse.{drain}
use power_monitor.Daemon.Commands.{
  Segment, through, detach, create_shared_memory, set_connected, cmd_table, poll, startup_cmd,
  restart_cmd,
}
use power_monitor.Daemon.Serial.{Os, open_port, write_data, read_data, close_port}

-- `sizeof(readBuf)`
abbrev pub read_size : ℕ
read_size = 4096

-- The result of `select`: `none` is a negative one, and behind it is `FD_ISSET`, with the string that
-- `readBuf` holds where it is set.
abbrev pub Selected : Type 0
Selected = Option (Option (List ℕ))

-- The C string at the start of an array.
pub c_string : List ℕ → List ℕ
c_string [] = []
c_string (c ∷ s) = if c == 0 then [] else c ∷ c_string s

module _ {F : Type 0} (milli : Signed → F) (nought : F) (os : Os) where
  -- `Serial_fd`, the shared memory, the system, `last` of `PMon_Poll`, and whether the receiver went
  -- behind the end of `readBuf`, by its `strlen` or by its last store.
  pub record Daemon : Type 0 where
    pub serial_fd : Option ℕ
    pub mem : Segment milli nought
    pub sys : os.State
    pub last : ℕ
    pub overrun : Bool

  -- `main` before its loop: the number of arguments, whether the calls for the shared memory and
  -- `daemon` succeed, and the system. `none` is the end of the program.
  pub start : ℕ → Bool → Bool → Bool → Bool → os.State → Option Daemon
  start argc key_made found attached daemonised sys =
      if argc == 2
      then elim (create_shared_memory milli nought key_made found attached) [
        | none ↦ none
        | some m ↦
            if daemonised
            then some (record {
              serial_fd = some 0;
              mem = record { mem = m; attached = true; faulted = false };
              sys = sys;
              last = 0;
              overrun = false;
            })
            else none
      ]
      else none

  -- `Connect_To_Port`
  pub connect_to_port : Daemon → List ℕ → Daemon
  connect_to_port p port =
      let (opened, s) = open_port os p.sys port 115200 0 0 in
      elim opened [
        | none ↦ record p { serial_fd = none; sys = s }
        | some fd ↦
            let (_, s₁) = write_data os s fd startup_cmd in
            let (_, s₂) = write_data os s₁ fd restart_cmd in
            record p {
              serial_fd = some fd;
              mem = through milli nought (set_connected milli nought) p.mem;
              sys = s₂;
            }
      ]

  -- The body of `Check_Serial` where `rv < 0`: `fd` is `Serial_fd`, and what `close` returns is its
  -- new value.
  pub lose_port : Daemon → ℕ → Daemon
  lose_port p fd =
      let (r, s) = close_port os p.sys fd in
      record p { serial_fd = r; mem = detach milli nought p.mem; sys = s }

  -- The part of the loop around `PMon_Poll`, at a time.
  pub run_poll : Daemon → ℕ → ℕ → Daemon
  unfolding lose_port
  run_poll p fd time =
      let (last, text) = poll time p.last in
      elim text [
        | none ↦ record p { last = last }
        | some t ↦
            let (r, s) = write_data os p.sys fd t in
            let p' = record p { last = last; sys = s } in
            elim r [ none ↦ lose_port p' fd | some n ↦ p' ]
      ]

  -- The part under `FD_ISSET`: `read` and the loop over the lines. `readBuf` belongs to this block
  -- and is not set, so the string that it holds to begin with, `found`, may be any.
  pub run_receiver : Daemon → ℕ → List ℕ → Daemon
  unfolding lose_port c_string
  run_receiver p fd found =
      let (r, s) = read_data os p.sys fd (read_size - length found) in
      let p' = record p { sys = s; overrun = p.overrun || leb read_size (length found) } in
      elim r [
        | none ↦ lose_port p' fd
        | some bytes ↦
            let text = c_string (found ++ bytes) in
            let (_, _, m) = drain (suc (length text)) (cmd_table milli nought) text p.mem in
            if ltb 0 (length bytes)
            then record p' {
              mem = m;
              overrun = p'.overrun || leb read_size (length found + length bytes);
            }
            else p'
      ]

  -- The part of the loop behind `PMon_Poll` and `Check_Serial`, with the result of `select`. On a `Serial_fd` of -1 `FD_SET` is undefined;
  -- the model leaves the loop there.
  pub run_select : Selected → Daemon → Daemon
  unfolding run_receiver
  run_select selected p = elim p.serial_fd [
    | none ↦ p
    | some fd ↦ elim selected [
      | none ↦ p
      | some ready ↦ elim ready [ none ↦ p | some found ↦ run_receiver p fd found ]
    ]
  ]

  -- `while ( Serial_fd >= 0 )`, over the times and the results of `select`.
  pub serve : List (ℕ × Selected) → Daemon → Daemon
  unfolding run_poll run_select
  serve [] p = p
  serve ((time, selected) ∷ rounds) p = elim p.serial_fd [
    | none ↦ p
    | some fd ↦ serve rounds (run_select selected (run_poll p fd time))
  ]

  -- The body of `while ( loop > 0 )`; `sleep` is left out.
  pub session : List ℕ → List (ℕ × Selected) → Daemon → Daemon
  unfolding connect_to_port serve
  session port rounds p = serve rounds (connect_to_port p port)

  -- `while ( loop > 0 )`, a list of times and results for each round.
  pub main_loop : List ℕ → List (List (ℕ × Selected)) → Daemon → Daemon
  main_loop port [] p = p
  main_loop port (rounds ∷ sessions) p = main_loop port sessions (session port rounds p)

  -- `System_Shutdown`
  pub system_shutdown : Daemon → Daemon
  system_shutdown p = record p { mem = detach milli nought p.mem }

  -- `Run_CtrlC`: `exit` runs the function that `main` has given to `atexit`.
  pub run_ctrl_c : Daemon → Daemon
  unfolding system_shutdown
  run_ctrl_c p = system_shutdown p
