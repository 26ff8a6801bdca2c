-- ===== src/Daemon/Main/Detached.antt =====
-- What the daemon does with the shared memory behind the loss of its port.
mod Tests
use power_monitor.Prelude.{
  ℕ, zero, suc, ◌-◌, ◌≡◌, refl, inl, inr, Bool, true, false, List, [], ◌∷◌, ◌++◌, Option, none,
  some, length, ltb, ◌==◌, if◌then◌else◌, Bool-cases, Option-cases,
}
use power_monitor.Prelude.Text.{Signed}
use power_monitor.Daemon.CmdParse.{Callback, drain}
use power_monitor.Daemon.CmdParse.Keeps.{Keeps, AllKeep, end, entry, drain-Keeps}
use power_monitor.Daemon.Commands.{
  SharedMem, Segment, through, detach, on_segment, cmd_table, set_connected, poll,
}
use power_monitor.Daemon.Serial.{Os, open_port, write_data, read_data, close_port}
use power_monitor.Daemon.Main.{
  Daemon, Selected, read_size, c_string, lose_port, run_poll, run_receiver, run_select, serve,
  connect_to_port, session, main_loop, run_ctrl_c,
}

module _ {F : Type 0} (milli : Signed → F) (nought : F) where
  IsDetached : Segment milli nought → Type 0
  IsDetached g = g.attached ≡ false

  on_segment-Keeps :
      (func : Callback (SharedMem milli nought)) → Keeps IsDetached (on_segment milli nought func)
  unfolding on_segment through IsDetached
  on_segment-Keeps func none g h = h
  on_segment-Keeps func (some buf) g h = elim (Bool-cases ((func (some buf) g.mem).0 == 0)) [
    | inl e ↦ rw e h
    | inr e ↦ rw e (simp (h, through) refl)
  ]

  cmd_table-AllKeep : AllKeep IsDetached (cmd_table milli nought)
  unfolding cmd_table
  cmd_table-AllKeep = entry (on_segment-Keeps _) (entry (on_segment-Keeps _) end)

  module _ (os : Os) where
    abbrev Lost : Daemon milli nought os → Type 0
    Lost p = IsDetached p.mem

    attached-Lost : (p : Daemon milli nought os) → Lost p → p.mem.attached ≡ false
    unfolding IsDetached
    attached-Lost p h = h

    lose_port-Lost : (p : Daemon milli nought os) (fd : ℕ) → Lost (lose_port milli nought os p fd)
    unfolding lose_port detach IsDetached
    lose_port-Lost p fd = refl

    run_poll-Lost :
        (p : Daemon milli nought os) (fd time : ℕ)
        → Lost p
        → Lost (run_poll milli nought os p fd time)
    unfolding run_poll lose_port detach IsDetached
    run_poll-Lost p fd time h = elim (Option-cases (poll time p.last).1) [
      | inl e ↦ rw (e, run_poll) h
      | inr (t, e) ↦ elim (Option-cases (write_data os p.sys fd t).0) [
        | inl failed ↦ rw (e, failed, run_poll) refl
        | inr (n, sent) ↦ rw (e, sent, run_poll) h
      ]
    ]

    connect_to_port-Lost :
        (p : Daemon milli nought os) (port : List ℕ)
        → Lost p
        → Lost (connect_to_port milli nought os p port)
    unfolding connect_to_port through IsDetached
    connect_to_port-Lost p port h = elim (Option-cases (open_port os p.sys port 115200 0 0).0) [
      | inl e ↦ rw (e, connect_to_port) h
      | inr (fd, e) ↦ simp (e, h, connect_to_port, through) refl
    ]

    run_receiver-Lost :
        (p : Daemon milli nought os) (fd : ℕ) (found : List ℕ)
        → Lost p
        → Lost (run_receiver milli nought os p fd found)
    unfolding run_receiver read_data lose_port detach IsDetached
    run_receiver-Lost p fd found h =
        elim (Option-cases (os.read p.sys fd (read_size - length found)).0) [
          | inl failed ↦ rw (failed, run_receiver) refl
          | inr (bytes, e) ↦ elim (Bool-cases (ltb 0 (length bytes))) [
            | inl more ↦
                let text = c_string (found ++ bytes) in
                rw (e, more, run_receiver)
                  (drain-Keeps IsDetached (suc (length text)) (cmd_table milli nought) text p.mem
                    cmd_table-AllKeep h)
            | inr nothing ↦ rw (e, nothing, run_receiver) h
          ]
        ]

    run_select-Lost :
        (selected : Selected) (p : Daemon milli nought os)
        → Lost p
        → Lost (run_select milli nought os selected p)
    unfolding run_select
    run_select-Lost selected p h = elim (Option-cases p.serial_fd) [
      | inl closed ↦ rw (closed, run_select) h
      | inr (fd, e) ↦ by_answer selected fd e
    ]
      where
        by_answer :
            (selected : Selected) (fd : ℕ)
            → p.serial_fd ≡ some fd
            → Lost (run_select milli nought os selected p)
        by_answer none fd e = simp (e, run_select) h
        by_answer (some (some found)) fd e = simp (e, run_select) (run_receiver-Lost p fd found h)
        by_answer (some none) fd e = simp (e, run_select) h

    serve-Lost :
        (rounds : List (ℕ × Selected)) (p : Daemon milli nought os)
        → Lost p
        → Lost (serve milli nought os rounds p)
    unfolding serve
    serve-Lost [] p h = h
    serve-Lost ((time, selected) ∷ rounds) p h = elim (Option-cases p.serial_fd) [
      | inl closed ↦ simp (closed, serve) h
      | inr (fd, e) ↦
          let polled = run_poll milli nought os p fd time in
          simp (e, serve)
            (serve-Lost rounds (run_select milli nought os selected polled)
              (run_select-Lost selected polled (run_poll-Lost p fd time h)))
    ]

    session-Lost :
        (port : List ℕ) (rounds : List (ℕ × Selected)) (p : Daemon milli nought os)
        → Lost p
        → Lost (session milli nought os port rounds p)
    unfolding session
    session-Lost port rounds p h =
        serve-Lost rounds (connect_to_port milli nought os p port) (connect_to_port-Lost p port h)

    shutdown_faults :
        (p : Daemon milli nought os) → Lost p → (run_ctrl_c milli nought os p).mem.faulted ≡ true
    unfolding run_ctrl_c detach through IsDetached
    shutdown_faults p h = simp (h, through, detach) refl

    main_loop-Lost :
        (port : List ℕ) (sessions : List (List (ℕ × Selected))) (p : Daemon milli nought os)
        → Lost p
        → Lost (main_loop milli nought os port sessions p)
    unfolding main_loop
    main_loop-Lost port [] p h = h
    main_loop-Lost port (rounds ∷ sessions) p h =
        main_loop-Lost port sessions (session milli nought os port rounds p)
          (session-Lost port rounds p h)

    -- Behind a loss of the port (`Check_Serial` after a failed call), whatever rounds of the loop
    -- follow and however often the port is opened again, the shared memory is still detached, and
    -- the end of the daemon by a signal writes through the stale pointer.
    pub lost_port_faults :
        (p : Daemon milli nought os) (fd : ℕ) (rounds : List (ℕ × Selected)) (port : List ℕ)
        (sessions : List (List (ℕ × Selected)))
        → let last =
            main_loop milli nought os port sessions
              (serve milli nought os rounds (lose_port milli nought os p fd)) in
          (last.mem.attached ≡ false) × ((run_ctrl_c milli nought os last).mem.faulted ≡ true)
    lost_port_faults p fd rounds port sessions =
        let behind = serve milli nought os rounds (lose_port milli nought os p fd) in
        let last = main_loop milli nought os port sessions behind in
        let lost : Lost last =
          main_loop-Lost port sessions behind
            (serve-Lost rounds (lose_port milli nought os p fd) (lose_port-Lost p fd)) in
        (attached-Lost last lost, shutdown_faults last lost)
