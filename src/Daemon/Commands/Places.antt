-- ===== src/Daemon/Commands/Places.antt =====
-- daemon/src/Cmds_PMon.c: the arrays of the shared memory have two places each.
use power_monitor.Prelude.{
  ◌≡◌, ◌∙◌, inl, inr, none, some, length, set, length-set, Option-cases, Bool-cases, ◌==◌,
}
use power_monitor.Prelude.Text.{Signed}
use power_monitor.Daemon.CmdParse.{Callback, cmd_parse_skip_space}
use power_monitor.Daemon.CmdParse.Keeps.{Keeps, AllKeep, end, entry}
use power_monitor.Daemon.Commands.{
  SharedMem, Segment, through, detach, on_segment, cmd_table, clear_shared_memory, set_connected,
  receive_current, receive_voltage, chanel_index,
}

module _ {F : Type 0} (milli : Signed → F) (nought : F) where
  pub record TwoPlaces (m : SharedMem milli nought) : Type 0 where
    pub voltage : length m.voltage ≡ 2
    pub current : length m.current ≡ 2

  pub clear_shared_memory-TwoPlaces :
      (m : SharedMem milli nought) → TwoPlaces m → TwoPlaces (clear_shared_memory milli nought m)
  unfolding clear_shared_memory
  clear_shared_memory-TwoPlaces m h = record {
    voltage =
        length-set (set m.voltage 0 nought) 1 nought ∙ length-set m.voltage 0 nought ∙ h.voltage;
    current =
        length-set (set m.current 0 nought) 1 nought ∙ length-set m.current 0 nought ∙ h.current;
  }

  pub set_connected-TwoPlaces :
      (m : SharedMem milli nought) → TwoPlaces m → TwoPlaces (set_connected milli nought m)
  unfolding set_connected
  set_connected-TwoPlaces m h = record { voltage = h.voltage; current = h.current }

  receive_current-Keeps : Keeps TwoPlaces (receive_current milli nought)
  unfolding receive_current
  receive_current-Keeps none m h = h
  receive_current-Keeps (some buf) m h = record {
    voltage = h.voltage;
    current = length-set m.current 0 _ ∙ h.current;
  }

  receive_voltage-Keeps : Keeps TwoPlaces (receive_voltage milli nought)
  unfolding receive_voltage
  receive_voltage-Keeps none m h = h
  receive_voltage-Keeps (some buf) m h =
      elim (Option-cases (chanel_index milli nought (cmd_parse_skip_space buf))) [
        | inl e ↦ rw (e, receive_voltage) h
        | inr (ch, e) ↦
            rw (e, receive_voltage)
              (record { voltage = length-set m.voltage ch _ ∙ h.voltage; current = h.current })
      ]

  through-TwoPlaces :
      (f : SharedMem milli nought → SharedMem milli nought) (g : Segment milli nought)
      → (TwoPlaces g.mem → TwoPlaces (f g.mem))
      → TwoPlaces g.mem
      → TwoPlaces (through milli nought f g).mem
  unfolding through
  through-TwoPlaces f g keeps h = elim (Bool-cases g.attached) [
    | inl e ↦ simp (e, through) (keeps h)
    | inr e ↦ simp (e, through) h
  ]

  pub detach-TwoPlaces :
      (g : Segment milli nought) → TwoPlaces g.mem → TwoPlaces (detach milli nought g).mem
  unfolding detach
  detach-TwoPlaces g = through-TwoPlaces _ g (clear_shared_memory-TwoPlaces g.mem)

  pub connect-TwoPlaces :
      (g : Segment milli nought)
      → TwoPlaces g.mem
      → TwoPlaces (through milli nought (set_connected milli nought) g).mem
  connect-TwoPlaces g = through-TwoPlaces _ g (set_connected-TwoPlaces g.mem)

  on_segment-Keeps :
      (func : Callback (SharedMem milli nought))
      → Keeps TwoPlaces func
      → Keeps (λ (g : Segment milli nought). TwoPlaces g.mem) (on_segment milli nought func)
  unfolding on_segment
  on_segment-Keeps func k none g h = h
  on_segment-Keeps func k (some buf) g h = elim (Bool-cases ((func (some buf) g.mem).0 == 0)) [
    | inl e ↦ rw e h
    | inr e ↦ rw e (through-TwoPlaces _ g (λ _. k (some buf) g.mem h) h)
  ]

  pub cmd_table-AllKeep :
      AllKeep (λ (g : Segment milli nought). TwoPlaces g.mem) (cmd_table milli nought)
  unfolding cmd_table
  cmd_table-AllKeep =
      entry (on_segment-Keeps _ receive_voltage-Keeps)
        (entry (on_segment-Keeps _ receive_current-Keeps) end)
