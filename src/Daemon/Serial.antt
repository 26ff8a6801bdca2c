-- ===== src/Daemon/Serial.antt =====
-- daemon/src/Serial.c: the serial port, over the calls of the operating system.
pub mod Ports
use power_monitor.Prelude.{
  ℕ, Bool, true, false, ◌||◌, List, [], ◌∷◌, Option, none, some, ◌==◌, if◌then◌else◌,
}

-- The calls on a state of the system: a result of -1 is `none`.
pub record Os : Type 1 where
  pub State : Type 0
  pub open_file : State → List ℕ → Option ℕ × State
  -- `fcntl(port_id, F_SETFL, 0)`
  pub set_blocking : State → ℕ → State
  -- `tcsetattr` with a baud rate, VMIN and VTIME; whether it succeeds.
  pub set_attributes : State → ℕ → ℕ → ℕ → ℕ → Bool × State
  pub write : State → ℕ → List ℕ → Option ℕ × State
  pub read : State → ℕ → ℕ → Option (List ℕ) × State
  pub close : State → ℕ → Option ℕ × State

-- The rates that the `switch` knows.
abbrev pub rates : List ℕ
rates =
    50 ∷ 75 ∷ 110 ∷ 134 ∷ 150 ∷ 200 ∷ 300 ∷ 600 ∷ 1200 ∷ 1800 ∷ 2400 ∷ 4800 ∷ 9600 ∷ 19200 ∷ 38400
    ∷ 57600 ∷ 115200 ∷ 230400 ∷ 460800 ∷ 500000 ∷ 576000 ∷ 921600 ∷ 1000000 ∷ []

pub has_rate : List ℕ → ℕ → Bool
has_rate [] rate = false
has_rate (r ∷ rs) rate = r == rate || has_rate rs rate

-- The `switch` of `Serial_Openport`.
pub baud_rate : ℕ → ℕ
baud_rate rate = if has_rate rates rate then rate else 115200

module _ (os : Os) where
  -- `Serial_Openport` behind a successful `open`.
  pub set_up : os.State → ℕ → ℕ → ℕ → ℕ → Option ℕ × os.State
  set_up s port_id baudrate rec_chars block_time =
      let (done, s') =
        os.set_attributes (os.set_blocking s port_id) port_id (baud_rate baudrate) rec_chars
          block_time in
      if done then (some port_id, s') else (none, (os.close s' port_id).1)

  unfoldable pub open_port : os.State → List ℕ → ℕ → ℕ → ℕ → Option ℕ × os.State
  open_port s port baudrate rec_chars block_time =
      let (opened, s') = os.open_file s port in
      elim opened [
        | none ↦ (none, s')
        | some port_id ↦ set_up s' port_id baudrate rec_chars block_time
      ]

  unfoldable pub write_data : os.State → ℕ → List ℕ → Option ℕ × os.State
  write_data s port_id bytes = os.write s port_id bytes

  -- `Serial_Writebyte`: 0 or -1.
  pub write_byte : os.State → ℕ → ℕ → Option ℕ × os.State
  write_byte s port_id value =
      let (r, s') = os.write s port_id (value ∷ []) in
      (elim r [ none ↦ none | some n ↦ some 0 ], s')

  unfoldable pub read_data : os.State → ℕ → ℕ → Option (List ℕ) × os.State
  read_data s port_id length = os.read s port_id length

  unfoldable pub close_port : os.State → ℕ → Option ℕ × os.State
  close_port s port_id = os.close s port_id
