-- ===== src/Lib.antt =====
-- The power monitor: a firmware for a SAM4N board that measures two supplies and answers commands
-- on a serial console (firmware/PowerMon/src), and a daemon on a host that polls it and keeps the
-- readings in shared memory for clients (daemon/src).
--
-- Parts and files, from the bottom up. A function of the source keeps its name in snake case,
-- without the prefix of its file (`EE_Read4` of eeprom.c is Firmware/Eeprom/Bytes `read4`).
--   Prelude: natural numbers and Boolean tests, lists, bits, and C strings as lists of character
--     codes without the terminator, with the functions of the C library that the code calls.
--   Firmware/Board: the registers below the code, a record of functions on an abstract state.
--   Firmware/Flash: the interface of DataFlash.h, operations and laws; Flash/Ram fills it with a
--     flash in memory, to run the cache on, and Flash/Beside with one that has a bus beside it.
--   Firmware/DataFlash (DataFlash.c): each operation as the bytes that it exchanges. DataFlash/Chip
--     is the documented behaviour of the AT45DB chip, a parameter, and DataFlash/Driver fills the
--     interface of Firmware/Flash from it; DataFlash/Wired does so over the bus alone, as `CS_Pin`
--     never changes. DataFlash/Simulated is a board of chips with these properties, on the bus of
--     SimulatedBus, where SimulatedLine says that other select lines leave a chip alone.
--   Firmware/Eeprom (eeprom.c): the write-back cache, over any driver of the interface. Lookup,
--     Coherent, Filling, Flush and Refine carry the invariant `Holds`: cache and flash together
--     hold one memory (Eeprom/Memory). Words, Blocks, Strings and Trace lift it to words, blocks,
--     strings and sequences of calls, Settings to the words with a default that the console uses,
--     Drain to the calls that write back over time. OnChip composes cache, driver and chip.
--   Firmware/UartBuffer (UartBuffer.c): the rings; the USART is a list of answers. Pending counts
--     what can still come, and Drain is the run of interrupts that empties the queue. Queues and
--     Trace refine the rings to two queues. The functions switch interrupts off, so an interrupt
--     comes between two of them.
--   Firmware/Heartbeat (Heartbeat.c), CmdProcessor (CmdProcessor.c), SysLog (SysLog.c),
--   Ad7787 (AD7787_Driver.c) and PowerChanel (PowerChanel.c): the other parts of the firmware.
--     SysLog/Printed is the log on the USART.
--   Firmware/Console (main.c): the commands, their table, and the line editor `Run_Config`.
--     Console/Keeps and Line/Keeps say what no command and no typed character breaks: what
--     `UartBuffer_PutString` and the calls on a setting keep. Line/Ends and Line/Typing use
--     them. Behind a write past the end of `MsgBuf` the program is undefined: the model drops the
--     write and keeps a flag of it, and Line/Inside and Firmware/Main speak of runs without one.
--   Firmware/Main (main.c): start-up, the interrupts, and one round of the loop of `main`. Flash and
--     converters share a bus: Main/Bus is what the code relies on there, that accesses without the
--     select line of the flash leave its pages alone. A round is one function, and Main/Phases cuts
--     it into its five calls. Main/Invariant, Interleaved and PowerOn are the states behind any
--     sequence of these calls and interrupts between them, Main/Rounds whole rounds, Main/Settings
--     what a restart restores, Main/Bench a concrete machine. Main/OnChip is the machine over the
--     driver of DataFlash.c, and Main/Preempted the interrupts inside a call that does not use
--     what they change.
--   Daemon/CmdParse (CmdParse.c): takes lines off the receive buffer; its Keeps and Commands/Places
--     are the invariant of the shared memory. Daemon/Commands (Cmds_PMon.c): polls and handlers of
--     replies, on the shared memory behind a pointer that is attached or stale.
--     Daemon/Library (PMon_Lib.c): what clients read. Daemon/Sharing has the daemon and its clients
--     one access of the memory at a time, as a step relation: Sharing is one access of a process,
--     Runs the interleaving, Handlers the accesses of the daemon alone. The mutex is a record of
--     what the threads library documents for the threads of one process: Cmds_PMon.c makes the
--     mutex without the attribute for sharing it between processes, so that what a client of
--     another process meets there is undefined, and is not claimed.
--     Daemon/Serial (Serial.c): the port, over the system's calls as a record `Os`. Daemon/Main
--     (PowerMon_Main.c): the connection, the poll, the receiver, and the loops around them over a
--     list of times and results of `select`, each with the string that the unset `readBuf` happens
--     to hold, with Main/Detached for the time behind a lost port.
--     Daemon/Client (PM_Test.c): a client.
--
-- State is passed explicitly: a function that changes static variables takes a record of them and
-- returns the new one. Integers are natural numbers with their wrap-around written out; a signed
-- 32-bit value is its bit pattern. A number that `atol` or `atoi` cannot return is read as `strtol`
-- has it, and the theorems ask for numbers that fit. Loops over a buffer are structural. The other
-- loops have fuel, and a Boolean that says whether they ended by their own test: `flush_loop` gets one round more
-- than there are pages, as each round but the last cleans one; `wait_loop` and `wait_miso_loop`
-- one more than the polls that the device may refuse; `drain` is given its fuel by the
-- caller, and so is `run_config`: the characters that wait and the answers of the USART to come
-- bound its rounds.
--
-- Not modelled: the vendor's framework, an interrupt that strikes inside a call of the firmware's
-- loop and changes what that call uses (it comes between two), the registration of signal handlers,
-- `sleep`, float arithmetic (a parameter), and the set-up of the board. The endless loops of both
-- `main` functions are sequences of rounds.
pub mod Prelude
pub mod Firmware
pub mod Daemon
