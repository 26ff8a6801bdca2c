-- ===== src/Firmware.antt =====
-- The firmware of the board: firmware/PowerMon/src.
pub mod Board
pub mod Flash
pub mod Eeprom
pub mod DataFlash
pub mod Heartbeat
pub mod UartBuffer
pub mod CmdProcessor
pub mod SysLog
pub mod Ad7787
pub mod PowerChanel
pub mod Console
pub mod Main
